-- ===== src/Approvals/Service/Lives.antt =====
-- The service moves requests along the life cycle only (approvals/service.py).
use mcp_gatekeeper.Prelude.{List, Text}
use mcp_gatekeeper.Approvals.Store
use mcp_gatekeeper.Approvals.Store.History.Life.{Course, life_of, Writes-Course}
use mcp_gatekeeper.Approvals.Service.{Service, Op, run_ops}
use mcp_gatekeeper.Approvals.Service.Effects.{run_ops-Writes}

-- Whatever calls of the queue run, in whatever order, opening, deciding, dismissing, reading, listing and
-- settling a time-out, each id goes along the life cycle: from unknown to waiting when it is opened, from
-- waiting to one of granted, refused and overslept, and no further.
pub run_ops-Course :
    (id : Text) (ops : List Op) (s : Service)
    → Course (life_of (Store.get id s.store)) (life_of (Store.get id (run_ops ops s).store))
run_ops-Course id ops s = Writes-Course id (run_ops-Writes ops s)
