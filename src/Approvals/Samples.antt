-- ===== src/Approvals/Samples.antt =====
-- One request, two verdicts, and a queue that holds the request (approvals/).
use mcp_gatekeeper.Prelude.{[], ◌∷◌, true, false, none, Text, codes}
use mcp_gatekeeper.Json.{end}
use mcp_gatekeeper.Approvals.{pending, ApprovalRequest}
use mcp_gatekeeper.Approvals.Store.{Table, Verdict}
use mcp_gatekeeper.Approvals.Service.{Service, Round, reads}

abbrev pub first_id : Text
first_id = codes "a1"

abbrev pub parked_row : ApprovalRequest
parked_row = record {
  id = first_id;
  created_at = 10;
  expires_at = 40;
  status = pending;
  tool = codes "fs__write";
  upstream = codes "fs";
  arguments = end;
  reason = none;
  client_name = none;
  decided_at = none;
  approver = none;
  note = none;
}

abbrev pub one_row : Table
one_row = parked_row ∷ []

abbrev pub grant : Verdict
grant = record { granted = true; approver = codes "ann"; note = none; decided_at = 20 }

abbrev pub rejection : Verdict
rejection = record { granted = false; approver = codes "bob"; note = none; decided_at = 21 }

abbrev pub denying : Service
denying = record { store = one_row; timeout = 30; approve_on_timeout = false; events = [] }

abbrev pub approving : Service
approving = record denying { approve_on_timeout = true }

abbrev pub read_round : Round
read_round = record { others = reads first_id 30 1 ∷ []; clock = 41 }
