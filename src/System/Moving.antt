-- ===== src/System/Moving.antt =====
-- Every step of the running program moves the queue by calls of the approval service
-- (proxy/server.py, ui/app.py).
use mcp_gatekeeper.Prelude.{List, [], ◌∷◌, Bool, true, false, Text, all, ◌≡◌, refl, arith}
use mcp_gatekeeper.Approvals.Store
use mcp_gatekeeper.Approvals.Store.History.Life.{Course, life_of, Writes-Course}
use mcp_gatekeeper.Approvals.Service.{Op, run_op}
use mcp_gatekeeper.Approvals.Service.Acts.{
  decides_one, Acts, rests, Acts-trans, act, Acts-Writes, Acts-auto,
}
use mcp_gatekeeper.Gateway.{GatewayDeps, Gateway}
use mcp_gatekeeper.Gateway.Dispatch.{list_tools, refresh_registry}
use mcp_gatekeeper.Gateway.Queueing.{meanwhile, call_tool-Acts}
use mcp_gatekeeper.Server.{Sdk, request_of, on_call_tool, on_list_tools}
use mcp_gatekeeper.Pages
use mcp_gatekeeper.Pages.{Form, verdict_of, dashboard, pending_fragment, approval_detail}
use mcp_gatekeeper.System.{Step, calls, lists, posts, shows, polls, opens, run_step, run_steps}

-- The calls of the service that a step makes, or lets others make, apart from those of a handler's own.
abbrev pub ops_of : {C I : Type 0} → Step C I → List Op
ops_of (calls amb meta params) = meanwhile amb
ops_of (posts id form now) = Op.decides id (verdict_of form now) ∷ []
ops_of _ = []

module _ {C E I : Type 0} (sdk : Sdk C E I) (d : GatewayDeps) (test : Op → Bool)
    (own : (op : Op) → decides_one op ≡ false → test op ≡ true) where
  pub run_step-Acts :
      (step : Step C I) (g : Gateway)
      → all test (ops_of step) ≡ true
      → Acts test g.approvals (run_step sdk d step g).approvals
  unfolding run_step on_call_tool on_list_tools list_tools refresh_registry Pages.decide
      approval_detail pending_fragment dashboard run_op
  run_step-Acts (calls amb meta params) g h =
      call_tool-Acts test own d amb h (request_of sdk meta params) g
  run_step-Acts (lists answers) g h = rests
  run_step-Acts (posts id form now) g h =
      act test (Op.decides id (verdict_of form now)) (ground arith) refl
  run_step-Acts (shows id now delay) g h =
      act test (Op.reads id now delay) (own (Op.reads id now delay) refl) refl
  run_step-Acts (polls now) g h = act test (Op.lists now) (own (Op.lists now) refl) refl
  run_step-Acts (opens now) g h = act test (Op.lists now) (own (Op.lists now) refl) refl

  -- What holds of every step of a run.
  abbrev pub Every : List (Step C I) → Type 0
  Every [] = Unit
  Every (step ∷ steps) = (all test (ops_of step) ≡ true) × Every steps

  pub run_steps-Acts :
      (steps : List (Step C I)) (g : Gateway)
      → Every steps
      → Acts test g.approvals (run_steps sdk d steps g).approvals
  unfolding run_steps
  run_steps-Acts [] g h = rests
  run_steps-Acts (step ∷ steps) g (h, k) =
      Acts-trans test (run_step-Acts step g h) (run_steps-Acts steps (run_step sdk d step g) k)

all-always : (ops : List Op) → all (λ op. true) ops ≡ true
all-always [] = refl
all-always (op ∷ ops) = ground (arith, all-always ops)

module _ {C E I : Type 0} (sdk : Sdk C E I) (d : GatewayDeps) where
  Every-always : (steps : List (Step C I)) → Every sdk d (λ op. true) (λ op h. refl) steps
  Every-always [] = tt
  Every-always (step ∷ steps) = (all-always (ops_of step), Every-always steps)

  -- No step changes what a time-out does.
  pub run_step-auto :
      (step : Step C I) (g : Gateway)
      → (run_step sdk d step g).approvals.approve_on_timeout ≡ g.approvals.approve_on_timeout
  run_step-auto step g =
      Acts-auto (run_step-Acts sdk d (λ op. true) (λ op h. refl) step g (all-always (ops_of step)))

  pub run_steps-Writes :
      (steps : List (Step C I)) (g : Gateway)
      → Store.History.Writes g.approvals.store (run_steps sdk d steps g).approvals.store
  run_steps-Writes steps g =
      Acts-Writes (run_steps-Acts sdk d (λ op. true) (λ op h. refl) steps g (Every-always steps))

  -- Whatever the clients and the approvers of the running program do, in whatever order, calls, forms, page
  -- views and what other tasks do while a call is held, each id goes along the life cycle: from unknown to
  -- waiting when a call opens it, from waiting to one of granted, refused and overslept, and no further.
  pub run_steps-Course :
      (id : Text) (steps : List (Step C I)) (g : Gateway)
      → Course
          (life_of (Store.get id g.approvals.store))
          (life_of (Store.get id (run_steps sdk d steps g).approvals.store))
  run_steps-Course id steps g = Writes-Course id (run_steps-Writes steps g)
