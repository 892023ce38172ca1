-- ===== src/System.antt =====
-- The running program: the MCP server (proxy/server.py) and the approval pages (ui/app.py) over the one
-- approval service and the one audit trail that `_serve` of cli.py gives to both.
pub mod Moving
pub mod Traffic
pub mod Deciding
pub mod Noting
pub mod Ledger
mod Tests
use mcp_gatekeeper.Prelude.{ℕ, List, [], ◌∷◌, Option, Text}
use mcp_gatekeeper.Registry.{Tool}
use mcp_gatekeeper.Gateway.{GatewayDeps, Gateway, Ambient}
use mcp_gatekeeper.Server.{Sdk, Meta, CallParams, on_call_tool, on_list_tools}
use mcp_gatekeeper.Pages
use mcp_gatekeeper.Pages.{Form, dashboard, pending_fragment, approval_detail}

-- What a client or an approver asks of it. What runs while a call is held is in the call's `Ambient`.
pub data Step (C I : Type 0) : Type 0 where
  calls : Ambient → Meta C I → CallParams → Step C I
  lists : List (Text × Option (List Tool)) → Step C I
  posts : Text → Form → ℕ → Step C I
  shows : Text → ℕ → ℕ → Step C I
  polls : ℕ → Step C I
  opens : ℕ → Step C I

module _ {C E I : Type 0} (sdk : Sdk C E I) (d : GatewayDeps) where
  -- The state after a step: the handler that answers it, on the state that all of them share.
  unfoldable pub run_step : Step C I → Gateway → Gateway
  unfolding on_call_tool on_list_tools Pages.decide approval_detail pending_fragment dashboard
  run_step (calls amb meta params) g = (on_call_tool sdk d amb meta params g).1
  run_step (lists answers) g = (on_list_tools answers g).1
  run_step (posts id form now) g = record g { approvals = (Pages.decide id form now g.approvals).0 }
  run_step (shows id now delay) g = record g {
    approvals = (approval_detail id now delay g.approvals).0;
  }
  run_step (polls now) g = record g { approvals = (pending_fragment now g.approvals).0 }
  run_step (opens now) g = record g { approvals = (dashboard now g.approvals g.audit).0 }

  unfoldable pub run_steps : List (Step C I) → Gateway → Gateway
  unfolding run_step
  run_steps [] g = g
  run_steps (step ∷ steps) g = run_steps steps (run_step step g)
