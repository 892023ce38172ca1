-- ===== src/Gateway/Samples.antt =====
-- One gateway with one upstream, its queue and two calls (proxy/gateway.py).
use mcp_gatekeeper.Prelude.{[], ◌∷◌, true, false, none, some, codes}
use mcp_gatekeeper.Json.{null, string, end, field}
use mcp_gatekeeper.Policy.{require_approval, deny, Policy}
use mcp_gatekeeper.Registry.{NamespacedTool, Tool}
use mcp_gatekeeper.Approvals.{pending, approved, ApprovalRequest}
use mcp_gatekeeper.Approvals.Store
use mcp_gatekeeper.Audit.Store.{sqlite_store}
use mcp_gatekeeper.Upstream.{replied}
use mcp_gatekeeper.Gateway.{auto, GatewayDeps, Gateway, Ambient}
use mcp_gatekeeper.Gateway.Calls.{Request}

abbrev pub write_tool : Tool
write_tool = record { name = codes "write"; annotations = none; other = null }

abbrev pub write_entry : NamespacedTool
write_entry = record {
  upstream = codes "fs";
  remote_name = codes "write";
  tool = record write_tool { name = codes "fs__write" };
}

abbrev pub asking : Policy
asking = record { rules = []; default = require_approval; default_reason = none }

abbrev pub asks : GatewayDeps
asks = record {
  policy = asking;
  connections = codes "fs" ∷ [];
  respond = λ before call. replied null false;
  registry = (codes "fs__write", write_entry) ∷ [];
  approval_mode = auto;
  ui_base_url = codes "http://localhost:8900/";
  redact = [];
  repr = λ s. s;
}

-- The same gateway with a policy that denies everything.
abbrev pub denies : GatewayDeps
denies = record asks { policy = record asking { default = deny } }

abbrev pub quiet : Ambient
quiet = record {
  now = 10;
  delay = 1;
  recorded = 11;
  latency = 5;
  event_id = codes "e1";
  approval_id = codes "a2";
  rounds = [];
  late = [];
  between = [];
}

abbrev pub approval_in : Store.Table → Gateway
approval_in rows = record {
  approvals = record { store = rows; timeout = 30; approve_on_timeout = false; events = [] };
  audit = sqlite_store [];
  refreshed = none;
  sent = [];
}

-- An approval of a call with other arguments.
abbrev pub granted_row : ApprovalRequest
granted_row = record {
  id = codes "a1";
  created_at = 1;
  expires_at = 31;
  status = approved;
  tool = codes "fs__write";
  upstream = codes "fs";
  arguments = field (codes "path") (string (codes "/tmp/x")) end;
  reason = none;
  client_name = none;
  decided_at = some 5;
  approver = some (codes "ann");
  note = none;
}

abbrev pub pending_row : ApprovalRequest
pending_row = record granted_row { status = pending; decided_at = none; approver = none }

abbrev pub fresh_call : Request
fresh_call = record {
  name = codes "fs__write";
  arguments = some (field (codes "path") (string (codes "/prod/db")) end);
  client_name = none;
  supports_url_elicitation = true;
  request_state = none;
  has_input_responses = false;
}

abbrev pub retry : Request
retry = record fresh_call { request_state = some (codes "a1"); has_input_responses = true }
