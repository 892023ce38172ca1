-- ===== src/Audit/Samples.antt =====
-- One recorded call, and a rendering (audit/models.py).
use mcp_gatekeeper.Prelude.{none, some, codes}
use mcp_gatekeeper.Json.{string, end, field}
use mcp_gatekeeper.Policy.{Action, Source}
use mcp_gatekeeper.Audit.{AuditEvent, Outcome}
use mcp_gatekeeper.Audit.Redact.{decimal}
use mcp_gatekeeper.Audit.Jsonl.{Rendering}

abbrev pub written : AuditEvent
written = record {
  event_id = codes "e1";
  created_at = 10;
  tool = codes "fs__write";
  upstream = codes "fs";
  arguments = field (codes "path") (string (codes "a\nb")) end;
  action = Action.allow;
  decision_source = Source.rule;
  outcome = Outcome.forwarded;
  decision_reason = none;
  rule_index = some 0;
  approval_id = none;
  approver = none;
  latency = some 5;
  result_status = none;
  client_name = none;
  error = none;
}

abbrev pub in_digits : Rendering
in_digits = record { isoformat = decimal; milliseconds = decimal }
