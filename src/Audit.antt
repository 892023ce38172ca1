-- ===== src/Audit.antt =====
-- audit/models.py: the record of one governed call.
pub mod Redact
pub mod Store
pub mod Like
pub mod Recent
pub mod Fresh
pub mod Columns
pub mod Jsonl
pub mod Masking
pub mod NoPatterns
pub mod Samples
mod Tests
use mcp_gatekeeper.Prelude.{ℕ, List, Option, Text, codes}
use mcp_gatekeeper.Json.{Fields}
use mcp_gatekeeper.Policy.{Action, Source, Decision}
use Redact.{redact_arguments}

pub data Outcome : Type 0 where
  forwarded denied_by_policy denied_by_approver dismissed_by_client timed_out awaiting_approval :
      Outcome
  error unknown_tool : Outcome

pub data ResultStatus : Type 0 where
  ok error : ResultStatus

-- The latency is a count of microseconds.
pub record AuditEvent : Type 0 where
  pub event_id : Text
  pub created_at : ℕ
  pub tool : Text
  pub upstream : Text
  pub arguments : Fields
  pub action : Action
  pub decision_source : Source
  pub outcome : Outcome
  pub decision_reason : Option Text
  pub rule_index : Option ℕ
  pub approval_id : Option Text
  pub approver : Option Text
  pub latency : Option ℕ
  pub result_status : Option ResultStatus
  pub client_name : Option Text
  pub error : Option Text

-- The keyword arguments that `build` passes on as they are.
pub record Extra : Type 0 where
  pub approval_id : Option Text
  pub approver : Option Text
  pub latency : Option ℕ
  pub result_status : Option ResultStatus
  pub client_name : Option Text
  pub error : Option Text

unfoldable pub build_event :
    Text → ℕ → Text → Text → Fields → Decision → Outcome → List Text → Extra → AuditEvent
unfolding redact_arguments
build_event event_id now tool upstream arguments decision outcome redact extra = record {
  event_id = event_id;
  created_at = now;
  tool = tool;
  upstream = upstream;
  arguments = redact_arguments arguments redact;
  action = decision.action;
  decision_source = decision.source;
  outcome = outcome;
  decision_reason = decision.reason;
  rule_index = decision.rule_index;
  approval_id = extra.approval_id;
  approver = extra.approver;
  latency = extra.latency;
  result_status = extra.result_status;
  client_name = extra.client_name;
  error = extra.error;
}
