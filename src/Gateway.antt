-- ===== src/Gateway.antt =====
-- proxy/gateway.py: what the gateway holds and what one call brings with it.
pub mod Calls
pub mod Dispatch
pub mod Forwarding
pub mod Handlers
pub mod Asking
pub mod Answers
pub mod Carried
pub mod Resume
pub mod Queueing
pub mod Samples
mod Tests
use mcp_gatekeeper.Prelude.{
  ℕ, List, [], ◌∷◌, ◌++◌, Bool, true, false, Option, none, some, if◌then◌else◌, Text, codes,
  is_some,
}
use mcp_gatekeeper.Json.{Value, Fields}
use mcp_gatekeeper.Policy.{Policy, Decision}
use mcp_gatekeeper.Registry.{ToolRegistry}
use mcp_gatekeeper.Approvals.{ApprovalRequest}
use mcp_gatekeeper.Approvals.Service.{Service, Op, Round}
use mcp_gatekeeper.Audit.{AuditEvent, Outcome, ResultStatus, build_event}
use mcp_gatekeeper.Audit.Store.{AuditStore, record_in}
use mcp_gatekeeper.Upstream.{Sent, Respond}

pub data ApprovalMode : Type 0 where
  auto elicit block : ApprovalMode

-- What does not change: the configuration, the connections that were opened, how the servers answer,
-- and Python's `repr` of a text.
pub record GatewayDeps : Type 0 where
  pub policy : Policy
  pub connections : List Text
  pub respond : Respond
  pub registry : ToolRegistry
  pub approval_mode : ApprovalMode
  pub ui_base_url : Text
  pub redact : List Text
  pub repr : Text → Text

-- What changes: the queue, the audit trail, the registry read last, and the calls that were sent to
-- the upstream servers, in order.
pub record Gateway : Type 0 where
  pub approvals : Service
  pub audit : AuditStore
  pub refreshed : Option ToolRegistry
  pub sent : List Sent

abbrev pub registry_of : GatewayDeps → Gateway → ToolRegistry
registry_of d g = elim g.refreshed [ none ↦ d.registry | some r ↦ r ]

-- What the world supplies while one call runs: clocks, fresh ids, and what other tasks do meanwhile. The call
-- is recorded at the moment `recorded`.
pub record Ambient : Type 0 where
  pub now : ℕ
  pub delay : ℕ
  pub recorded : ℕ
  pub latency : ℕ
  pub event_id : Text
  pub approval_id : Text
  pub rounds : List Round
  pub late : List Op
  pub between : List Op

-- The arguments of `_record` that differ from call to call.
pub record Entry : Type 0 where
  pub tool : Text
  pub upstream : Text
  pub arguments : Fields
  pub decision : Decision
  pub outcome : Outcome
  pub client_name : Option Text
  pub result_status : Option ResultStatus
  pub approval : Option ApprovalRequest
  pub error : Option Text

abbrev pub approval_id_of : Option ApprovalRequest → Option Text
approval_id_of none = none
approval_id_of (some a) = some a.id

abbrev pub approver_of : Option ApprovalRequest → Option Text
approver_of none = none
approver_of (some a) = a.approver

abbrev pub event_of : GatewayDeps → Ambient → Entry → AuditEvent
event_of d amb e =
    build_event amb.event_id amb.recorded e.tool e.upstream e.arguments e.decision e.outcome
      d.redact
      (record {
        approval_id = approval_id_of e.approval;
        approver = approver_of e.approval;
        latency = some amb.latency;
        result_status = e.result_status;
        client_name = e.client_name;
        error = e.error;
      })

-- `_record`; the write of the event is taken to succeed.
unfoldable pub record_call : GatewayDeps → Ambient → Entry → Gateway → Gateway
record_call d amb e g = record g { audit = record_in (event_of d amb e) g.audit }
