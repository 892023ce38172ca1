-- ===== src/Audit/Columns.antt =====
-- The columns of the table `audit_events`: what `record` writes and what `_row_to_event` reads (audit/store.py).
use mcp_gatekeeper.Prelude.{ℕ, true, List, [], ◌∷◌, Option, none, some, Text, text_eq, ◌≡◌, refl}
use mcp_gatekeeper.Prelude.Results.{Result, ok, err, ◌>>=◌}
use mcp_gatekeeper.Prelude.Columns.{
  Unreadable, value_error, decode_error, member, Clock, ReadsBack, or_raise,
}
use mcp_gatekeeper.Json.{Value, object, Fields}
use mcp_gatekeeper.Json.Dumps.{dumps, sort_keys, sort_fields}
use mcp_gatekeeper.Json.Loads.{loads}
use mcp_gatekeeper.Json.Encodable.{encodable, fields_encodable}
use mcp_gatekeeper.Json.RoundTrip.{loads-dumps}
use mcp_gatekeeper.Policy.{
  Action, allow, deny, require_approval, action_value, Source, source_value,
}
use mcp_gatekeeper.Audit.{
  AuditEvent, Outcome, forwarded, denied_by_policy, denied_by_approver, dismissed_by_client,
  timed_out, awaiting_approval, unknown_tool, ResultStatus,
}
use mcp_gatekeeper.Audit.Jsonl.{outcome_value, status_value}

-- A row: a moment and the arguments are texts, an enumeration is its value, and an absent one is NULL.
pub record Row : Type 0 where
  pub event_id : Text
  pub created_at : Text
  pub tool : Text
  pub upstream : Text
  pub arguments : Text
  pub action : Text
  pub decision_source : Text
  pub decision_reason : Option Text
  pub rule_index : Option ℕ
  pub outcome : Text
  pub approval_id : Option Text
  pub approver : Option Text
  pub latency : Option ℕ
  pub result_status : Option Text
  pub client_name : Option Text
  pub error : Option Text

abbrev pub status_column : Option ResultStatus → Option Text
status_column none = none
status_column (some s) = some (status_value s)

abbrev pub actions : List Action
actions = allow ∷ deny ∷ require_approval ∷ []

abbrev pub outcomes : List Outcome
outcomes =
    forwarded ∷ denied_by_policy ∷ denied_by_approver ∷ dismissed_by_client ∷ timed_out
    ∷ awaiting_approval ∷ Outcome.error ∷ unknown_tool ∷ []

abbrev pub statuses : List ResultStatus
statuses = ResultStatus.ok ∷ ResultStatus.error ∷ []

-- The source is a text of one of two values.
abbrev pub sources : List Source
sources = Source.rule ∷ Source.default ∷ []

abbrev pub as_mapping : Value → Result Unreadable Fields
as_mapping (object fs) = ok fs
as_mapping _ = err value_error

-- `json.loads` of a column.
unfoldable pub read_arguments : Text → Result Unreadable Fields
unfolding loads
read_arguments text = or_raise decode_error (loads text) >>= as_mapping

-- `ResultStatus(raw_status) if raw_status else None`.
unfoldable pub read_status : Option Text → Result Unreadable (Option ResultStatus)
unfolding member
read_status none = ok none
read_status (some []) = ok none
read_status (some (c ∷ s)) = member status_value statuses (c ∷ s) >>= λ status. ok (some status)

module _ (clock : Clock) where
  unfoldable pub event_row : AuditEvent → Row
  unfolding dumps
  event_row e = record {
    event_id = e.event_id;
    created_at = clock.isoformat e.created_at;
    tool = e.tool;
    upstream = e.upstream;
    arguments = dumps (object e.arguments);
    action = action_value e.action;
    decision_source = source_value e.decision_source;
    decision_reason = e.decision_reason;
    rule_index = e.rule_index;
    outcome = outcome_value e.outcome;
    approval_id = e.approval_id;
    approver = e.approver;
    latency = e.latency;
    result_status = status_column e.result_status;
    client_name = e.client_name;
    error = e.error;
  }

  unfoldable pub row_to_event : Row → Result Unreadable AuditEvent
  unfolding read_arguments read_status member
  row_to_event row = do
    created_at ← or_raise value_error (clock.fromisoformat row.created_at)
    arguments ← read_arguments row.arguments
    action ← member action_value actions row.action
    source ← member source_value sources row.decision_source
    outcome ← member outcome_value outcomes row.outcome
    status ← read_status row.result_status
    ok (record {
      event_id = row.event_id;
      created_at = created_at;
      tool = row.tool;
      upstream = row.upstream;
      arguments = arguments;
      action = action;
      decision_source = source;
      outcome = outcome;
      decision_reason = row.decision_reason;
      rule_index = row.rule_index;
      approval_id = row.approval_id;
      approver = row.approver;
      latency = row.latency;
      result_status = status;
      client_name = row.client_name;
      error = row.error;
    })

member-action : (a : Action) → member action_value actions (action_value a) ≡ ok a
unfolding member text_eq
member-action allow = refl
member-action deny = refl
member-action require_approval = refl

member-source : (s : Source) → member source_value sources (source_value s) ≡ ok s
unfolding member text_eq
member-source Source.rule = refl
member-source Source.default = refl

member-outcome : (o : Outcome) → member outcome_value outcomes (outcome_value o) ≡ ok o
unfolding member text_eq
member-outcome forwarded = refl
member-outcome denied_by_policy = refl
member-outcome denied_by_approver = refl
member-outcome dismissed_by_client = refl
member-outcome timed_out = refl
member-outcome awaiting_approval = refl
member-outcome Outcome.error = refl
member-outcome unknown_tool = refl

read_status-column : (s : Option ResultStatus) → read_status (status_column s) ≡ ok s
unfolding read_status member text_eq
read_status-column none = refl
read_status-column (some ResultStatus.ok) = refl
read_status-column (some ResultStatus.error) = refl

pub read_arguments-dumps :
    (fs : Fields)
    → fields_encodable fs ≡ true
    → read_arguments (dumps (object fs)) ≡ ok (sort_fields fs)
unfolding read_arguments sort_keys encodable
read_arguments-dumps fs h = rw (loads-dumps (object fs) h) refl

-- An event is read back from the row that is written for it, in every column, with the keys of its
-- arguments in order, where the texts in its arguments hold no surrogates and the numbers are finite.
pub row_to_event-event_row :
    (clock : Clock) (e : AuditEvent)
    → ReadsBack clock
    → fields_encodable e.arguments ≡ true
    → row_to_event clock (event_row clock e) ≡ ok (record e { arguments = sort_fields e.arguments })
unfolding row_to_event event_row
row_to_event-event_row clock e back h =
    rw
      (
        back.moment e.created_at,
        read_arguments-dumps e.arguments h,
        member-action e.action,
        member-source e.decision_source,
        member-outcome e.outcome,
        read_status-column e.result_status,
      )
      refl
