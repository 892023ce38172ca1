-- ===== src/Gateway/Calls.antt =====
-- The handlers of proxy/gateway.py: each takes the gateway's state and returns its answer and the
-- state that it leaves.
use mcp_gatekeeper.Prelude.{
  join_with, List, [], ◌∷◌, ◌++◌, Bool, true, false, ◌&&◌, ◌==◌, Option, none, some, if◌then◌else◌,
  Text, codes, or_text,
}
use mcp_gatekeeper.Json.{Value, Fields, end}
use mcp_gatekeeper.Glob.{is_nil}
use mcp_gatekeeper.Policy.{deny, Source, Decision, PolicyRequest}
use mcp_gatekeeper.Registry.{NamespacedTool, names, split_namespace}
use mcp_gatekeeper.Approvals.{ApprovalRequest, ApprovalStatus, expired, is_granted}
use mcp_gatekeeper.Audit.{
  Outcome, forwarded, denied_by_policy, denied_by_approver, timed_out, unknown_tool, ResultStatus,
  ok,
}
use mcp_gatekeeper.Upstream.{wire, session_call, SessionReply, result, upstream_error, is_connected}
use mcp_gatekeeper.Gateway.{GatewayDeps, Gateway, registry_of, Ambient, Entry, record_call}

-- A tool result of the gateway's own or of an upstream; the elicitation; `holding` where the rounds
-- given have not ended the wait; `aborted` where the queue refused the new id.
pub data Answer : Type 0 where
  text_result : Text → Bool → Answer
  remote_result : Value → Bool → Answer
  input_required : Text → Text → Text → Answer
  holding : Answer
  aborted : Answer

pub record Request : Type 0 where
  pub name : Text
  pub arguments : Option Fields
  pub client_name : Option Text
  pub supports_url_elicitation : Bool
  pub request_state : Option Text
  pub has_input_responses : Bool

abbrev pub or_empty : Option Fields → Fields
or_empty none = end
or_empty (some fs) = fs

-- `", ".join(names)`.
unfoldable pub join_names : List Text → Text
unfolding join_with
join_names names = join_with (codes ", ") names

-- `url.rstrip("/")`.
unfoldable pub rstrip_slash : Text → Text
rstrip_slash [] = []
rstrip_slash (c ∷ s) =
    let rest = rstrip_slash s in if (c == b'/') && is_nil rest then [] else c ∷ rest

abbrev pub status_of : Bool → ResultStatus
status_of true = ResultStatus.error
status_of false = ok

abbrev pub upstream_part : Option (Text × Text) → Text
upstream_part none = codes "unknown"
upstream_part (some (upstream, tool)) = upstream

abbrev pub unregistered : Decision
unregistered = record {
  action = deny;
  source = Source.default;
  reason = some (codes "tool is not registered");
  rule_index = none;
}

abbrev pub unavailable : Decision → Decision
unavailable decision = record {
  action = deny;
  source = decision.source;
  reason = some (codes "upstream unavailable");
  rule_index = none;
}

abbrev pub note_text : Option Text → Text
note_text none = []
note_text (some []) = []
note_text (some (c ∷ s)) = codes " Note: " ++ (c ∷ s)

abbrev pub denial_text : ApprovalRequest → Text
denial_text a =
    codes "Denied by "
    ++ (or_text a.approver (codes "an approver") ++ (codes "." ++ note_text a.note))

abbrev pub entry_for :
    NamespacedTool
    → PolicyRequest
    → Decision
    → Outcome
    → Option Text
    → Option ApprovalRequest
    → Entry
entry_for entry request decision outcome client approval = record {
  tool = request.tool;
  upstream = entry.upstream;
  arguments = request.arguments;
  decision = decision;
  outcome = outcome;
  client_name = client;
  result_status = some ResultStatus.error;
  approval = approval;
  error = none;
}

abbrev pub outcome_of : ApprovalStatus → Option Outcome → Outcome
outcome_of status (some outcome) = outcome
outcome_of expired none = timed_out
outcome_of _ none = denied_by_approver

abbrev pub message_of : ApprovalRequest → Option Text → Text
message_of a (some message) = message
message_of a none = elim a.status [
  | expired ↦ codes "No approver responded in time, so the call was denied."
  | _ ↦ denial_text a
]

module _ (d : GatewayDeps) (amb : Ambient) where
  unfoldable pub answer_unknown : Text → Fields → Option Text → Gateway → Answer × Gateway
  unfolding record_call split_namespace names join_names
  answer_unknown name arguments client g = (
    text_result
        (codes "Unknown tool "
          ++ (d.repr name
              ++ (codes ". This gatekeeper exposes: "
                  ++ (or_text (some (join_names (names (registry_of d g)))) (codes "none")
                      ++ codes "."))))
        true,
    record_call d amb
        (record {
          tool = name;
          upstream = upstream_part (split_namespace name);
          arguments = arguments;
          decision = unregistered;
          outcome = unknown_tool;
          client_name = client;
          result_status = some ResultStatus.error;
          approval = none;
          error = none;
        })
        g,
  )

  -- What the session makes of the server's answer; the server is taken to answer or to fail.
  abbrev pub reply_of : NamespacedTool → PolicyRequest → Gateway → SessionReply
  reply_of entry request g =
      session_call d.repr entry.upstream entry.remote_name
        (d.respond g.sent (wire entry.upstream entry.remote_name request.arguments))

  abbrev pub after_sending : NamespacedTool → PolicyRequest → Gateway → Gateway
  after_sending entry request g = record g {
    sent = g.sent ++ wire entry.upstream entry.remote_name request.arguments ∷ [];
  }

  unfoldable pub forward :
      NamespacedTool
      → PolicyRequest
      → Decision
      → Option ApprovalRequest
      → Option Text
      → Gateway
      → Answer × Gateway
  unfolding record_call session_call is_connected
  forward entry request decision approval client g =
      let sent_state = after_sending entry request g in
      if is_connected entry.upstream d.connections
      then elim (reply_of entry request g) [
        | upstream_error error ↦ (
          text_result error true,
          record_call d amb
              (record (entry_for entry request decision Outcome.error client approval) {
                error = some error;
              })
              sent_state,
        )
        | result content is_error ↦ (
          remote_result content is_error,
          record_call d amb
              (record (entry_for entry request decision forwarded client approval) {
                result_status = some (status_of is_error);
              })
              sent_state,
        )
      ]
      else (
        text_result (codes "Upstream " ++ (d.repr entry.upstream ++ codes " is not connected."))
            true,
        record_call d amb
            (record (entry_for entry request (unavailable decision) Outcome.error client none) {
              error =
                  some (codes "upstream " ++ (d.repr entry.upstream ++ codes " is not connected"));
            })
            g,
      )

  unfoldable pub refuse :
      NamespacedTool → PolicyRequest → Decision → Option Text → Gateway → Answer × Gateway
  unfolding record_call
  refuse entry request decision client g = (
    text_result
        (codes "Blocked by mcp-gatekeeper: "
          ++ (or_text decision.reason (codes "blocked by policy")
              ++ codes ". This call was not forwarded."))
        true,
    record_call d amb (entry_for entry request decision denied_by_policy client none) g,
  )

  unfoldable pub apply_approval :
      NamespacedTool
      → PolicyRequest
      → Decision
      → Option ApprovalRequest
      → Option Text
      → Option Outcome
      → Option Text
      → Gateway
      → Answer × Gateway
  unfolding record_call forward is_granted
  apply_approval entry request decision none client outcome message g =
      (text_result (codes "Approval request vanished before it was decided.") true, g)
  apply_approval entry request decision (some a) client outcome message g =
      if is_granted a.status then forward entry request decision (some a) client g else (
        text_result (codes "Blocked by mcp-gatekeeper: " ++ message_of a message) true,
        record_call d amb
            (entry_for entry request decision (outcome_of a.status outcome) client (some a)) g,
      )
