-- ===== src/Gateway/Handlers.antt =====
-- What the handlers of proxy/gateway.py that send or record a call do to the gateway's state.
pub mod Approving
use mcp_gatekeeper.Prelude.{
  ◌+◌, List, [], ◌∷◌, ◌++◌, Bool, true, false, Option, none, some, Text, ◌≡◌, refl, sym, ap, ◌∙◌,
  arith, ◌⊎◌, codes, if◌then◌else◌, inl, inr, Bool-cases, Option-cases,
}
use mcp_gatekeeper.Json.{Value, Fields}
use mcp_gatekeeper.Audit.{Outcome, forwarded, dismissed_by_client, awaiting_approval, ResultStatus}
use mcp_gatekeeper.Audit.Store.{record_in}
use mcp_gatekeeper.Policy.{Action, allow, deny, require_approval, Decision, PolicyRequest}
use mcp_gatekeeper.Policy.Engine.{evaluate}
use mcp_gatekeeper.Registry.{NamespacedTool, find}
use mcp_gatekeeper.Approvals.{
  ApprovalRequest, ApprovalStatus, pending, approved, denied, expired, is_granted, is_resolved,
}
use mcp_gatekeeper.Approvals.Store
use mcp_gatekeeper.Approvals.Store.{create}
use mcp_gatekeeper.Approvals.Service
use mcp_gatekeeper.Approvals.Service.{
  parked, pop_event, Waited, waiting, returned, open_request, dismiss, wait, run_ops,
}
use mcp_gatekeeper.Approvals.Service.Consent.{granted}
use mcp_gatekeeper.Approvals.Service.Results.{get-Reads, dismiss-Reads, wait-Answers}
use mcp_gatekeeper.Upstream.{wire, is_connected, SessionReply, result, upstream_error}
use mcp_gatekeeper.Gateway.{
  GatewayDeps, Gateway, registry_of, Ambient, Entry, event_of, record_call,
}
use mcp_gatekeeper.Gateway.Calls.{
  Answer, Request, or_empty, answer_unknown, forward, refuse, apply_approval, reply_of, entry_for,
  outcome_of, status_of, unavailable,
}
use mcp_gatekeeper.Gateway.Dispatch.{
  resume, ask_approval, after_wait, request_for, resumes, by_action, call_tool, call_of,
  use_elicitation, first_of_two,
}

granted_row :
    (id : Text) (rows : Store.Table) (a : ApprovalRequest)
    → some a ≡ Store.get id rows
    → is_granted a.status ≡ true
    → granted id rows ≡ true
granted_row id rows a e h = ground (arith, e)

-- The outcomes of a call that may have reached its server.
abbrev pub may_send : Outcome → Bool
may_send forwarded = true
may_send Outcome.error = true
may_send _ = false

pub SessionReply-cases :
    (r : SessionReply)
    → ((error : Text) × (r ≡ upstream_error error))
      ⊎ ((content : Value) × (is_error : Bool) × (r ≡ result content is_error))
SessionReply-cases (upstream_error error) = inl (error, refl)
SessionReply-cases (result content is_error) = inr (content, is_error, refl)

module _ (d : GatewayDeps) (amb : Ambient) where
  -- From the first state to the second, the call was sent to the entry's server once.
  abbrev pub Sends : NamespacedTool → Fields → Gateway → Gateway → Type 0
  Sends entry arguments g g' =
      (is_connected entry.upstream d.connections ≡ true)
      × (g'.sent ≡ g.sent ++ wire entry.upstream entry.remote_name arguments ∷ [])

  -- One event was recorded from the first state to the second, and it is about the call.
  abbrev pub Recorded : Text → Fields → Gateway → Gateway → Type 0
  Recorded name arguments g g' =
      (e : Entry) × (g'.audit ≡ record_in (event_of d amb e) g.audit)
      × (e.tool ≡ name)
      × (e.arguments ≡ arguments)
      × ((may_send e.outcome ≡ true) ⊎ (g'.sent ≡ g.sent))

  -- What a handler does beside the queue: a call is sent only where `Licence` holds, and where
  -- nothing is recorded, nothing is sent.
  abbrev pub Does : NamespacedTool → Text → Fields → Type 0 → Gateway → Gateway → Type 0
  Does entry name arguments Licence g g' =
      ((g'.sent ≡ g.sent) ⊎ (Sends entry arguments g g' × Licence))
      × (((g'.audit ≡ g.audit) × (g'.sent ≡ g.sent)) ⊎ Recorded name arguments g g')

  pub forward-Does :
      (entry : NamespacedTool) (request : PolicyRequest) (decision : Decision)
      (approval : Option ApprovalRequest) (client : Option Text) (g : Gateway)
      → let g' = (forward d amb entry request decision approval client g).1 in
        (g'.approvals ≡ g.approvals) × Does entry request.tool request.arguments Unit g g'
  unfolding forward record_call
  forward-Does entry request decision approval client g =
      elim (Bool-cases (is_connected entry.upstream d.connections)) [
        | inl h ↦ elim (SessionReply-cases (reply_of d amb entry request g)) [
          | inl (error, e) ↦
              rw (h, e, forward, record_call)
                (
                  refl,
                  (
                    inr ((refl, refl), tt),
                    inr (
                      record (entry_for entry request decision Outcome.error client approval) {
                        error = some error;
                      },
                      refl,
                      refl,
                      refl,
                      inl refl,
                    ),
                  ),
                )
          | inr (content, is_error, e) ↦
              rw (h, e, forward, record_call)
                (
                  refl,
                  (
                    inr ((refl, refl), tt),
                    inr (
                      record (entry_for entry request decision forwarded client approval) {
                        result_status = some (status_of is_error);
                      },
                      refl,
                      refl,
                      refl,
                      inl refl,
                    ),
                  ),
                )
        ]
        | inr h ↦
            rw (h, forward, record_call)
              (
                refl,
                (
                  inl refl,
                  inr (
                    record (entry_for entry request (unavailable decision) Outcome.error client
                        none) {
                          error = some (
                              codes "upstream "
                              ++ (d.repr entry.upstream ++ codes " is not connected"));
                        },
                    refl,
                    refl,
                    refl,
                    inl refl,
                  ),
                ),
              )
      ]

  pub licensed :
      {L M : Type 0} (entry : NamespacedTool) (name : Text) (arguments : Fields) (g g' : Gateway)
      → (L → M)
      → Does entry name arguments L g g'
      → Does entry name arguments M g g'
  licensed entry name arguments g g' f (inl h, t) = (inl h, t)
  licensed entry name arguments g g' f (inr (h, l), t) = (inr (h, f l), t)

  pub apply-Does :
      {L : Type 0} (entry : NamespacedTool) (request : PolicyRequest) (decision : Decision)
      (settled : Option ApprovalRequest) (client : Option Text) (outcome : Option Outcome)
      (message : Option Text) (g : Gateway)
      → ((a : ApprovalRequest) → settled ≡ some a → is_granted a.status ≡ true → L)
      → let g' = (apply_approval d amb entry request decision settled client outcome message g).1 in
        (g'.approvals ≡ g.approvals) × Does entry request.tool request.arguments L g g'
  unfolding apply_approval record_call
  apply-Does entry request decision none client outcome message g f =
      (refl, (inl refl, inl (refl, refl)))
  apply-Does entry request decision (some a) client outcome message g f =
      elim (Bool-cases (is_granted a.status)) [
        | inl h ↦
            let (q, does) = forward-Does entry request decision (some a) client g in
            rw (h, apply_approval)
              (
                q,
                licensed entry request.tool request.arguments g
                    ((forward d amb entry request decision (some a) client g).1) (λ _. f a refl h)
                    does,
              )
        | inr h ↦
            rw (h, apply_approval, record_call)
              (
                refl,
                (
                  inl refl,
                  inr (
                    entry_for entry request decision (outcome_of a.status outcome) client (some a),
                    refl,
                    refl,
                    refl,
                    inr refl,
                  ),
                ),
              )
      ]

  pub apply-Vouched :
      (entry : NamespacedTool) (request : PolicyRequest) (decision : Decision)
      (settled : Option ApprovalRequest) (client : Option Text) (outcome : Option Outcome)
      (message : Option Text) (g : Gateway) (id : Text)
      → settled ≡ Store.get id g.approvals.store
      → let g' = (apply_approval d amb entry request decision settled client outcome message g).1 in
        Does entry request.tool request.arguments (granted id g'.approvals.store ≡ true) g g'
  apply-Vouched entry request decision settled client outcome message g id e =
      let (q, does) =
        apply-Does entry request decision settled client outcome message g
          (λ a p h. granted_row id g.approvals.store a (sym p ∙ e) h) in
      licensed entry request.tool request.arguments g
        ((apply_approval d amb entry request decision settled client outcome message g).1)
        (λ h. ap (λ s. granted id s.store) q ∙ h) does
