-- ===== src/Gateway/Forwarding.antt =====
-- What one call sends to the upstream servers, on whose decision, and what the audit trail holds of
-- it (proxy/gateway.py).
use mcp_gatekeeper.Audit.Redact.{redact_arguments}
use mcp_gatekeeper.Audit.Store.{record_in}
use mcp_gatekeeper.Json.{Fields}
use mcp_gatekeeper.Prelude.{
  ap, ◌∙◌, Bool, true, Option, none, some, Text, ◌≡◌, refl, ◌⊎◌, inl, inr, Option-cases,
}
use mcp_gatekeeper.Policy.{Action, allow, deny, require_approval, Decision, PolicyRequest}
use mcp_gatekeeper.Policy.Engine.{evaluate}
use mcp_gatekeeper.Registry.{NamespacedTool, find}
use mcp_gatekeeper.Approvals.Service.Consent.{granted}
use mcp_gatekeeper.Audit.{AuditEvent, build_event, ResultStatus, denied_by_policy, unknown_tool}
use mcp_gatekeeper.Gateway.{
  GatewayDeps, Gateway, registry_of, Ambient, Entry, event_of, record_call,
}
use mcp_gatekeeper.Gateway.Calls.{
  Request, or_empty, answer_unknown, refuse, unregistered, entry_for, upstream_part,
}
use mcp_gatekeeper.Registry.{split_namespace}
use mcp_gatekeeper.Gateway.Dispatch.{request_for, resumes, by_action, call_tool}
use mcp_gatekeeper.Gateway.Handlers.{may_send, Sends, Recorded, Does, forward-Does}
use mcp_gatekeeper.Gateway.Handlers.Approving.{resume-Does, ask-Does}

-- What has to hold for a call to go out: a resumed call names a granted approval; a new one is
-- allowed by the policy, or the policy asks for approval and the request opened for it is granted.
unfoldable pub Licensed : Ambient → Option Text → Action → Gateway → Type 0
Licensed amb (some id) action g' = granted id g'.approvals.store ≡ true
Licensed amb none allow g' = Unit
Licensed amb none deny g' = ⊥
Licensed amb none require_approval g' = granted amb.approval_id g'.approvals.store ≡ true

module _ (d : GatewayDeps) (amb : Ambient) where
  refuse-Does :
      (entry : NamespacedTool) (request : PolicyRequest) (decision : Decision)
      (client : Option Text) (g : Gateway)
      → Does d amb entry request.tool request.arguments ⊥ g
          (refuse d amb entry request decision client g).1
  unfolding refuse record_call
  refuse-Does entry request decision client g = (
    inl refl,
    inr (entry_for entry request decision denied_by_policy client none, refl, refl, refl, inr refl),
  )

  action-Does :
      (supports : Bool) (entry : NamespacedTool) (request : PolicyRequest) (decision : Decision)
      (client : Option Text) (action : Action) (g : Gateway)
      → let g' = (by_action d amb action entry request decision client supports g).1 in
        Does d amb entry request.tool request.arguments (Licensed amb none action g') g g'
  unfolding Licensed
  action-Does supports entry request decision client allow g =
      (forward-Does d amb entry request decision none client g).1
  action-Does supports entry request decision client deny g =
      refuse-Does entry request decision client g
  action-Does supports entry request decision client require_approval g =
      ask-Does d amb entry request decision client supports g

  -- All that one call of a registered tool does to the audit trail and to what was sent.
  entry-Does :
      (q : Request) (g : Gateway) (entry : NamespacedTool)
      → find q.name (registry_of d g) ≡ some entry
      → let g' = (call_tool d amb q g).1 in
        let action = (evaluate (request_for q entry) d.policy).action in
        Does d amb entry q.name (or_empty q.arguments) (Licensed amb (resumes q) action g') g g'
  unfolding call_tool Licensed
  entry-Does q g entry f =
      let request = request_for q entry in
      let decision = evaluate request d.policy in
      elim (Option-cases (resumes q)) [
        | inl e ↦
            let does =
              action-Does q.supports_url_elicitation entry request decision q.client_name
                decision.action g in
            rw (f, e, call_tool) does
        | inr (id, e) ↦
            let does = resume-Does d amb entry request decision id q.client_name g in
            rw (f, e, call_tool) does
      ]

  -- A call that reaches an upstream server is a call of a registered tool of a connected upstream,
  -- it goes out once, under the server's own name of the tool and with the arguments that came in,
  -- and something vouches for it: where the call resumes an approval, the approval of that id stands
  -- granted in the queue when the call is over; otherwise the policy allows the call, or it asks for
  -- approval and the request that was opened for the call stands granted.
  pub call_tool-sent :
      (q : Request) (g : Gateway)
      → let g' = (call_tool d amb q g).1 in
        (g'.sent ≡ g.sent)
        ⊎ ((entry : NamespacedTool) × (find q.name (registry_of d g) ≡ some entry)
            × Sends d amb entry (or_empty q.arguments) g g'
            × Licensed amb (resumes q) (evaluate (request_for q entry) d.policy).action g')
  unfolding call_tool answer_unknown record_call
  call_tool-sent q g = elim (Option-cases (find q.name (registry_of d g))) [
    | inl f ↦ rw (f, call_tool, answer_unknown, record_call) (inl refl)
    | inr (entry, f) ↦ elim ((entry-Does q g entry f).0) [
      | inl h ↦ inl h
      | inr (h, l) ↦ inr (entry, f, h, l)
    ]
  ]

  pub call-Recorded :
      (q : Request) (g : Gateway)
      → let g' = (call_tool d amb q g).1 in
        ((g'.audit ≡ g.audit) × (g'.sent ≡ g.sent))
        ⊎ Recorded d amb q.name (or_empty q.arguments) g g'
  unfolding call_tool answer_unknown record_call
  call-Recorded q g = elim (Option-cases (find q.name (registry_of d g))) [
    | inl f ↦
        rw (f, call_tool, answer_unknown, record_call)
          (inr (
            record {
              tool = q.name;
              upstream = upstream_part (split_namespace q.name);
              arguments = or_empty q.arguments;
              decision = unregistered;
              outcome = unknown_tool;
              client_name = q.client_name;
              result_status = some ResultStatus.error;
              approval = none;
              error = none;
            },
            refl,
            refl,
            refl,
            inr refl,
          ))
    | inr (entry, f) ↦ (entry-Does q g entry f).1
  ]

  -- What an event of a call holds, as the trail shows it.
  abbrev pub Shows : Text → Fields → AuditEvent → Type 0
  Shows name arguments event =
      (event.tool ≡ name)
      × (event.arguments ≡ redact_arguments arguments d.redact)
      × (event.event_id ≡ amb.event_id)
      × (event.created_at ≡ amb.recorded)

  -- The event that `_record` builds of an entry.
  pub event_of-Shows :
      (e : Entry)
      → Shows e.tool e.arguments (event_of d amb e) × ((event_of d amb e).outcome ≡ e.outcome)
  unfolding build_event
  event_of-Shows e = ((refl, refl, refl, refl), refl)

  -- The same of an entry about a call.
  pub entry-Shows :
      (e : Entry) (name : Text) (arguments : Fields)
      → e.tool ≡ name
      → e.arguments ≡ arguments
      → Shows name arguments (event_of d amb e)
  entry-Shows e name arguments tool same =
      let ((t, r, i, m), o) = event_of-Shows e in
      (t ∙ tool, r ∙ ap (λ fs. redact_arguments fs d.redact) same, i, m)

  -- One call leaves the audit trail as it was and then sends nothing; or it records exactly one event, of
  -- the id and the moment that were drawn for it. The event's tool is the name that was called, its arguments
  -- are those of the call with the configured patterns masked, and where its outcome is neither `forwarded`
  -- nor `error`, nothing was sent.
  pub call_tool-Recorded :
      (q : Request) (g : Gateway)
      → let g' = (call_tool d amb q g).1 in
        ((g'.audit ≡ g.audit) × (g'.sent ≡ g.sent))
        ⊎ ((e : Entry) × (g'.audit ≡ record_in (event_of d amb e) g.audit)
            × Shows q.name (or_empty q.arguments) (event_of d amb e)
            × ((may_send (event_of d amb e).outcome ≡ true) ⊎ (g'.sent ≡ g.sent)))
  call_tool-Recorded q g = elim (call-Recorded q g) [
    | inl h ↦ inl h
    | inr (e, a, tool, arguments, s) ↦ inr (
      e,
      a,
      entry-Shows e q.name (or_empty q.arguments) tool arguments,
      elim s [ inl may ↦ inl (ap may_send ((event_of-Shows e).1) ∙ may) | inr same ↦ inr same ],
    )
  ]
