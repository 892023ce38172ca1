-- ===== src/Gateway/Asking.antt =====
-- When a client is asked to open the approval page, and what it then finds there (proxy/gateway.py).
use mcp_gatekeeper.Prelude.{
  ◌∷◌, ◌++◌, codes, Bool, true, false, Option, none, some, Text, ◌≡◌, refl, sym, ◌∙◌, inl, inr,
  Bool-cases, Option-cases,
}
use mcp_gatekeeper.Policy.{Action, allow, deny, require_approval, Decision, PolicyRequest}
use mcp_gatekeeper.Policy.Engine.{evaluate}
use mcp_gatekeeper.Registry.{NamespacedTool, find}
use mcp_gatekeeper.Approvals.{ApprovalRequest}
use mcp_gatekeeper.Approvals.Store
use mcp_gatekeeper.Approvals.Store.{Table, create}
use mcp_gatekeeper.Approvals.Service
use mcp_gatekeeper.Approvals.Service.{
  Waited, waiting, returned, parked, open_request, pop_event, dismiss, wait, run_ops,
}
use mcp_gatekeeper.Gateway.{GatewayDeps, Gateway, registry_of, Ambient, record_call}
use mcp_gatekeeper.Gateway.Answers.{is_result, forward-is_result, apply-is_result, resume-is_result}
use mcp_gatekeeper.Approvals.Store.History.{get-create}
use mcp_gatekeeper.Gateway.Calls.{
  text_result, remote_result, holding, aborted, Answer, input_required, Request, answer_unknown,
  forward, refuse, rstrip_slash,
}
use mcp_gatekeeper.Gateway.Dispatch.{
  call_of, request_for, resumes, use_elicitation, after_wait, resume, ask_approval, by_action,
  call_tool,
}
use mcp_gatekeeper.Gateway.Handlers.Approving.{some_injective}

-- The request that an answer sends the client to.
abbrev pub asked_for : Answer → Option Text
asked_for (input_required message url id) = some id
asked_for _ = none

-- The address that an answer sends the client to.
abbrev pub page_of : Answer → Option Text
page_of (input_required message url id) = some url
page_of _ = none

-- The approval page of a request, under the interface's address without its trailing slashes.
abbrev pub page : GatewayDeps → Text → Text
page d id = rstrip_slash d.ui_base_url ++ (codes "/approvals/" ++ id)

result-asks : (a : Answer) → is_result a ≡ true → asked_for a ≡ none
result-asks (input_required message url id) h = cc
result-asks (text_result message is_error) h = refl
result-asks (remote_result content is_error) h = refl
result-asks holding h = refl
result-asks aborted h = refl

none-some : {A : Type 0} {x : A} → none ≡ some x → ⊥
none-some p = cc

module _ (d : GatewayDeps) (amb : Ambient) where
  forward-asks :
      (entry : NamespacedTool) (request : PolicyRequest) (decision : Decision)
      (approval : Option ApprovalRequest) (client : Option Text) (g : Gateway)
      → asked_for (forward d amb entry request decision approval client g).0 ≡ none
  forward-asks entry request decision approval client g =
      result-asks (forward d amb entry request decision approval client g).0
        (forward-is_result d amb entry request decision approval client g)

  after-asks :
      (entry : NamespacedTool) (request : PolicyRequest) (decision : Decision)
      (client : Option Text) (g : Gateway) (out : Service.Service × Waited)
      → asked_for (after_wait d amb entry request decision client g out).0 ≡ none
  after-asks entry request decision client g (s, waiting) = refl
  after-asks entry request decision client g (s, returned settled) =
      result-asks (after_wait d amb entry request decision client g (s, returned settled)).0 (
        apply-is_result d amb entry request decision settled client none none
          (record g { approvals = s }))

  -- The state that an elicitation leaves: the request is on file and undecided, nothing was sent.
  abbrev pub Parked :
      NamespacedTool → PolicyRequest → Decision → Option Text → Bool → Gateway → Gateway → Type 0
  Parked entry request decision client supports g g' =
      let row =
        parked amb.approval_id amb.now g.approvals.timeout
          (call_of entry request decision client) in
      (use_elicitation d amb supports ≡ true)
      × (Store.get amb.approval_id g'.approvals.store ≡ some row)
      × (g'.sent ≡ g.sent)

  ask-asks :
      (entry : NamespacedTool) (request : PolicyRequest) (decision : Decision)
      (client : Option Text) (supports : Bool) (g : Gateway) (id : Text)
      → asked_for (ask_approval d amb entry request decision client supports g).0 ≡ some id
      → (id ≡ amb.approval_id)
        × (page_of (ask_approval d amb entry request decision client supports g).0
            ≡ some (page d amb.approval_id))
        × Parked entry request decision client supports g
            (ask_approval d amb entry request decision client supports g).1
  unfolding ask_approval open_request record_call
  ask-asks entry request decision client supports g id a =
      let row =
        parked amb.approval_id amb.now g.approvals.timeout
          (call_of entry request decision client) in
      elim (Option-cases (create row g.approvals.store)) [
        | inl e ↦ absurd (none-some (rw (e, open_request, ask_approval) at a))
        | inr (rows, e) ↦ elim (Bool-cases (use_elicitation d amb supports)) [
          | inl h ↦
              let same = rw (e, h, open_request, ask_approval) at a in
              rw (e, h, open_request, ask_approval, record_call)
                (
                  sym (some_injective same),
                  refl,
                  (refl, get-create row g.approvals.store rows e, refl),
                )
          | inr h ↦
              let queue = record g.approvals {
                store = rows;
                events = (amb.approval_id, false) ∷ pop_event amb.approval_id g.approvals.events;
              } in
              let out = wait amb.approval_id amb.now amb.delay amb.late amb.rounds queue in
              absurd (
                none-some (
                  sym (after-asks entry request decision client g out)
                  ∙ (rw (e, h, open_request, ask_approval) at a)))
        ]
      ]

  action-asks :
      (action : Action) (entry : NamespacedTool) (request : PolicyRequest) (decision : Decision)
      (client : Option Text) (supports : Bool) (g : Gateway) (id : Text)
      → let out = by_action d amb action entry request decision client supports g in
        asked_for out.0 ≡ some id
        → (action ≡ require_approval)
          × (id ≡ amb.approval_id)
          × (page_of out.0 ≡ some (page d amb.approval_id))
          × Parked entry request decision client supports g out.1
  unfolding refuse
  action-asks allow entry request decision client supports g id a =
      absurd (none-some (sym (forward-asks entry request decision none client g) ∙ a))
  action-asks deny entry request decision client supports g id a = absurd (none-some a)
  action-asks require_approval entry request decision client supports g id a =
      let (x, w, y) = ask-asks entry request decision client supports g id a in (refl, x, w, y)

  pub call_tool-elicits :
      (q : Request) (g : Gateway) (id : Text)
      → asked_for (call_tool d amb q g).0 ≡ some id
      → (entry : NamespacedTool) × (find q.name (registry_of d g) ≡ some entry)
        × (resumes q ≡ none)
        × ((evaluate (request_for q entry) d.policy).action ≡ require_approval)
        × (id ≡ amb.approval_id)
        × (page_of (call_tool d amb q g).0 ≡ some (page d amb.approval_id))
        × Parked entry
            (request_for q entry)
            (evaluate (request_for q entry) d.policy)
            q.client_name
            q.supports_url_elicitation
            g
            (call_tool d amb q g).1
  unfolding call_tool answer_unknown
  call_tool-elicits q g id a = elim (Option-cases (find q.name (registry_of d g))) [
    | inl f ↦ absurd (none-some (rw (f, call_tool, answer_unknown) at a))
    | inr (entry, f) ↦
        let request = request_for q entry in
        let decision = evaluate request d.policy in
        elim (Option-cases (resumes q)) [
          | inl e ↦
              let (x, y, w, z) =
                action-asks decision.action entry request decision q.client_name
                  q.supports_url_elicitation g id (rw (f, e, call_tool) at a) in
              rw (f, e, call_tool) (entry, refl, refl, x, y, w, z)
          | inr (state, e) ↦ absurd (
              none-some (
                sym (
                  result-asks (resume d amb entry request decision state q.client_name g).0
                    (resume-is_result d amb entry request decision state q.client_name g))
                ∙ (rw (f, e, call_tool) at a)))
        ]
  ]
