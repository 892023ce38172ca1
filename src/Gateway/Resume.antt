-- ===== src/Gateway/Resume.antt =====
-- `_resume` of proxy/gateway.py: what a retried call needs to go out, and what it does not need.
use mcp_gatekeeper.Prelude.{
  ℕ, ◌+◌, true, false, Option, none, some, Text, codes, any, ◌≡◌, refl, sym, ap, ◌∙◌, arith, inl,
  inr, Bool-cases, Option-cases,
}
use mcp_gatekeeper.Policy.{Decision, PolicyRequest}
use mcp_gatekeeper.Policy.Engine.{evaluate}
use mcp_gatekeeper.Registry.{NamespacedTool, find}
use mcp_gatekeeper.Approvals.{
  ApprovalRequest, is_granted, is_resolved, is_expired_at, ApprovalStatus, pending, approved,
  denied, expired,
}
use mcp_gatekeeper.Approvals.Store
use mcp_gatekeeper.Approvals.Service
use mcp_gatekeeper.Approvals.Service.{dismissal, dismiss, run_ops}
use mcp_gatekeeper.Approvals.Service.Consent.{
  granted, consents, granted-resolve, get-Kept, run_ops-Kept,
}
use mcp_gatekeeper.Audit.{Outcome, dismissed_by_client}
use mcp_gatekeeper.Gateway.Handlers.Approving.{unanswered}
use mcp_gatekeeper.Gateway.{GatewayDeps, Gateway, registry_of, Ambient, record_call}
use mcp_gatekeeper.Gateway.Calls.{Request, or_empty, forward, apply_approval, reply_of}
use mcp_gatekeeper.Gateway.Dispatch.{request_for, resumes, resume, call_tool, first_of_two}
use mcp_gatekeeper.Gateway.Handlers.{Sends, SessionReply-cases, apply-Does}
use mcp_gatekeeper.Gateway.Forwarding.{Licensed, call_tool-sent}
use mcp_gatekeeper.Upstream.{is_connected}

settled_by_grant :
    (r : ApprovalRequest) (now : ℕ)
    → is_granted r.status ≡ true
    → (is_resolved r.status ≡ true) × (is_expired_at r now ≡ false)
unfolding is_granted is_resolved is_expired_at
settled_by_grant r now h = go r.status refl h
  where
    go :
        (s : ApprovalStatus)
        → r.status ≡ s
        → is_granted s ≡ true
        → (is_resolved r.status ≡ true) × (is_expired_at r now ≡ false)
    go pending e k = ground arith
    go approved e k = rw (e, is_resolved, is_expired_at) (refl, refl)
    go denied e k = ground arith
    go expired e k = ground arith

read_granted :
    (id : Text) (now delay : ℕ) (s : Service.Service) (r : ApprovalRequest)
    → Store.get id s.store ≡ some r
    → is_expired_at r now ≡ false
    → ((Service.get id now delay s).0 ≡ s) × ((Service.get id now delay s).1 ≡ some r)
unfolding Service.get
read_granted id now delay s r o h = rw (o, h, Service.get) (refl, refl)

module _ (d : GatewayDeps) (amb : Ambient) where
  pub apply-approvals :
      (entry : NamespacedTool) (request : PolicyRequest) (decision : Decision)
      (settled : Option ApprovalRequest) (client : Option Text) (outcome : Option Outcome)
      (message : Option Text) (g : Gateway)
      → (apply_approval d amb entry request decision settled client outcome message g).1.approvals
        ≡ g.approvals
  apply-approvals entry request decision settled client outcome message g =
      (apply-Does d amb {L = Unit} entry request decision settled client outcome message g
        (λ _ _ _. tt)).0

  resume-granted :
      (entry : NamespacedTool) (request : PolicyRequest) (decision : Decision) (id : Text)
      (client : Option Text) (g : Gateway)
      → g.approvals.approve_on_timeout ≡ false
      → any (consents id) amb.between ≡ false
      → granted id (resume d amb entry request decision id client g).1.approvals.store
        ≡ granted id g.approvals.store
  unfolding resume dismiss
  resume-granted entry request decision id client g h k =
      let s = (Service.get id amb.now amb.delay g.approvals).0 in
      let (kept, auto) = get-Kept id id amb.now amb.delay g.approvals in
      let (kept', _) = run_ops-Kept id amb.between s (auto ∙ h) k in
      let remark = some (codes "client retried with no decision on file") in
      let s' = run_ops amb.between s in
      let out = dismiss id remark (amb.now + amb.delay) s' in
      elim (Option-cases ((Service.get id amb.now amb.delay g.approvals).1)) [
        | inl e ↦ rw (e, resume) kept
        | inr (r, e) ↦ elim (Bool-cases (is_resolved r.status)) [
          | inl q ↦
              let same =
                apply-approvals entry request decision (some r) client none none
                  (record g { approvals = s }) in
              rw (e, q, resume) (ap (λ x. granted id x.store) same ∙ kept)
          | inr q ↦
              let same =
                apply-approvals entry request decision (some (first_of_two out.1 r)) client
                  (some dismissed_by_client) (some unanswered) (record g { approvals = out.0 }) in
              rw (e, q, resume)
                (ap (λ x. granted id x.store) same
                  ∙ (granted-resolve id id (dismissal remark (amb.now + amb.delay)) s'.store
                        (ground arith)
                      ∙ (kept' ∙ kept)))
        ]
      ]

  -- A retry with the id of a request that is not approved, or with an id that is not on file, sends
  -- nothing, where time-outs are denials and nobody approves the request before the retry is settled.
  pub resume-pending :
      (q : Request) (g : Gateway) (id : Text)
      → resumes q ≡ some id
      → g.approvals.approve_on_timeout ≡ false
      → granted id g.approvals.store ≡ false
      → any (consents id) amb.between ≡ false
      → (call_tool d amb q g).1.sent ≡ g.sent
  unfolding call_tool Licensed
  resume-pending q g id e h n k = elim (call_tool-sent d amb q g) [
    | inl same ↦ same
    | inr (entry, f, sends, vouched) ↦
        let request = request_for q entry in
        let kept =
          resume-granted entry request (evaluate request d.policy) id q.client_name g h k in
        absurd (true_false (sym (rw (f, e, call_tool) at vouched) ∙ (kept ∙ n)))
  ]
    where
      true_false : true ≡ false → ⊥
      true_false p = cc

  forward-connected :
      (entry : NamespacedTool) (request : PolicyRequest) (decision : Decision)
      (approval : Option ApprovalRequest) (client : Option Text) (g : Gateway)
      → is_connected entry.upstream d.connections ≡ true
      → let g' = (forward d amb entry request decision approval client g).1 in
        (g'.approvals ≡ g.approvals) × Sends d amb entry request.arguments g g'
  unfolding forward record_call
  forward-connected entry request decision approval client g h =
      elim (SessionReply-cases (reply_of d amb entry request g)) [
        | inl (error, e) ↦ rw (h, e, forward, record_call) (refl, (refl, refl))
        | inr (content, is_error, e) ↦ rw (h, e, forward, record_call) (refl, (refl, refl))
      ]

  -- A retry with the id of an approved request, made of any registered tool of a connected upstream,
  -- is forwarded, and the queue stays as it is: whatever the policy decides on the call, and whichever
  -- tool and arguments the approval was given for.
  pub resume-forwards :
      (q : Request) (g : Gateway) (id : Text) (r : ApprovalRequest) (entry : NamespacedTool)
      → resumes q ≡ some id
      → Store.get id g.approvals.store ≡ some r
      → is_granted r.status ≡ true
      → find q.name (registry_of d g) ≡ some entry
      → is_connected entry.upstream d.connections ≡ true
      → let g' = (call_tool d amb q g).1 in
        (g'.approvals ≡ g.approvals) × Sends d amb entry (or_empty q.arguments) g g'
  unfolding call_tool resume apply_approval
  resume-forwards q g id r entry e o h f c =
      let (resolved, fresh) = settled_by_grant r amb.now h in
      let (queue, found) = read_granted id amb.now amb.delay g.approvals r o fresh in
      let request = request_for q entry in
      let g' = record g { approvals = (Service.get id amb.now amb.delay g.approvals).0 } in
      let (same, sends) =
        forward-connected entry request (evaluate request d.policy) (some r) q.client_name g' c in
      rw (f, e, call_tool) (rw (found, resolved, h, resume) (same ∙ queue, sends))
