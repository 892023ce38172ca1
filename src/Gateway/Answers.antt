-- ===== src/Gateway/Answers.antt =====
-- Which handlers of proxy/gateway.py end a call with a tool result.
use mcp_gatekeeper.Prelude.{
  ◌+◌, Bool, true, false, Option, none, some, Text, codes, ◌≡◌, refl, inl, inr, Bool-cases,
  Option-cases,
}
use mcp_gatekeeper.Policy.{Decision, PolicyRequest}
use mcp_gatekeeper.Registry.{NamespacedTool}
use mcp_gatekeeper.Approvals.{ApprovalRequest, is_granted, is_resolved}
use mcp_gatekeeper.Approvals.Service
use mcp_gatekeeper.Approvals.Service.{
  Waited, waiting, returned, parked, open_request, pop_event, dismiss, wait, run_ops,
}
use mcp_gatekeeper.Audit.{Outcome, dismissed_by_client}
use mcp_gatekeeper.Upstream.{is_connected}
use mcp_gatekeeper.Gateway.{GatewayDeps, Gateway, Ambient}
use mcp_gatekeeper.Gateway.Calls.{
  text_result, remote_result, Answer, forward, apply_approval, reply_of,
}
use mcp_gatekeeper.Gateway.Dispatch.{resume, first_of_two}
use mcp_gatekeeper.Gateway.Handlers.{SessionReply-cases}
use mcp_gatekeeper.Gateway.Handlers.Approving.{unanswered}

-- A tool result, of the gateway's own or of an upstream.
abbrev pub is_result : Answer → Bool
is_result (text_result message is_error) = true
is_result (remote_result content is_error) = true
is_result _ = false

module _ (d : GatewayDeps) (amb : Ambient) where
  pub forward-is_result :
      (entry : NamespacedTool) (request : PolicyRequest) (decision : Decision)
      (approval : Option ApprovalRequest) (client : Option Text) (g : Gateway)
      → is_result (forward d amb entry request decision approval client g).0 ≡ true
  unfolding forward
  forward-is_result entry request decision approval client g =
      elim (Bool-cases (is_connected entry.upstream d.connections)) [
        | inl h ↦ elim (SessionReply-cases (reply_of d amb entry request g)) [
          | inl (error, e) ↦ rw (h, e, forward) refl
          | inr (content, is_error, e) ↦ rw (h, e, forward) refl
        ]
        | inr h ↦ rw (h, forward) refl
      ]

  pub apply-is_result :
      (entry : NamespacedTool) (request : PolicyRequest) (decision : Decision)
      (settled : Option ApprovalRequest) (client : Option Text) (outcome : Option Outcome)
      (message : Option Text) (g : Gateway)
      → is_result (apply_approval d amb entry request decision settled client outcome message g).0
        ≡ true
  unfolding apply_approval
  apply-is_result entry request decision none client outcome message g = refl
  apply-is_result entry request decision (some a) client outcome message g =
      elim (Bool-cases (is_granted a.status)) [
        | inl h ↦
            rw (h, apply_approval) (forward-is_result entry request decision (some a) client g)
        | inr h ↦ rw (h, apply_approval) refl
      ]

  pub resume-is_result :
      (entry : NamespacedTool) (request : PolicyRequest) (decision : Decision) (id : Text)
      (client : Option Text) (g : Gateway)
      → is_result (resume d amb entry request decision id client g).0 ≡ true
  unfolding resume
  resume-is_result entry request decision id client g =
      let s = (Service.get id amb.now amb.delay g.approvals).0 in
      let out =
        dismiss id (some (codes "client retried with no decision on file")) (amb.now + amb.delay)
          (run_ops amb.between s) in
      elim (Option-cases ((Service.get id amb.now amb.delay g.approvals).1)) [
        | inl e ↦ rw (e, resume) refl
        | inr (r, e) ↦ elim (Bool-cases (is_resolved r.status)) [
          | inl h ↦
              rw (e, h, resume)
                (apply-is_result entry request decision (some r) client none none
                  (record g { approvals = s }))
          | inr h ↦
              rw (e, h, resume)
                (apply-is_result entry request decision (some (first_of_two out.1 r)) client
                  (some dismissed_by_client) (some unanswered) (record g { approvals = out.0 }))
        ]
      ]
