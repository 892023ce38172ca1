-- ===== src/Gateway/Queueing.antt =====
-- What one call does to the queue: calls of the approval service only (proxy/gateway.py).
use mcp_gatekeeper.Prelude.{
  ◌+◌, List, ◌∷◌, ◌++◌, Bool, true, false, Option, none, some, Text, codes, ◌≡◌, refl, all, inl,
  inr, all_append, Bool-cases, Option-cases,
}
use mcp_gatekeeper.Policy.{Action, allow, deny, require_approval, Decision, PolicyRequest}
use mcp_gatekeeper.Policy.Engine.{evaluate}
use mcp_gatekeeper.Registry.{NamespacedTool, find}
use mcp_gatekeeper.Approvals.{is_resolved}
use mcp_gatekeeper.Approvals.Store.{create}
use mcp_gatekeeper.Approvals.Service
use mcp_gatekeeper.Approvals.Service.{
  Op, opens, dismisses, reads, run_op, run_ops, Waited, waiting, returned, open_request, parked,
  pop_event, dismiss, wait,
}
use mcp_gatekeeper.Approvals.Service.Acts.{
  decides_one, Acts, rests, others, Acts-trans, act, run_ops-Acts, wait-Acts,
}
use mcp_gatekeeper.Audit.{dismissed_by_client}
use mcp_gatekeeper.Gateway.{GatewayDeps, Gateway, registry_of, Ambient, record_call}
use mcp_gatekeeper.Gateway.Calls.{Request, answer_unknown, refuse}
use mcp_gatekeeper.Gateway.Dispatch.{
  resume, ask_approval, after_wait, call_of, use_elicitation, first_of_two, request_for, resumes,
  by_action, call_tool,
}
use mcp_gatekeeper.Gateway.Handlers.{forward-Does}
use mcp_gatekeeper.Gateway.Handlers.Approving.{unanswered}
use mcp_gatekeeper.Gateway.Resume.{apply-approvals}

-- What the other tasks do to the queue while the call runs.
abbrev pub meanwhile : Ambient → List Op
meanwhile amb = amb.between ++ (amb.late ++ others amb.rounds)

-- From the first state to the second, the queue changed by calls for which the test holds.
abbrev Moves : (Op → Bool) → Gateway → Gateway → Type 0
Moves test g g' = Acts test g.approvals g'.approvals

module _ (test : Op → Bool) (own : (op : Op) → decides_one op ≡ false → test op ≡ true)
    (d : GatewayDeps) (amb : Ambient) (calm : all test (meanwhile amb) ≡ true) where
  resume-Moves :
      (entry : NamespacedTool) (request : PolicyRequest) (decision : Decision) (id : Text)
      (client : Option Text) (g : Gateway)
      → Moves test g (resume d amb entry request decision id client g).1
  unfolding resume run_op
  resume-Moves entry request decision id client g =
      let s = (Service.get id amb.now amb.delay g.approvals).0 in
      let read =
        act test (reads id amb.now amb.delay) (own (reads id amb.now amb.delay) refl) refl in
      let remark = some (codes "client retried with no decision on file") in
      let out = dismiss id remark (amb.now + amb.delay) (run_ops amb.between s) in
      let ends = dismisses id remark (amb.now + amb.delay) in
      let dismissed = Acts-trans test read (
        Acts-trans test
          (run_ops-Acts test amb.between s
            ((all_append test amb.between (amb.late ++ others amb.rounds) calm).0))
          (act test ends (own ends refl) refl)) in
      elim (Option-cases ((Service.get id amb.now amb.delay g.approvals).1)) [
        | inl e ↦ rw (e, resume) read
        | inr (r, e) ↦ elim (Bool-cases (is_resolved r.status)) [
          | inl q ↦
              let same =
                apply-approvals d amb entry request decision (some r) client none none
                  (record g { approvals = s }) in
              rw (e, q, resume) (rw same read)
          | inr q ↦
              let same =
                apply-approvals d amb entry request decision (some (first_of_two out.1 r)) client
                  (some dismissed_by_client) (some unanswered) (record g { approvals = out.0 }) in
              rw (e, q, resume) (rw same dismissed)
        ]
      ]

  after-approvals :
      (entry : NamespacedTool) (request : PolicyRequest) (decision : Decision)
      (client : Option Text) (g : Gateway) (out : Service.Service × Waited)
      → (after_wait d amb entry request decision client g out).1.approvals ≡ out.0
  after-approvals entry request decision client g (s, waiting) = refl
  after-approvals entry request decision client g (s, returned settled) =
      apply-approvals d amb entry request decision settled client none none
        (record g { approvals = s })

  ask-Moves :
      (entry : NamespacedTool) (request : PolicyRequest) (decision : Decision)
      (client : Option Text) (supports : Bool) (g : Gateway)
      → Moves test g (ask_approval d amb entry request decision client supports g).1
  unfolding ask_approval open_request record_call
  ask-Moves entry request decision client supports g =
      let call = call_of entry request decision client in
      let row = parked amb.approval_id amb.now g.approvals.timeout call in
      let opening = opens amb.approval_id amb.now call in
      let (_, later) = all_append test amb.between (amb.late ++ others amb.rounds) calm in
      let (late, rounds) = all_append test amb.late (others amb.rounds) later in
      elim (Option-cases (create row g.approvals.store)) [
        | inl e ↦ rw (e, open_request, ask_approval) rests
        | inr (rows, e) ↦
            let queue = record g.approvals {
              store = rows;
              events = (amb.approval_id, false) ∷ pop_event amb.approval_id g.approvals.events;
            } in
            let opened : Acts test g.approvals queue =
              act test opening (own opening refl)
                (unfold run_op open_request in rw (e, open_request) refl) in
            elim (Bool-cases (use_elicitation d amb supports)) [
              | inl h ↦ rw (e, h, open_request, ask_approval, record_call) opened
              | inr h ↦
                  let out = wait amb.approval_id amb.now amb.delay amb.late amb.rounds queue in
                  let waited =
                    wait-Acts test own amb.approval_id amb.now amb.delay amb.late amb.rounds queue
                      late rounds in
                  rw (e, h, open_request, ask_approval)
                    (rw (after-approvals entry request decision client g out)
                      (Acts-trans test opened waited))
            ]
      ]

  action-Moves :
      (action : Action) (entry : NamespacedTool) (request : PolicyRequest) (decision : Decision)
      (client : Option Text) (supports : Bool) (g : Gateway)
      → Moves test g (by_action d amb action entry request decision client supports g).1
  unfolding refuse record_call
  action-Moves allow entry request decision client supports g =
      rw ((forward-Does d amb entry request decision none client g).0) rests
  action-Moves deny entry request decision client supports g = rests
  action-Moves require_approval entry request decision client supports g =
      ask-Moves entry request decision client supports g

  -- Whatever a call does to the queue, on every branch, it does by calls of the service: those of the
  -- other tasks in the meantime, and its own, of which none is a decision.
  pub call_tool-Acts :
      (q : Request) (g : Gateway) → Acts test g.approvals (call_tool d amb q g).1.approvals
  unfolding call_tool answer_unknown record_call
  call_tool-Acts q g = elim (Option-cases (find q.name (registry_of d g))) [
    | inl f ↦ rw (f, call_tool, answer_unknown, record_call) rests
    | inr (entry, f) ↦
        let request = request_for q entry in
        let decision = evaluate request d.policy in
        elim (Option-cases (resumes q)) [
          | inl e ↦
              let moves =
                action-Moves decision.action entry request decision q.client_name
                  q.supports_url_elicitation g in
              rw (f, e, call_tool) moves
          | inr (id, e) ↦
              let moves = resume-Moves entry request decision id q.client_name g in
              rw (f, e, call_tool) moves
        ]
  ]
