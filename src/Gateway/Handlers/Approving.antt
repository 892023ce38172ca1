-- ===== src/Gateway/Handlers/Approving.antt =====
-- The handlers of proxy/gateway.py that wait for an approval or resume after one.
use mcp_gatekeeper.Prelude.{
  ◌+◌, ◌∷◌, Bool, true, false, Option, none, some, Text, ◌≡◌, refl, sym, ◌∙◌, arith, codes, inl,
  inr, Bool-cases, Option-cases,
}
use mcp_gatekeeper.Audit.{dismissed_by_client, awaiting_approval}
use mcp_gatekeeper.Policy.{Decision, PolicyRequest}
use mcp_gatekeeper.Registry.{NamespacedTool}
use mcp_gatekeeper.Approvals.{
  ApprovalRequest, ApprovalStatus, pending, approved, denied, expired, is_granted, is_resolved,
}
use mcp_gatekeeper.Approvals.Store.{create}
use mcp_gatekeeper.Approvals.Service
use mcp_gatekeeper.Approvals.Service.{
  parked, pop_event, Waited, waiting, returned, open_request, dismiss, wait, run_ops,
}
use mcp_gatekeeper.Approvals.Service.Consent.{granted}
use mcp_gatekeeper.Approvals.Service.Results.{get-Reads, dismiss-Reads, wait-Answers}
use mcp_gatekeeper.Gateway.{GatewayDeps, Gateway, Ambient, record_call}
use mcp_gatekeeper.Gateway.Calls.{apply_approval, entry_for}
use mcp_gatekeeper.Gateway.Dispatch.{
  resume, ask_approval, after_wait, call_of, use_elicitation, first_of_two,
}
use mcp_gatekeeper.Gateway.Handlers.{Does, licensed, apply-Does, apply-Vouched}

pub some_injective : {A : Type 0} {r a : A} → some r ≡ some a → r ≡ a
some_injective p = cc

ungranted :
    (r a : ApprovalRequest) → is_resolved r.status ≡ false → r ≡ a → is_granted a.status ≡ true → ⊥
unfolding is_resolved is_granted
ungranted r a h p k = go r.status h (rw (sym p) at k)
  where
    go : (s : ApprovalStatus) → is_resolved s ≡ false → is_granted s ≡ true → ⊥
    go pending h k = ground arith
    go approved h k = ground arith
    go denied h k = ground arith
    go expired h k = ground arith

abbrev pub unanswered : Text
unanswered =
    codes
      "No approver decided this request; the call was not forwarded. Approve it in the gatekeeper UI and try again."

module _ (d : GatewayDeps) (amb : Ambient) where
  -- A retry that no decision was on file for.
  late-Does :
      (entry : NamespacedTool) (request : PolicyRequest) (decision : Decision) (id : Text)
      (client : Option Text) (r : ApprovalRequest)
      → is_resolved r.status ≡ false
      → (s : Service.Service) (g : Gateway)
      → let (queue, dismissed) =
          dismiss id
            (some (codes "client retried with no decision on file"))
            (amb.now + amb.delay)
            s in
        let g' =
          (apply_approval d amb entry request decision
            (some (first_of_two dismissed r))
            client
            (some dismissed_by_client)
            (some unanswered)
            (record g { approvals = queue })).1 in
        Does d amb entry request.tool request.arguments (granted id g'.approvals.store ≡ true) g g'
  late-Does entry request decision id client r h s g =
      let remark = codes "client retried with no decision on file" in
      let out = dismiss id (some remark) (amb.now + amb.delay) s in
      let g' = record g { approvals = out.0 } in
      let reads = dismiss-Reads id (some remark) (amb.now + amb.delay) s in
      elim (Option-cases out.1) [
        | inl e ↦
            let (q, does) =
              apply-Does d amb {L = ⊥} entry request decision (some r) client
                (some dismissed_by_client) (some unanswered) g'
                (λ a p k. ungranted r a h (some_injective p) k) in
            let after =
              (apply_approval d amb entry request decision (some r) client
                (some dismissed_by_client) (some unanswered) g').1 in
            let done =
              licensed d amb entry request.tool request.arguments g after
                (λ c. absurd {A = granted id after.approvals.store ≡ true} c) does in
            rw e done
        | inr (x, e) ↦
            let does =
              apply-Vouched d amb entry request decision (some x) client (some dismissed_by_client)
                (some unanswered) g' id (sym e ∙ reads) in
            rw e does
      ]

  pub resume-Does :
      (entry : NamespacedTool) (request : PolicyRequest) (decision : Decision) (id : Text)
      (client : Option Text) (g : Gateway)
      → let g' = (resume d amb entry request decision id client g).1 in
        Does d amb entry request.tool request.arguments (granted id g'.approvals.store ≡ true) g g'
  unfolding resume
  resume-Does entry request decision id client g =
      let s = (Service.get id amb.now amb.delay g.approvals).0 in
      let reads = get-Reads id amb.now amb.delay g.approvals in
      elim (Option-cases ((Service.get id amb.now amb.delay g.approvals).1)) [
        | inl e ↦ rw (e, resume) (inl refl, inl (refl, refl))
        | inr (r, e) ↦ elim (Bool-cases (is_resolved r.status)) [
          | inl h ↦
              let does =
                apply-Vouched d amb entry request decision (some r) client none none
                  (record g { approvals = s }) id (sym e ∙ reads) in
              rw (e, h, resume) does
          | inr h ↦
              let does = late-Does entry request decision id client r h (run_ops amb.between s) g in
              rw (e, h, resume) does
        ]
      ]

  after-Does :
      (entry : NamespacedTool) (request : PolicyRequest) (decision : Decision) (id : Text)
      (client : Option Text) (g : Gateway) (queue : Service.Service)
      → let out = wait id amb.now amb.delay amb.late amb.rounds queue in
        let g' = (after_wait d amb entry request decision client g out).1 in
        Does d amb entry request.tool request.arguments (granted id g'.approvals.store ≡ true) g g'
  after-Does entry request decision id client g queue =
      go (wait id amb.now amb.delay amb.late amb.rounds queue)
        (wait-Answers id amb.now amb.delay amb.late amb.rounds queue)
    where
      go :
          (out : Service.Service × Waited)
          → Service.Results.Answers id out
          → let g' = (after_wait d amb entry request decision client g out).1 in
            Does d amb entry request.tool request.arguments
              (granted id g'.approvals.store ≡ true)
              g
              g'
      go (s, waiting) reads = (inl refl, inl (refl, refl))
      go (s, returned settled) reads =
          apply-Vouched d amb entry request decision settled client none none
            (record g { approvals = s }) id (reads settled refl)

  pub ask-Does :
      (entry : NamespacedTool) (request : PolicyRequest) (decision : Decision)
      (client : Option Text) (supports : Bool) (g : Gateway)
      → let g' = (ask_approval d amb entry request decision client supports g).1 in
        Does d amb entry request.tool request.arguments
          (granted amb.approval_id g'.approvals.store ≡ true)
          g
          g'
  unfolding ask_approval record_call open_request
  ask-Does entry request decision client supports g =
      let row =
        parked amb.approval_id amb.now g.approvals.timeout
          (call_of entry request decision client) in
      elim (Option-cases (create row g.approvals.store)) [
        | inl e ↦ rw (e, open_request, ask_approval) (inl refl, inl (refl, refl))
        | inr (rows, e) ↦
            let queue = record g.approvals {
              store = rows;
              events = (amb.approval_id, false) ∷ pop_event amb.approval_id g.approvals.events;
            } in
            elim (Bool-cases (use_elicitation d amb supports)) [
              | inl h ↦
                  rw (e, h, open_request, ask_approval, record_call)
                    (
                      inl refl,
                      inr (
                        record (entry_for entry request decision awaiting_approval client
                            (some row)) { result_status = none },
                        refl,
                        refl,
                        refl,
                        inr refl,
                      ),
                    )
              | inr h ↦
                  let does = after-Does entry request decision amb.approval_id client g queue in
                  rw (e, h, open_request, ask_approval) does
            ]
      ]
