-- ===== src/Approvals/Service/Effects.antt =====
-- The writes that the service makes (approvals/service.py).
use mcp_gatekeeper.Prelude.{
  ℕ, ◌+◌, List, [], ◌∷◌, Option, Text, ◌≡◌, refl, inl, inr, Bool-cases, Option-cases,
}
use mcp_gatekeeper.Approvals.{is_expired_at}
use mcp_gatekeeper.Approvals.Store
use mcp_gatekeeper.Approvals.Store.{Table, Verdict, create, resolve, expire_overdue}
use mcp_gatekeeper.Approvals.Store.History.{
  Write, created, resolved, lapsed, Writes, here, next, Writes-trans,
}
use mcp_gatekeeper.Approvals.Service.{
  Service, Call, parked, open_request, decide, dismissal, dismiss, get, timeout_grant,
  settle_timeout, list_pending, Op, opens, decides, dismisses, reads, lists, settles, after_open,
  run_op, run_ops,
}

one : {rows rows' : Table} → Write rows rows' → Writes rows rows'
one w = next here w

module _ (s : Service) where
  open-Writes :
      (id : Text) (now : ℕ) (c : Call)
      → Writes s.store (after_open s (open_request id now c s)).store
  unfolding open_request
  open-Writes id now c = elim (Option-cases (create (parked id now s.timeout c) s.store)) [
    | inl e ↦ rw (e, open_request) here
    | inr (rows, e) ↦ rw (e, open_request) (one (created (parked id now s.timeout c) refl e))
  ]

  pub decide-store : (id : Text) (v : Verdict) → (decide id v s).0.store ≡ (resolve id v s.store).0
  unfolding decide
  decide-store id v = refl

  pub dismiss-store :
      (id : Text) (note : Option Text) (now : ℕ)
      → (dismiss id note now s).0.store ≡ (resolve id (dismissal note now) s.store).0
  unfolding dismiss
  dismiss-store id _ now = refl

  get-Writes : (id : Text) (now delay : ℕ) → Writes s.store (get id now delay s).0.store
  unfolding get
  get-Writes id now delay = elim (Option-cases (Store.get id s.store)) [
    | inl e ↦ rw (e, get) here
    | inr (r, e) ↦ elim (Bool-cases (is_expired_at r now)) [
      | inl h ↦ rw (e, h, get) (one (lapsed (now + delay) refl))
      | inr h ↦ rw (e, h, get) here
    ]
  ]

  settle-Writes : (id : Text) (now : ℕ) → Writes s.store (settle_timeout id now s).0.store
  unfolding settle_timeout
  settle-Writes id now = elim (Bool-cases s.approve_on_timeout) [
    | inl h ↦ rw h (one (resolved id (timeout_grant now) refl))
    | inr h ↦ rw h (one (lapsed now refl))
  ]

  list-Writes : (now : ℕ) → Writes s.store (list_pending now s).0.store
  unfolding list_pending
  list-Writes now = one (lapsed now refl)

pub run_op-Writes : (op : Op) (s : Service) → Writes s.store (run_op op s).store
run_op-Writes (opens id now c) s = unfold run_op in open-Writes s id now c
run_op-Writes (decides id v) s = unfold run_op in one (resolved id v refl)
run_op-Writes (dismisses id remark now) s =
    unfold run_op in one (resolved id (dismissal remark now) refl)
run_op-Writes (reads id now delay) s = unfold run_op in get-Writes s id now delay
run_op-Writes (lists now) s = unfold run_op in list-Writes s now
run_op-Writes (settles id now) s = unfold run_op in settle-Writes s id now

pub run_ops-Writes : (ops : List Op) (s : Service) → Writes s.store (run_ops ops s).store
unfolding run_ops
run_ops-Writes [] s = here
run_ops-Writes (op ∷ ops) s = Writes-trans (run_op-Writes op s) (run_ops-Writes ops (run_op op s))
