-- ===== src/Approvals/Service/Consent.antt =====
-- Who has to act for a request to be granted (approvals/service.py).
use mcp_gatekeeper.Prelude.{
  ℕ, ◌+◌, List, [], ◌∷◌, ◌++◌, Bool, true, false, ◌&&◌, Option, none, some, leb, Text, text_eq, ◌≡◌,
  refl, sym, ◌∙◌, inl, inr, Bool-cases, Option-cases, arith, any,
}
use mcp_gatekeeper.Approvals.{is_pending, is_resolved, is_granted, is_expired_at, ApprovalRequest}
use mcp_gatekeeper.Approvals.Store
use mcp_gatekeeper.Approvals.Store.{Table, Verdict, create, resolve, expire_overdue}
use mcp_gatekeeper.Approvals.Store.Rows.{get-resolve, get-expire}
use mcp_gatekeeper.Approvals.Store.History.{create_inv}
use mcp_gatekeeper.Approvals.Service.{
  Round, returned, late_settle, wait_loop, wait, default_event, Service, Call, parked, open_request,
  dismissal, get, settle_timeout, list_pending, Op, opens, decides, dismisses, reads, lists,
  settles, after_open, run_op, run_ops,
}

-- Whether the row of the id is there and approved.
abbrev pub granted : Text → Table → Bool
granted id rows = elim (Store.get id rows) [ none ↦ false | some r ↦ is_granted r.status ]

-- A caller that approves the request of the id.
abbrev pub consents : Text → Op → Bool
consents id (decides j v) = text_eq j id && v.granted
consents id _ = false

none_returned : {r : ApprovalRequest} → returned none ≡ returned (some r) → ⊥
none_returned e = cc

returned_row : {x r : ApprovalRequest} → returned (some x) ≡ returned (some r) → x ≡ r
returned_row e = cc

module _ (id : Text) where
  pub granted-resolve :
      (j : Text) (v : Verdict) (rows : Table)
      → (text_eq j id && v.granted) ≡ false
      → granted id (resolve j v rows).0 ≡ granted id rows
  unfolding is_granted
  granted-resolve j v rows h = ground (arith, (get-resolve j id v rows).0)

  granted-expire :
      (now : ℕ) (rows : Table) → granted id (expire_overdue now rows).0 ≡ granted id rows
  unfolding is_granted
  granted-expire now rows = ground (arith, get-expire now id rows)

  granted-insert :
      (x : ApprovalRequest) (rows : Table)
      → is_pending x.status ≡ true
      → granted id (rows ++ x ∷ []) ≡ granted id rows
  unfolding Store.get is_granted
  granted-insert x [] h = ground arith
  granted-insert x (r ∷ rows) h = ground (arith, granted-insert x rows)

  -- What one call of another task leaves as it was, where time-outs grant nothing.
  abbrev pub Kept : Service → Service → Type 0
  Kept s s' =
      (granted id s'.store ≡ granted id s.store) × (s'.approve_on_timeout ≡ s.approve_on_timeout)

  open-Kept :
      (i : Text) (now : ℕ) (c : Call) (s : Service) → Kept s (after_open s (open_request i now c s))
  unfolding open_request
  open-Kept i now c s = elim (Option-cases (create (parked i now s.timeout c) s.store)) [
    | inl e ↦ rw (e, open_request) (refl, refl)
    | inr (rows, e) ↦
        rw (e, open_request)
          (
            rw ((create_inv (parked i now s.timeout c) s.store rows e).1)
                (granted-insert (parked i now s.timeout c) s.store refl),
            refl,
          )
  ]

  pub get-Kept : (i : Text) (now delay : ℕ) (s : Service) → Kept s (get i now delay s).0
  unfolding get
  get-Kept i now delay s = elim (Option-cases (Store.get i s.store)) [
    | inl e ↦ rw (e, get) (refl, refl)
    | inr (r, e) ↦ elim (Bool-cases (is_expired_at r now)) [
      | inl h ↦ rw (e, h, get) (granted-expire (now + delay) s.store, refl)
      | inr h ↦ rw (e, h, get) (refl, refl)
    ]
  ]

  settle-Kept :
      (i : Text) (now : ℕ) (s : Service)
      → s.approve_on_timeout ≡ false
      → Kept s (settle_timeout i now s).0
  unfolding settle_timeout
  settle-Kept i now s h = rw h (granted-expire now s.store, refl)

  pub run_op-Kept :
      (op : Op) (s : Service)
      → s.approve_on_timeout ≡ false
      → consents id op ≡ false
      → Kept s (run_op op s)
  run_op-Kept (opens i now c) s h k = unfold run_op in open-Kept i now c s
  run_op-Kept (decides i v) s h k = unfold run_op in (granted-resolve i v s.store k, refl)
  run_op-Kept (dismisses i remark now) s h k =
      unfold run_op in (granted-resolve i (dismissal remark now) s.store (ground arith), refl)
  run_op-Kept (reads i now delay) s h k = unfold run_op in get-Kept i now delay s
  run_op-Kept (lists now) s h k = unfold run_op list_pending in (granted-expire now s.store, refl)
  run_op-Kept (settles i now) s h k = unfold run_op in settle-Kept i now s h

  pub run_ops-Kept :
      (ops : List Op) (s : Service)
      → s.approve_on_timeout ≡ false
      → any (consents id) ops ≡ false
      → Kept s (run_ops ops s)
  unfolding run_ops
  run_ops-Kept [] s h k = (refl, refl)
  run_ops-Kept (op ∷ ops) s h k =
      let (g, a) = run_op-Kept op s h (ground arith) in
      let (g', a') = run_ops-Kept ops (run_op op s) (a ∙ h) (ground arith) in (g' ∙ g, a' ∙ a)

  row-granted :
      (rows : Table) (r : ApprovalRequest)
      → Store.get id rows ≡ some r
      → granted id rows ≡ false
      → is_granted r.status ≡ false
  row-granted rows r e h = ground (arith, e)

  settle-result :
      (now : ℕ) (s : Service)
      → s.approve_on_timeout ≡ false
      → (settle_timeout id now s).1 ≡ Store.get id (expire_overdue now s.store).0
  unfolding settle_timeout
  settle-result now s h = rw h

  late-consent :
      (now : ℕ) (late : List Op) (s : Service) (r : ApprovalRequest)
      → s.approve_on_timeout ≡ false
      → granted id s.store ≡ false
      → any (consents id) late ≡ false
      → (late_settle id now late s).1 ≡ returned (some r)
      → is_granted r.status ≡ false
  unfolding late_settle
  late-consent now late s r h g k e =
      let s' = run_ops late s in
      let (kept, auto) = run_ops-Kept late s h k in
      row-granted (expire_overdue now s'.store).0 r
        (sym (settle-result now s' (auto ∙ h)) ∙ returned_inv e)
        (granted-expire now s'.store ∙ kept ∙ g)
    where
      returned_inv : {x y : Option ApprovalRequest} → returned x ≡ returned y → x ≡ y
      returned_inv p = cc

  -- No other task approves the request in any round.
  abbrev pub NoConsent : List Round → Type 0
  NoConsent [] = Unit
  NoConsent (round ∷ rounds) = (any (consents id) round.others ≡ false) × NoConsent rounds

  loop-consent :
      (deadline delay now : ℕ) (late : List Op) (rounds : List Round) (s : Service)
      (r : ApprovalRequest)
      → s.approve_on_timeout ≡ false
      → granted id s.store ≡ false
      → any (consents id) late ≡ false
      → NoConsent rounds
      → (wait_loop id deadline delay late now rounds s).1 ≡ returned (some r)
      → is_granted r.status ≡ false
  unfolding wait_loop
  loop-consent deadline delay now late [] s r h g k n e = elim (Bool-cases (leb deadline now)) [
    | inl d ↦ late-consent (now + delay) late s r h g k (rw d at e)
    | inr d ↦ absurd (ground (arith, d))
  ]
  loop-consent deadline delay now late (round ∷ rounds) s r h g k n e =
      let s' = run_ops round.others s in
      let (kept, auto) = run_ops-Kept round.others s h n.0 in
      elim (Bool-cases (leb deadline now)) [
        | inl d ↦ late-consent (now + delay) late s r h g k (rw d at e)
        | inr d ↦ elim (Option-cases (Store.get id s'.store)) [
          | inl o ↦ absurd (none_returned (rw (d, o, wait_loop) at e))
          | inr (x, o) ↦ elim (Bool-cases (is_resolved x.status)) [
            | inl q ↦
                rw (returned_row (rw (d, o, q, wait_loop) at e)) at
                  (row-granted s'.store x o (kept ∙ g))
            | inr q ↦
                loop-consent deadline delay round.clock late rounds s' r (auto ∙ h) (kept ∙ g) k n.1
                  (rw (d, o, q, wait_loop) at e)
          ]
        ]
      ]

-- No call of the service changes what a time-out does.
pub run_op-auto : (op : Op) (s : Service) → (run_op op s).approve_on_timeout ≡ s.approve_on_timeout
run_op-auto (opens i now c) s = unfold run_op in (open-Kept [] i now c s).1
run_op-auto (decides i v) s = unfold run_op in refl
run_op-auto (dismisses i remark now) s = unfold run_op in refl
run_op-auto (reads i now delay) s = unfold run_op in (get-Kept [] i now delay s).1
run_op-auto (lists now) s = unfold run_op list_pending in refl
run_op-auto (settles i now) s =
    unfold run_op settle_timeout in
    elim (Bool-cases s.approve_on_timeout) [ inl h ↦ rw h refl | inr h ↦ rw h refl ]

-- Silence is not consent: where time-outs are denials, the request is not approved when the wait
-- begins, and no other task approves it, a wait that ends with the request, however long it took and
-- whatever else happened, does not end in an approval.
pub wait-consent :
    (id : Text) (now delay : ℕ) (late : List Op) (rounds : List Round) (s : Service)
    (r : ApprovalRequest)
    → s.approve_on_timeout ≡ false
    → granted id s.store ≡ false
    → any (consents id) late ≡ false
    → NoConsent id rounds
    → (wait id now delay late rounds s).1 ≡ returned (some r)
    → is_granted r.status ≡ false
unfolding wait
wait-consent id now delay late rounds s r h g k n e = elim (Option-cases (Store.get id s.store)) [
  | inl o ↦ absurd (none_returned (rw (o, wait) at e))
  | inr (x, o) ↦ elim (Bool-cases (is_resolved x.status)) [
    | inl q ↦ rw (returned_row (rw (o, q, wait) at e)) at (row-granted id s.store x o g)
    | inr q ↦
        loop-consent id x.expires_at delay now late rounds
          (record s { events = default_event id s.events }) r h g k n (rw (o, q, wait) at e)
  ]
]
