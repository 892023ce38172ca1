-- ===== src/Approvals/Service/Timeout.antt =====
-- Deadlines: a wait ends, and with a settled request (approvals/service.py).
use mcp_gatekeeper.Prelude.{
  ℕ, ◌+◌, ◌≤◌, List, [], ◌∷◌, true, false, Option, none, some, if◌then◌else◌, leb, Text, codes, ◌≡◌,
  refl, sym, ap, ◌∙◌, inl, inr, Bool-cases, Option-cases, arith,
}
use mcp_gatekeeper.Approvals.{
  approved, expired, is_pending, is_resolved, is_expired_at, ApprovalRequest,
}
use mcp_gatekeeper.Approvals.Store
use mcp_gatekeeper.Approvals.Store.{Table, timed_out, Verdict, create, resolve, expire_overdue}
use mcp_gatekeeper.Approvals.Store.Rows.{
  decided-settled, map_row, settle, lapse, get-resolve, get-expire,
}
use mcp_gatekeeper.Approvals.Store.History.{Writes-deadline}
use mcp_gatekeeper.Approvals.Service.Effects.{run_ops-Writes}
use mcp_gatekeeper.Approvals.Service.{
  Round, returned, late_settle, wait_loop, wait, default_event, Service, get, timeout_grant,
  settle_timeout, Op, run_ops,
}

-- The row as `get` reports it: expired where it is pending past its deadline.
abbrev pub reported : ℕ → ℕ → ApprovalRequest → ApprovalRequest
reported now delay r = if is_expired_at r now then timed_out (now + delay) r else r

lapse-overdue :
    (now delay : ℕ) (r : ApprovalRequest)
    → is_expired_at r now ≡ true
    → lapse (now + delay) r ≡ timed_out (now + delay) r
unfolding is_expired_at
lapse-overdue now delay r h = ground arith

expired-get :
    (id : Text) (now delay : ℕ) (rows : Table) (r : ApprovalRequest)
    → Store.get id rows ≡ some r
    → is_expired_at r now ≡ true
    → Store.get id (expire_overdue (now + delay) rows).0 ≡ some (timed_out (now + delay) r)
expired-get id now delay rows r e h =
    get-expire (now + delay) id rows
    ∙ ap (map_row (lapse (now + delay))) e
    ∙ ap some (lapse-overdue now delay r h)

-- `get` reports the row of its id, as an expired one where it is still pending at its deadline, and
-- none where there is no row; `on_timeout` plays no part.
pub get-reported :
    (id : Text) (now delay : ℕ) (s : Service)
    → (get id now delay s).1 ≡ map_row (reported now delay) (Store.get id s.store)
get-reported id now delay s = elim (Option-cases (Store.get id s.store)) [
  | inl e ↦ rw e (unfold get in rw (e, get))
  | inr (r, e) ↦ elim (Bool-cases (is_expired_at r now)) [
    | inl h ↦ rw e (rw h (unfold get in rw (e, h, get) (expired-get id now delay s.store r e h)))
    | inr h ↦ rw e (rw h (unfold get in rw (e, h, get)))
  ]
]

returned_row : {x r : ApprovalRequest} → returned (some x) ≡ returned (some r) → x ≡ r
returned_row e = cc

none_returned : {r : ApprovalRequest} → returned none ≡ returned (some r) → ⊥
none_returned e = cc

resolved-not_pending :
    (x r : ApprovalRequest) → is_resolved x.status ≡ true → x ≡ r → is_pending r.status ≡ false
unfolding is_resolved
resolved-not_pending x r q e = ground (arith, q, e)

some_inv : {x y : ApprovalRequest} → some x ≡ some y → x ≡ y
some_inv e = cc

settle-not : (v : Verdict) (x : ApprovalRequest) → is_pending (settle v x).status ≡ false
settle-not v x = ground (arith, decided-settled v x)

lapse-not :
    (now : ℕ) (x : ApprovalRequest) → x.expires_at ≤ now → is_pending (lapse now x).status ≡ false
lapse-not now x h = ground arith

settle-overdue :
    (v : Verdict) (now : ℕ) (x : ApprovalRequest)
    → is_expired_at x now ≡ true
    → settle v x ≡ Store.decided v x
unfolding is_expired_at
settle-overdue v now x h = ground arith

settle-granted :
    (id : Text) (now : ℕ) (s : Service)
    → s.approve_on_timeout ≡ true
    → (settle_timeout id now s).1 ≡ map_row (settle (timeout_grant now)) (Store.get id s.store)
unfolding settle_timeout
settle-granted id now s h = rw h ((get-resolve id id (timeout_grant now) s.store).1)

settle-expired :
    (id : Text) (now : ℕ) (s : Service)
    → s.approve_on_timeout ≡ false
    → (settle_timeout id now s).1 ≡ map_row (lapse now) (Store.get id s.store)
unfolding settle_timeout
settle-expired id now s h = rw h (get-expire now id s.store)

module _ (id : Text) where
  -- The settled time-out of a request whose deadline has come is no longer pending.
  settle-not_pending :
      (now : ℕ) (s : Service) (x r : ApprovalRequest)
      → Store.get id s.store ≡ some x
      → x.expires_at ≤ now
      → (settle_timeout id now s).1 ≡ some r
      → is_pending r.status ≡ false
  settle-not_pending now s x r o h e = elim (Bool-cases s.approve_on_timeout) [
    | inl a ↦
        let p : settle (timeout_grant now) x ≡ r =
          some_inv
            (sym (settle-granted id now s a ∙ ap (map_row (settle (timeout_grant now))) o) ∙ e) in
        rw p at (settle-not (timeout_grant now) x)
    | inr a ↦
        let p : lapse now x ≡ r =
          some_inv (sym (settle-expired id now s a ∙ ap (map_row (lapse now)) o) ∙ e) in
        rw p at (lapse-not now x h)
  ]

  late-not_pending :
      (now : ℕ) (late : List Op) (s : Service) (x r : ApprovalRequest)
      → Store.get id s.store ≡ some x
      → x.expires_at ≤ now
      → (late_settle id now late s).1 ≡ returned (some r)
      → is_pending r.status ≡ false
  unfolding late_settle
  late-not_pending now late s x r o h e =
      let (y, o', d) = Writes-deadline id x (run_ops-Writes late s) o in
      settle-not_pending now (run_ops late s) y r o' (rw d h) (returned_inv e)
    where
      returned_inv : {x y : Option ApprovalRequest} → returned x ≡ returned y → x ≡ y
      returned_inv p = cc

  loop-not_pending :
      (deadline delay now : ℕ) (late : List Op) (rounds : List Round) (s : Service)
      (x r : ApprovalRequest)
      → Store.get id s.store ≡ some x
      → x.expires_at ≡ deadline
      → (wait_loop id deadline delay late now rounds s).1 ≡ returned (some r)
      → is_pending r.status ≡ false
  unfolding wait_loop is_resolved
  loop-not_pending deadline delay now late [] s x r o h e = elim (Bool-cases (leb deadline now)) [
    | inl d ↦ late-not_pending (now + delay) late s x r o (ground (arith, d)) (rw d at e)
    | inr d ↦ absurd (ground (arith, d))
  ]
  loop-not_pending deadline delay now late (round ∷ rounds) s x r o h e =
      let s' = run_ops round.others s in
      elim (Bool-cases (leb deadline now)) [
        | inl d ↦ late-not_pending (now + delay) late s x r o (ground (arith, d)) (rw d at e)
        | inr d ↦
            let (y, o', h') = Writes-deadline id x (run_ops-Writes round.others s) o in
            elim (Bool-cases (is_resolved y.status)) [
              | inl q ↦ ground (arith, q, returned_row (rw (d, o', q, wait_loop) at e))
              | inr q ↦
                  loop-not_pending deadline delay round.clock late rounds s' y r o' (h' ∙ h)
                    (rw (d, o', q, wait_loop) at e)
            ]
      ]

-- A wait that ends with a request ends with a settled one, whether time-outs deny or approve.
pub wait-not_pending :
    (id : Text) (now delay : ℕ) (late : List Op) (rounds : List Round) (s : Service)
    (r : ApprovalRequest)
    → (wait id now delay late rounds s).1 ≡ returned (some r)
    → is_pending r.status ≡ false
unfolding wait
wait-not_pending id now delay late rounds s r e = elim (Option-cases (Store.get id s.store)) [
  | inl o ↦ absurd (none_returned (rw (o, wait) at e))
  | inr (x, o) ↦ elim (Bool-cases (is_resolved x.status)) [
    | inl q ↦ resolved-not_pending x r q (returned_row (rw (o, q, wait) at e))
    | inr q ↦
        loop-not_pending id x.expires_at delay now late rounds
          (record s { events = default_event id s.events }) x r o refl (rw (o, q, wait) at e)
  ]
]

-- Where time-outs approve, an overdue request is approved for a call that is held open for it, in the name of
-- the time-out and with a note that says so, and reported expired, which is a denial, to a client that comes
-- back for it; both at the moment at which it is settled.
pub get-settle_timeout :
    (id : Text) (now delay : ℕ) (s : Service) (r : ApprovalRequest)
    → s.approve_on_timeout ≡ true
    → Store.get id s.store ≡ some r
    → is_expired_at r now ≡ true
    → ((settle_timeout id (now + delay) s).1
        ≡ some (record r {
          status = approved;
          decided_at = some (now + delay);
          approver = some (codes "system:timeout");
          note = some (codes "auto-approved on timeout");
        }))
      × ((get id now delay s).1
          ≡ some (record r {
            status = expired;
            decided_at = some (now + delay);
            approver = some (codes "system:timeout");
          }))
get-settle_timeout id now delay s r a o h = (
  settle-granted id (now + delay) s a
      ∙ ap (map_row (settle (timeout_grant (now + delay)))) o
      ∙ ap some (settle-overdue (timeout_grant (now + delay)) now r h),
  get-reported id now delay s ∙ ap (map_row (reported now delay)) o ∙ ap some (rw h),
)
