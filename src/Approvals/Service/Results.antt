-- ===== src/Approvals/Service/Results.antt =====
-- What the methods of the service return is the row as they leave it (approvals/service.py).
use mcp_gatekeeper.Prelude.{
  ℕ, ◌+◌, List, [], ◌∷◌, Option, leb, Text, text_eq_self, ◌≡◌, refl, sym, ◌∙◌, inl, inr, Bool-cases,
  Option-cases,
}
use mcp_gatekeeper.Approvals.{is_resolved, is_expired_at, ApprovalRequest}
use mcp_gatekeeper.Approvals.Store
use mcp_gatekeeper.Approvals.Store.{Table, Verdict, resolve, expire_overdue}
use mcp_gatekeeper.Approvals.Store.Rows.{get-resolve}
use mcp_gatekeeper.Approvals.Service.{
  Service, dismissal, dismiss, get, timeout_grant, settle_timeout, Op, run_ops, Round, Waited,
  waiting, returned, late_settle, wait_loop, wait, default_event,
}

-- The second part of a method's result, read back from the first.
abbrev pub Reads : Text → Service × Option ApprovalRequest → Type 0
Reads id (s, r) = r ≡ Store.get id s.store

resolve-row :
    (id : Text) (v : Verdict) (rows : Table)
    → (resolve id v rows).1 ≡ Store.get id (resolve id v rows).0
resolve-row id v rows =
    (get-resolve id id v rows).1 ∙ sym ((get-resolve id id v rows).0 ∙ (rw (text_eq_self id) refl))

pub dismiss-Reads :
    (id : Text) (remark : Option Text) (now : ℕ) (s : Service) → Reads id (dismiss id remark now s)
unfolding dismiss
dismiss-Reads id remark now s = resolve-row id (dismissal remark now) s.store

pub get-Reads : (id : Text) (now delay : ℕ) (s : Service) → Reads id (get id now delay s)
unfolding get
get-Reads id now delay s = elim (Option-cases (Store.get id s.store)) [
  | inl e ↦ rw (e, get) (sym e)
  | inr (r, e) ↦ elim (Bool-cases (is_expired_at r now)) [
    | inl h ↦ rw (e, h, get) refl
    | inr h ↦ rw (e, h, get) (sym e)
  ]
]

settle-Reads : (id : Text) (now : ℕ) (s : Service) → Reads id (settle_timeout id now s)
unfolding settle_timeout
settle-Reads id now s = elim (Bool-cases s.approve_on_timeout) [
  | inl h ↦ rw h (resolve-row id (timeout_grant now) s.store)
  | inr h ↦ rw h refl
]

waiting_returned : {x : Option ApprovalRequest} → waiting ≡ returned x → ⊥
waiting_returned e = cc

-- The same of a wait, where it has ended.
abbrev pub Answers : Text → Service × Waited → Type 0
Answers id (s, w) = (r : Option ApprovalRequest) → w ≡ returned r → r ≡ Store.get id s.store

returned_inv : {x y : Option ApprovalRequest} → returned x ≡ returned y → x ≡ y
returned_inv e = cc

late-Answers :
    (id : Text) (now : ℕ) (late : List Op) (s : Service) → Answers id (late_settle id now late s)
unfolding late_settle
late-Answers id now late s r e = sym (returned_inv e) ∙ settle-Reads id now (run_ops late s)

loop-Answers :
    (id : Text) (deadline delay now : ℕ) (late : List Op) (rounds : List Round) (s : Service)
    → Answers id (wait_loop id deadline delay late now rounds s)
unfolding wait_loop
loop-Answers id deadline delay now late [] s r e = elim (Bool-cases (leb deadline now)) [
  | inl d ↦
      let ans = late-Answers id (now + delay) late s r (rw (d, wait_loop) at e) in
      rw (d, wait_loop) ans
  | inr d ↦ absurd (waiting_returned (rw (d, wait_loop) at e))
]
loop-Answers id deadline delay now late (round ∷ rounds) s r e =
    let s' = run_ops round.others s in
    elim (Bool-cases (leb deadline now)) [
      | inl d ↦
          let ans = late-Answers id (now + delay) late s r (rw (d, wait_loop) at e) in
          rw (d, wait_loop) ans
      | inr d ↦ elim (Option-cases (Store.get id s'.store)) [
        | inl o ↦
            let ans = sym (returned_inv (rw (d, o, wait_loop) at e)) ∙ sym o in
            rw (d, o, wait_loop) ans
        | inr (x, o) ↦ elim (Bool-cases (is_resolved x.status)) [
          | inl q ↦
              let ans = sym (returned_inv (rw (d, o, q, wait_loop) at e)) ∙ sym o in
              rw (d, o, q, wait_loop) ans
          | inr q ↦
              let ans =
                loop-Answers id deadline delay round.clock late rounds s' r
                  (rw (d, o, q, wait_loop) at e) in
              rw (d, o, q, wait_loop) ans
        ]
      ]
    ]

pub wait-Answers :
    (id : Text) (now delay : ℕ) (late : List Op) (rounds : List Round) (s : Service)
    → Answers id (wait id now delay late rounds s)
unfolding wait
wait-Answers id now delay late rounds s r e = elim (Option-cases (Store.get id s.store)) [
  | inl o ↦ let ans = sym (returned_inv (rw (o, wait) at e)) ∙ sym o in rw (o, wait) ans
  | inr (x, o) ↦ elim (Bool-cases (is_resolved x.status)) [
    | inl q ↦ let ans = sym (returned_inv (rw (o, q, wait) at e)) ∙ sym o in rw (o, q, wait) ans
    | inr q ↦
        let ans =
          loop-Answers id x.expires_at delay now late rounds
            (record s { events = default_event id s.events }) r (rw (o, q, wait) at e) in
        rw (o, q, wait) ans
  ]
]
