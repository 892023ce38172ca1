-- ===== src/Approvals/Service/Ending.antt =====
-- When `wait` comes to an end (approvals/service.py).
use mcp_gatekeeper.Prelude.{
  ℕ, ◌+◌, List, [], ◌∷◌, Bool, true, ◌||◌, Option, some, leb, Text, ◌≡◌, ◌≢◌, inl, inr, Bool-cases,
  Option-cases, arith,
}
use mcp_gatekeeper.Approvals.{is_resolved, ApprovalRequest}
use mcp_gatekeeper.Approvals.Store
use mcp_gatekeeper.Approvals.Store.{Table, timed_out, Verdict, create, resolve, expire_overdue}
use mcp_gatekeeper.Approvals.Service.{
  Round, waiting, returned, late_settle, wait_loop, wait, default_event, Service, Op, run_ops,
}

returned_ne : {o : Option ApprovalRequest} → returned o ≡ waiting → ⊥
returned_ne e = cc

-- Some clock that the rounds read has come to the deadline.
abbrev pub reaches : ℕ → ℕ → List Round → Bool
reaches deadline now [] = leb deadline now
reaches deadline now (round ∷ rounds) = leb deadline now || reaches deadline round.clock rounds

late_returns :
    (id : Text) (now : ℕ) (late : List Op) (s : Service) → (late_settle id now late s).1 ≢ waiting
unfolding late_settle
late_returns id now late s e = cc

loop-ends :
    (id : Text) (deadline delay now : ℕ) (late : List Op) (rounds : List Round) (s : Service)
    → reaches deadline now rounds ≡ true
    → (wait_loop id deadline delay late now rounds s).1 ≢ waiting
unfolding wait_loop
loop-ends id deadline delay now late [] s h e = late_returns id (now + delay) late s (rw h at e)
loop-ends id deadline delay now late (round ∷ rounds) s h e =
    let s' = run_ops round.others s in
    elim (Bool-cases (leb deadline now)) [
      | inl d ↦ late_returns id (now + delay) late s (rw d at e)
      | inr d ↦ elim (Option-cases (Store.get id s'.store)) [
        | inl o ↦ returned_ne (rw (d, o, wait_loop) at e)
        | inr (y, o) ↦ elim (Bool-cases (is_resolved y.status)) [
          | inl q ↦ returned_ne (rw (d, o, q, wait_loop) at e)
          | inr q ↦
              loop-ends id deadline delay round.clock late rounds s' (ground (arith, d))
                (rw (d, o, q, wait_loop) at e)
        ]
      ]
    ]

-- A wait ends, however the other tasks interleave, once a clock that it reads has come to the
-- request's deadline, and at once where there is no request.
pub wait-ends :
    (id : Text) (now delay : ℕ) (late : List Op) (rounds : List Round) (s : Service)
    → ((r : ApprovalRequest)
        → Store.get id s.store ≡ some r
        → reaches r.expires_at now rounds ≡ true)
    → (wait id now delay late rounds s).1 ≢ waiting
unfolding wait
wait-ends id now delay late rounds s h e = elim (Option-cases (Store.get id s.store)) [
  | inl o ↦ returned_ne (rw (o, wait) at e)
  | inr (x, o) ↦ elim (Bool-cases (is_resolved x.status)) [
    | inl q ↦ returned_ne (rw (o, q, wait) at e)
    | inr q ↦
        loop-ends id x.expires_at delay now late rounds
          (record s { events = default_event id s.events }) (h x o) (rw (o, q, wait) at e)
  ]
]
