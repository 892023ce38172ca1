-- ===== src/Approvals/Service/Acts.antt =====
-- What a handler does to the queue, as a sequence of calls of the service (approvals/service.py).
use mcp_gatekeeper.Prelude.{
  ℕ, ◌+◌, List, [], ◌∷◌, ◌++◌, Bool, true, false, leb, Text, ◌≡◌, refl, sym, ◌∙◌, all, arith, not,
  all_append, inl, inr, Bool-cases, Option-cases,
}
use mcp_gatekeeper.Approvals.{is_resolved}
use mcp_gatekeeper.Approvals.Store
use mcp_gatekeeper.Approvals.Store.{Table}
use mcp_gatekeeper.Approvals.Store.History.{Writes, here, Writes-trans}
use mcp_gatekeeper.Approvals.Service.{
  Service, Events, Op, decides, settles, run_op, run_ops, Round, late_settle, wait_loop, wait,
  default_event, pop_event,
}
use mcp_gatekeeper.Approvals.Service.Consent.{consents, Kept, run_op-Kept, run_op-auto}
use mcp_gatekeeper.Approvals.Service.Effects.{run_op-Writes}

-- Only an approver decides.
abbrev pub decides_one : Op → Bool
decides_one (decides id v) = true
decides_one _ = false

-- From one state of the service to another by calls for which the test holds; the wake-up events
-- may change on the way.
pub data Acts (test : Op → Bool) (start : Service) : Service → Type 0 where
  rests : Acts test start start
  acts :
      {s s' : Service}
      → Acts test start s
      → (op : Op) → test op ≡ true
      → run_op op s ≡ s'
      → Acts test start s'
  wakes :
      {s s' : Service}
      → Acts test start s
      → (events : Events) → record s { events = events } ≡ s'
      → Acts test start s'

-- What the other tasks do in the rounds of a wait.
abbrev pub others : List Round → List Op
others [] = []
others (round ∷ rounds) = round.others ++ others rounds

module _ (test : Op → Bool) where
  pub Acts-trans : {a b c : Service} → Acts test a b → Acts test b c → Acts test a c
  Acts-trans x rests = x
  Acts-trans x (acts y op h e) = acts (Acts-trans x y) op h e
  Acts-trans x (wakes y events e) = wakes (Acts-trans x y) events e

  pub act : {s s' : Service} (op : Op) → test op ≡ true → run_op op s ≡ s' → Acts test s s'
  act op h e = acts rests op h e

  pub wake : {s s' : Service} (events : Events) → record s { events = events } ≡ s' → Acts test s s'
  wake events e = wakes rests events e

  pub run_ops-Acts :
      (ops : List Op) (s : Service) → all test ops ≡ true → Acts test s (run_ops ops s)
  unfolding run_ops
  run_ops-Acts [] s h = rests
  run_ops-Acts (op ∷ ops) s h =
      Acts-trans (act op (ground arith) refl) (run_ops-Acts ops (run_op op s) (ground arith))

  -- What the callers of the service do themselves, which is never a decision.
  module _ (own : (op : Op) → decides_one op ≡ false → test op ≡ true) where
    late-Acts :
        (id : Text) (now : ℕ) (late : List Op) (s : Service)
        → all test late ≡ true
        → Acts test s (late_settle id now late s).0
    unfolding late_settle run_op
    late-Acts id now late s h =
        Acts-trans (run_ops-Acts late s h) (act (settles id now) (own (settles id now) refl) refl)

    loop-Acts :
        (id : Text) (deadline delay now : ℕ) (late : List Op) (rounds : List Round) (s : Service)
        → all test late ≡ true
        → all test (others rounds) ≡ true
        → Acts test s (wait_loop id deadline delay late now rounds s).0
    unfolding wait_loop
    loop-Acts id deadline delay now late [] s h k = elim (Bool-cases (leb deadline now)) [
      | inl d ↦ rw (d, wait_loop) (late-Acts id (now + delay) late s h)
      | inr d ↦ rw (d, wait_loop) rests
    ]
    loop-Acts id deadline delay now late (round ∷ rounds) s h k =
        let s' = run_ops round.others s in
        let (first, rest) = all_append test round.others (others rounds) k in
        let slept = run_ops-Acts round.others s first in
        elim (Bool-cases (leb deadline now)) [
          | inl d ↦ rw (d, wait_loop) (late-Acts id (now + delay) late s h)
          | inr d ↦ elim (Option-cases (Store.get id s'.store)) [
            | inl o ↦ rw (d, o, wait_loop) slept
            | inr (x, o) ↦ elim (Bool-cases (is_resolved x.status)) [
              | inl q ↦ rw (d, o, q, wait_loop) (wakes slept (pop_event id s'.events) refl)
              | inr q ↦
                  let again = loop-Acts id deadline delay round.clock late rounds s' h rest in
                  rw (d, o, q, wait_loop) (Acts-trans slept again)
            ]
          ]
        ]

    pub wait-Acts :
        (id : Text) (now delay : ℕ) (late : List Op) (rounds : List Round) (s : Service)
        → all test late ≡ true
        → all test (others rounds) ≡ true
        → Acts test s (wait id now delay late rounds s).0
    unfolding wait
    wait-Acts id now delay late rounds s h k = elim (Option-cases (Store.get id s.store)) [
      | inl o ↦ rw (o, wait) rests
      | inr (x, o) ↦ elim (Bool-cases (is_resolved x.status)) [
        | inl q ↦ rw (o, q, wait) rests
        | inr q ↦
            let s' = record s { events = default_event id s.events } in
            let loop = loop-Acts id x.expires_at delay now late rounds s' h k in
            rw (o, q, wait) (Acts-trans (wake (default_event id s.events) refl) loop)
      ]
    ]

pub Acts-Writes : {test : Op → Bool} {s s' : Service} → Acts test s s' → Writes s.store s'.store
Acts-Writes rests = here
Acts-Writes (acts {s = m} x op h e) = Writes-trans (Acts-Writes x) (rw (sym e) (run_op-Writes op m))
Acts-Writes (wakes x events e) = rw (sym e) (Acts-Writes x)

pub Acts-auto :
    {test : Op → Bool} {s s' : Service}
    → Acts test s s'
    → s'.approve_on_timeout ≡ s.approve_on_timeout
Acts-auto rests = refl
Acts-auto (acts {s = m} x op h e) = rw (sym e) (run_op-auto op m ∙ Acts-auto x)
Acts-auto (wakes x events e) = rw (sym e) (Acts-auto x)

-- The calls that do not approve the request of the id.
abbrev pub no_consent : Text → Op → Bool
no_consent id op = not (consents id op)

pub Acts-Kept :
    (id : Text) {s s' : Service}
    → Acts (no_consent id) s s'
    → s.approve_on_timeout ≡ false
    → Kept id s s'
Acts-Kept id rests h = (refl, refl)
Acts-Kept id (acts {s = m} x op k e) h =
    let (g, a) = Acts-Kept id x h in
    let (g', a') = run_op-Kept id op m (a ∙ h) (ground arith) in rw (sym e) (g' ∙ g, a' ∙ a)
Acts-Kept id (wakes {s = m} x events e) h = let (g, a) = Acts-Kept id x h in rw (sym e) (g, a)
