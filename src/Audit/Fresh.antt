-- ===== src/Audit/Fresh.antt =====
-- Events with ids of their own (audit/store.py): recording them only adds to the trail.
use mcp_gatekeeper.Prelude.{
  List, [], ◌∷◌, ◌++◌, map, keep, Bool, true, false, not, Text, text_eq, text_eq_iff, text_eq_self,
  any, All, ◌≡◌, refl, sym, ap, ◌∙◌, inl, inr, Bool-cases, arith,
}
use mcp_gatekeeper.Audit.{AuditEvent}
use mcp_gatekeeper.Audit.Store.{Log, record_event}

-- Whether the id is among those drawn so far.
abbrev pub drawn : Text → List Text → Bool
drawn id ids = any (λ i. text_eq i id) ids

-- Every event of the log has a drawn id.
abbrev pub Drawn : List Text → Log → Type 0
Drawn ids log = All (λ e. drawn e.event_id ids ≡ true) log

drawn-same :
    (i j : Text) (ids : List Text) → text_eq i j ≡ true → drawn i ids ≡ true → drawn j ids ≡ true
drawn-same i j ids h k = rw ((text_eq_iff i j).0 h) at k

clash : true ≡ false → ⊥
clash p = cc

keep-fresh :
    (id : Text) (ids : List Text) (log : Log)
    → Drawn ids log
    → drawn id ids ≡ false
    → keep (λ f. not (text_eq f.event_id id)) log ≡ log
keep-fresh id ids [] h n = refl
keep-fresh id ids (f ∷ log) (h, hs) n = elim (Bool-cases (text_eq f.event_id id)) [
  | inl k ↦ absurd (clash (sym (drawn-same f.event_id id ids k h) ∙ n))
  | inr k ↦ rw (k, keep) (ap (λ l. f ∷ l) (keep-fresh id ids log hs n))
]

-- An event with a fresh id is added at the end.
pub record_event-fresh :
    (e : AuditEvent) (ids : List Text) (log : Log)
    → Drawn ids log
    → drawn e.event_id ids ≡ false
    → record_event e log ≡ log ++ e ∷ []
unfolding record_event
record_event-fresh e ids log h n = ap (λ l. l ++ e ∷ []) (keep-fresh e.event_id ids log h n)

pub Drawn-more : (id : Text) (ids : List Text) (log : Log) → Drawn ids log → Drawn (id ∷ ids) log
Drawn-more id ids [] h = tt
Drawn-more id ids (e ∷ log) (h, hs) = (ground arith, Drawn-more id ids log hs)

pub Drawn-append :
    (ids : List Text) (log : Log) (e : AuditEvent)
    → Drawn ids log
    → drawn e.event_id ids ≡ true
    → Drawn ids (log ++ e ∷ [])
Drawn-append ids [] e h k = (k, tt)
Drawn-append ids (f ∷ log) e (h, hs) k = (h, Drawn-append ids log e hs k)

pub Drawn-own : (log : Log) → Drawn (map (λ e. e.event_id) log) log
Drawn-own [] = tt
Drawn-own (e ∷ log) = (
  rw (text_eq_self e.event_id) refl,
  Drawn-more e.event_id (map (λ e. e.event_id) log) log (Drawn-own log),
)
