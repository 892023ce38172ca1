-- ===== src/Audit/Like.antt =====
-- The LIKE of SQLite, which `recent` of audit/store.py filters by: `%` is any text, `_` is any one
-- character, and letters of ASCII match in either case.
use mathlib.Core.List.{map-append}
use mcp_gatekeeper.Prelude.{
  ℕ, ◌+◌, [], ◌∷◌, ◌++◌, map, Bool, true, false, not, ◌&&◌, ◌||◌, ◌==◌, leb, if◌then◌else◌, Text,
  all, ◌≡◌, refl, ap, ◌∙◌, ◌↔◌, inl, inr, ||_elim, arith,
}

abbrev pub percent : ℕ
percent = b'%'

abbrev pub lower : ℕ → ℕ
lower c = if leb b'A' c && leb c b'Z' then c + 32 else c

abbrev pub same_letter : ℕ → ℕ → Bool
same_letter p c = (p == b'_') || (lower p == lower c)

-- Whether the test holds of some end of the text.
unfoldable pub any_end : (Text → Bool) → Text → Bool
any_end test [] = test []
any_end test (c ∷ s) = test (c ∷ s) || any_end test s

abbrev pub first_fits : ℕ → (Text → Bool) → Text → Bool
first_fits p test [] = false
first_fits p test (c ∷ s) = same_letter p c && test s

unfoldable pub like : Text → Text → Bool
unfolding any_end
like [] [] = true
like [] (c ∷ s) = false
like (p ∷ ps) s = let rest = like ps in if p == percent then any_end rest s else first_fits p rest s

-- `f"%{tool}%"`.
abbrev pub around : Text → Text
around t = percent ∷ t ++ percent ∷ []

-- A text with neither of the two wildcards.
abbrev pub is_plain : Text → Bool
is_plain = all (λ c. not (c == percent) && not (c == b'_'))

module _ (test : Text → Bool) where
  any_end-split :
      (s : Text) → any_end test s ≡ true → (u : Text) × (w : Text) × (s ≡ u ++ w) × (test w ≡ true)
  unfolding any_end
  any_end-split [] h = ([], [], refl, h)
  any_end-split (c ∷ s) h = elim (||_elim (test (c ∷ s)) (any_end test s) h) [
    | inl here ↦ ([], c ∷ s, refl, here)
    | inr later ↦ let (u, w, e, k) = any_end-split s later in (c ∷ u, w, ap (λ r. c ∷ r) e, k)
  ]

  any_end_here : (w : Text) → test w ≡ true → any_end test w ≡ true
  unfolding any_end
  any_end_here [] h = h
  any_end_here (c ∷ w) h = ground arith

  any_end-lower :
      (x u s : Text)
      → ((w : Text) → map lower w ≡ x → test w ≡ true)
      → map lower s ≡ map lower u ++ x
      → any_end test s ≡ true
  unfolding any_end
  any_end-lower x [] s f e = any_end_here s (f s e)
  any_end-lower x (c ∷ u) [] f e = cc
  any_end-lower x (c ∷ u) (d ∷ s) f e =
      let later = any_end-lower x u s f (ground (arith, e)) in ground arith

-- A single `%` takes every text.
like-percent : (s : Text) → like (percent ∷ []) s ≡ true
unfolding like any_end
like-percent [] = refl
like-percent (c ∷ s) = ground (arith, like-percent s)

like-prefix :
    (t s : Text)
    → is_plain t ≡ true
    → like (t ++ percent ∷ []) s ≡ true
    → (v : Text) × (map lower s ≡ map lower t ++ v)
unfolding like
like-prefix [] s h k = (map lower s, refl)
like-prefix (p ∷ t) [] h k = absurd (ground arith)
like-prefix (p ∷ t) (c ∷ s) h k =
    let (v, e) = like-prefix t s (ground arith) (ground arith) in
    let same : lower c ≡ lower p = ground arith in (v, rw (same, e) refl)

prefix-like :
    (t s v : Text)
    → is_plain t ≡ true
    → map lower s ≡ map lower t ++ v
    → like (t ++ percent ∷ []) s ≡ true
unfolding like
prefix-like [] s v h e = like-percent s
prefix-like (p ∷ t) [] v h e = cc
prefix-like (p ∷ t) (c ∷ s) v h e = ground (arith, prefix-like t s v)

-- The filter `%text%`, with no wildcard in the text, holds exactly of what contains the text, letters
-- of ASCII taken in either case.
pub like-around :
    (t s : Text)
    → is_plain t ≡ true
    → (like (around t) s ≡ true)
      ↔ ((u : Text) × (v : Text) × (map lower s ≡ map lower u ++ (map lower t ++ v)))
unfolding like
like-around t s h = (
  λ k.
      let (u, w, e, f) = any_end-split (like (t ++ percent ∷ [])) s k in
      let (v, g) = like-prefix t w h f in
      (u, v, ap (map lower) e ∙ (map-append lower u w ∙ ap (λ r. map lower u ++ r) g)),
  λ (u, v, e).
      any_end-lower (like (t ++ percent ∷ [])) (map lower t ++ v) u s (λ w g. prefix-like t w v h g)
        e,
)
