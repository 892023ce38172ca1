-- ===== src/Prelude/Codes.antt =====
-- Text as the list of its code points, which is what the program indexes and compares.
use Prim.Native.Nat.{ℕ}
use Prim.Native.Char.{code}
use Prim.Native.String.{String}
use mathlib.Core.Path.{◌≡◌, refl}
use mathlib.Core.Logic.{◌↔◌}
use mathlib.Core.Bool.{Bool, true, false, ◌&&◌, ◌||◌}
use mathlib.Core.List.{List, [], ◌∷◌, ◌++◌}
use mathlib.Core.Option.{Option, none, some}
use native.Mathlib.Omega.{arith}
use mcp_gatekeeper.Prelude.Tests.{◌==◌, ltb}

abbrev pub Text : Type 0
Text = List ℕ

-- A quoted text as its code points. `String` has its own `[]` and `∷`.
abbrev pub codes : String → Text
codes String.[] = []
codes (String.◌∷◌ c s) = code c ∷ codes s

unfoldable pub text_eq : Text → Text → Bool
text_eq [] [] = true
text_eq (a ∷ s) (b ∷ t) = (a == b) && text_eq s t
text_eq _ _ = false

pub text_eq_iff : (s t : Text) → (text_eq s t ≡ true) ↔ (s ≡ t)
unfolding text_eq
text_eq_iff [] [] = (λ _. refl, λ _. refl)
text_eq_iff [] (b ∷ t) = ground arith
text_eq_iff (a ∷ s) [] = ground arith
text_eq_iff (a ∷ s) (b ∷ t) = ground (arith, text_eq_iff s t)

pub text_eq_self : (s : Text) → text_eq s s ≡ true
text_eq_self s = (text_eq_iff s s).1 refl

-- Python's truth value of a text.
abbrev pub truthy : Text → Bool
truthy [] = false
truthy (c ∷ s) = true

-- `a or b` where `a` is a text or None.
abbrev pub or_text : Option Text → Text → Text
or_text none d = d
or_text (some []) d = d
or_text (some (c ∷ s)) d = c ∷ s

-- Python's order of texts, by code points.
unfoldable pub text_lt : Text → Text → Bool
text_lt s [] = false
text_lt [] (d ∷ t) = true
text_lt (c ∷ s) (d ∷ t) = ltb c d || ((c == d) && text_lt s t)

-- `separator.join(parts)`.
unfoldable pub join_with : Text → List Text → Text
join_with separator [] = []
join_with separator (part ∷ []) = part
join_with separator (part ∷ next ∷ parts) =
    part ++ (separator ++ join_with separator (next ∷ parts))
