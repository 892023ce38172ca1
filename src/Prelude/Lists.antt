-- ===== src/Prelude/Lists.antt =====
-- Lists measured and indexed by native numbers, and the folds of Python's `all` and `any`.
use Prim.Native.Nat.{ℕ, zero, suc, ◌+◌, ◌≤◌}
use mathlib.Core.Path.{◌≡◌, refl, sym, ap, ◌∙◌}
use mathlib.Core.Bool.{Bool, true, false, not, ◌&&◌, ◌||◌}
use mathlib.Core.List.{List, [], ◌∷◌, ◌++◌}
use mathlib.Core.Option.{Option, none, some}
use native.Mathlib.Nat.{zero-add}
use native.Mathlib.Omega.{arith}

suc_add : (n m : ℕ) → suc n + m ≡ suc (n + m)
suc_add n m = omega arith

module _ {ℓ} {A : Type ℓ} where
  abbrev pub length : List A → ℕ
  length [] = 0
  length (x ∷ xs) = suc (length xs)

  abbrev pub get_elem? : List A → ℕ → Option A
  get_elem? [] i = none
  get_elem? (x ∷ xs) zero = some x
  get_elem? (x ∷ xs) (suc i) = get_elem? xs i

  abbrev pub take : ℕ → List A → List A
  take zero xs = []
  take (suc n) [] = []
  take (suc n) (x ∷ xs) = x ∷ take n xs

  abbrev pub drop : ℕ → List A → List A
  drop zero xs = xs
  drop (suc n) [] = []
  drop (suc n) (x ∷ xs) = drop n xs

  -- Python's `all(p(x) for x in xs)` and `any(p(x) for x in xs)`.
  abbrev pub all : (A → Bool) → List A → Bool
  all p [] = true
  all p (x ∷ xs) = p x && all p xs

  abbrev pub any : (A → Bool) → List A → Bool
  any p [] = false
  any p (x ∷ xs) = p x || any p xs

  abbrev pub keep : (A → Bool) → List A → List A
  keep p [] = []
  keep p (x ∷ xs) = let rest = keep p xs in elim (p x) [ true ↦ x ∷ rest | false ↦ rest ]

  -- A predicate of every element, by recursion.
  abbrev pub All {κ} : (A → Type κ) → List A → Type κ
  All P [] = Unit
  All P (x ∷ xs) = P x × All P xs

  pub length-append : (xs ys : List A) → length (xs ++ ys) ≡ length xs + length ys
  length-append [] ys = omega arith
  length-append (x ∷ xs) ys = omega (arith, length-append xs ys)

  take_nil : (n : ℕ) → take n [] ≡ []
  take_nil zero = refl
  take_nil (suc n) = refl

  drop_nil : (n : ℕ) → drop n [] ≡ []
  drop_nil zero = refl
  drop_nil (suc n) = refl

  pub take-drop : (n m : ℕ) (xs : List A) → take n xs ++ take m (drop n xs) ≡ take (n + m) xs
  take-drop zero m xs = ap (λ k. take k xs) (sym (zero-add m))
  take-drop (suc n) m [] = take_nil m ∙ sym (take_nil (suc n + m))
  take-drop (suc n) m (x ∷ xs) =
      ap (λ r. x ∷ r) (take-drop n m xs) ∙ ap (λ k. take k (x ∷ xs)) (sym (suc_add n m))

  pub drop-drop : (k n : ℕ) (xs : List A) → drop n (drop k xs) ≡ drop (k + n) xs
  drop-drop zero n xs = ap (λ k. drop k xs) (sym (zero-add n))
  drop-drop (suc k) n [] = drop_nil n ∙ sym (drop_nil (suc k + n))
  drop-drop (suc k) n (x ∷ xs) = drop-drop k n xs ∙ ap (λ j. drop j (x ∷ xs)) (sym (suc_add k n))

  pub length-take : (n : ℕ) (xs : List A) → length (take n xs) ≤ n
  length-take zero xs = omega arith
  length-take (suc n) [] = omega arith
  length-take (suc n) (x ∷ xs) = omega (arith, length-take n xs)

  pub all-append :
      (p : A → Bool) (xs ys : List A) → all p xs ≡ true → all p ys ≡ true → all p (xs ++ ys) ≡ true
  all-append p [] ys h k = k
  all-append p (x ∷ xs) ys h k = ground (arith, all-append p xs ys)

  pub all_append :
      (p : A → Bool) (xs ys : List A)
      → all p (xs ++ ys) ≡ true
      → (all p xs ≡ true) × (all p ys ≡ true)
  all_append p [] ys h = (refl, h)
  all_append p (x ∷ xs) ys h = let (a, b) = all_append p xs ys (ground arith) in (ground arith, b)

  pub any-all : (p : A → Bool) (xs : List A) → any p xs ≡ false → all (λ x. not (p x)) xs ≡ true
  any-all p [] h = refl
  any-all p (x ∷ xs) h = ground (arith, any-all p xs)
