-- ===== src/Prelude/Sort.antt =====
-- Python's `sorted` and SQL's ORDER BY, which keep equal items in their order, as an insertion sort.
use mathlib.Core.Path.{◌≡◌, refl}
use mathlib.Core.Logic.{inl, inr}
use mathlib.Core.Bool.{Bool, true, false, ◌&&◌}
use native.Mathlib.Omega.{arith}
use mathlib.Core.List.{List, [], ◌∷◌, Perm}
use mathlib.Core.List.Perm
use mcp_gatekeeper.Prelude.Lists.{All, all}
use mcp_gatekeeper.Prelude.Tests.{if◌then◌else◌, Bool-cases}

module _ {ℓ} {A : Type ℓ} (before : A → A → Bool) where
  unfoldable pub insert_by : A → List A → List A
  insert_by x [] = x ∷ []
  insert_by x (y ∷ ys) = if before x y then x ∷ y ∷ ys else y ∷ insert_by x ys

  unfoldable pub sort_by : List A → List A
  unfolding insert_by
  sort_by [] = []
  sort_by (x ∷ xs) = insert_by x (sort_by xs)

  abbrev pub Sorted : List A → Type 0
  Sorted [] = Unit
  Sorted (x ∷ []) = Unit
  Sorted (x ∷ y ∷ ys) = (before x y ≡ true) × Sorted (y ∷ ys)

  insert-perm : (x : A) (xs : List A) → Perm (insert_by x xs) (x ∷ xs)
  unfolding insert_by
  insert-perm x [] = Perm.refl (x ∷ [])
  insert-perm x (y ∷ ys) = elim (Bool-cases (before x y)) [
    | inl h ↦ rw h (Perm.refl (x ∷ y ∷ ys))
    | inr h ↦ rw h (Perm.trans (Perm.cons y (insert-perm x ys)) (Perm.swap x y ys))
  ]

  pub sort_by-perm : (xs : List A) → Perm (sort_by xs) xs
  unfolding sort_by
  sort_by-perm [] = Perm.refl []
  sort_by-perm (x ∷ xs) = Perm.trans (insert-perm x (sort_by xs)) (Perm.cons x (sort_by-perm xs))

  All-insert_by {κ} :
      (P : A → Type κ) (x : A) (xs : List A) → P x → All P xs → All P (insert_by x xs)
  unfolding insert_by
  All-insert_by P x [] h hs = (h, tt)
  All-insert_by P x (y ∷ ys) h hs = elim (Bool-cases (before x y)) [
    | inl e ↦ rw e (h, hs)
    | inr e ↦ rw e (hs.0, All-insert_by P x ys h hs.1)
  ]

  pub All-sort_by {κ} : (P : A → Type κ) (xs : List A) → All P xs → All P (sort_by xs)
  unfolding sort_by
  All-sort_by P [] hs = tt
  All-sort_by P (x ∷ xs) hs = All-insert_by P x (sort_by xs) hs.0 (All-sort_by P xs hs.1)

  all-insert_by : (p : A → Bool) (x : A) (xs : List A) → all p (insert_by x xs) ≡ (p x && all p xs)
  unfolding insert_by
  all-insert_by p x [] = refl
  all-insert_by p x (y ∷ ys) = ground (arith, all-insert_by p x ys)

  pub all-sort_by : (p : A → Bool) (xs : List A) → all p (sort_by xs) ≡ all p xs
  unfolding sort_by
  all-sort_by p [] = refl
  all-sort_by p (x ∷ xs) = ground (arith, all-insert_by p x (sort_by xs), all-sort_by p xs)

  module _ (total : (x y : A) → before x y ≡ false → before y x ≡ true) where
    insert_after :
        (x y : A) (ys : List A)
        → before y x ≡ true
        → Sorted (y ∷ ys)
        → Sorted (insert_by x ys)
        → Sorted (y ∷ insert_by x ys)
    unfolding insert_by
    insert_after x y [] h o i = (h, tt)
    insert_after x y (z ∷ ys) h o i = elim (Bool-cases (before x z)) [
      | inl e ↦ rw e (h, rw e at i)
      | inr e ↦ rw e (o.0, rw e at i)
    ]

    tail-Sorted : (x : A) (xs : List A) → Sorted (x ∷ xs) → Sorted xs
    tail-Sorted x [] p = tt
    tail-Sorted x (y ∷ xs) p = p.1

    insert-Sorted : (x : A) (xs : List A) → Sorted xs → Sorted (insert_by x xs)
    unfolding insert_by
    insert-Sorted x [] o = tt
    insert-Sorted x (y ∷ ys) o = elim (Bool-cases (before x y)) [
      | inl e ↦ rw e (e, o)
      | inr e ↦ rw e (insert_after x y ys (total x y e) o (insert-Sorted x ys (tail-Sorted y ys o)))
    ]

    pub sort_by-Sorted : (xs : List A) → Sorted (sort_by xs)
    unfolding sort_by
    sort_by-Sorted [] = tt
    sort_by-Sorted (x ∷ xs) = insert-Sorted x (sort_by xs) (sort_by-Sorted xs)
