-- ===== src/Prelude/Canonical.antt =====
-- Sorting by a linear order forgets the order of the list.
use mathlib.Core.Path.{◌≡◌, refl, sym, ap, ◌∙◌}
use mathlib.Core.Logic.{inl, inr}
use mathlib.Core.Bool.{Bool, true, false}
use native.Mathlib.Omega.{arith}
use mathlib.Core.List.{List, [], ◌∷◌}
use mathlib.Core.List.{Permᴰ}
use mcp_gatekeeper.Prelude.Tests.{Bool-cases}
use mcp_gatekeeper.Prelude.Sort.{insert_by, sort_by}

module _ {A : Type 0} (before : A → A → Bool)
    (total : (x y : A) → before x y ≡ false → before y x ≡ true)
    (antisym : (x y : A) → before x y ≡ true → before y x ≡ true → x ≡ y)
    (transitive : (x y z : A) → before x y ≡ true → before y z ≡ true → before x z ≡ true) where
  insert-strict :
      (x y : A) (zs : List A)
      → before x y ≡ true
      → before y x ≡ false
      → insert_by before x (insert_by before y zs) ≡ insert_by before y (insert_by before x zs)
  unfolding insert_by
  insert-strict x y [] h k = rw (h, k) refl
  insert-strict x y (z ∷ zs) h k = ground (arith, transitive x y z h, insert-strict x y zs h k)

  insert-insert :
      (x y : A) (zs : List A)
      → insert_by before x (insert_by before y zs) ≡ insert_by before y (insert_by before x zs)
  insert-insert x y zs = elim (Bool-cases (before x y)) [
    | inl a ↦ elim (Bool-cases (before y x)) [
      | inl b ↦
          ap (λ (w : A). insert_by before x (insert_by before w zs)) (sym (antisym x y a b))
          ∙ ap (λ (w : A). insert_by before w (insert_by before x zs)) (antisym x y a b)
      | inr b ↦ insert-strict x y zs a b
    ]
    | inr a ↦ sym (insert-strict y x zs (total x y a) a)
  ]

  pub sort_by-same : {xs ys : List A} → Permᴰ xs ys → sort_by before xs ≡ sort_by before ys
  unfolding sort_by
  sort_by-same Permᴰ.nil = refl
  sort_by-same (Permᴰ.cons e d) = rw (e, sort_by-same d) refl
  sort_by-same (Permᴰ.swap {a} {b} {a'} {b'} {l} e f) =
      rw (e, f) (insert-insert b' a' (sort_by before l))
  sort_by-same (Permᴰ.trans d d') = sort_by-same d ∙ sort_by-same d'
