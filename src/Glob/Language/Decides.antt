-- ===== src/Glob/Language/Decides.antt =====
-- `match_tool` and `match_path` (policy/glob.py) decide the language of glob patterns.
use mcp_gatekeeper.Prelude.{
  ℕ, [], ◌∷◌, ◌++◌, append_assoc, append-nil, Bool, true, false, ◌≡◌, ◌≢◌, refl, sym, ap, ◌↔◌, ◌⊎◌,
  inl, inr, arith, Text, codes, all, Bool-cases, text_eq,
}
use mcp_gatekeeper.Glob.Meaning.{Matches, done, more, Fits, match_pieces_iff}
use mcp_gatekeeper.Glob.Syntax.{
  closes, pieces_of, pieces_nil, pieces_last, pieces_double, pieces_close, pieces_one,
}
use mcp_gatekeeper.Glob.Syntax.Loop.{compile-pieces_of}
use mcp_gatekeeper.Glob.{
  literal, any_run, slash, newline, match_pieces, single, is_double, compile, match_tool,
  match_path,
}
use mcp_gatekeeper.Glob.Language.{
  free, Glob, empty, plain, question, star, cross, parent, more_inv, is_double_inv, closes_inv,
  pieces→Glob,
}

-- What one character of the pattern takes.
module _ (aware : Bool) where
  single-literal : (c : ℕ) → c ≢ b'*' → c ≢ b'?' → single aware c ≡ literal c
  unfolding single
  single-literal c s q = ground arith

  Fits-literal : (c : ℕ) → c ≢ b'*' → c ≢ b'?' → Fits (single aware c) (c ∷ [])
  Fits-literal c s q = rw (single-literal c s q) refl

  double_stars : (s s' : ℕ) → aware ≡ true → s ≡ b'*' → s' ≡ b'*' → is_double aware s s' ≡ true
  unfolding is_double
  double_stars s s' a e e' = ground arith

  not_double : (c d : ℕ) → c ≢ b'*' → is_double aware c d ≡ false
  unfolding is_double
  not_double c d h = ground arith

  not_closes : (c : ℕ) (p : Text) → c ≢ slash → closes aware c p ≡ false
  unfolding closes
  not_closes c p h = ground arith

Fits-question : (aware : Bool) (c : ℕ) → free aware c ≡ true → Fits (single aware b'?') (c ∷ [])
unfolding single
Fits-question true c h = (c, h, refl)
Fits-question false c h = (c, refl)

Fits-star : (aware : Bool) (w : Text) → all (free aware) w ≡ true → Fits (single aware b'*') w
unfolding single
Fits-star true w h = h
Fits-star false w h = tt

-- The readings that the pieces leave out add nothing.
module _ (aware : Bool) where
  single-pieces :
      (c : ℕ) (p w v t : Text)
      → ((d : ℕ) → is_double aware c d ≡ false)
      → c ≢ slash
      → Fits (single aware c) w
      → Matches (pieces_of aware p) v
      → t ≡ w ++ v
      → Matches (pieces_of aware (c ∷ p)) t
  single-pieces c [] w v t h k fits m e =
      rw (pieces_last aware c) (more w v fits (rw (pieces_nil aware) at m) e)
  single-pieces c (d ∷ rest) w v t h k fits m e =
      rw (pieces_one aware c d rest (h d) (not_closes aware c (d ∷ rest) k)) (more w v fits m e)

  literal-pieces :
      (c : ℕ) (p t : Text)
      → c ≢ b'*'
      → c ≢ b'?'
      → Matches (pieces_of aware p) t
      → Matches (pieces_of aware (c ∷ p)) (c ∷ t)
  literal-pieces c [] t s q m =
      rw (pieces_last aware c)
        (more (c ∷ []) t (Fits-literal aware c s q) (rw (pieces_nil aware) at m) refl)
  literal-pieces c (d ∷ rest) t s q m = elim (Bool-cases (closes aware c (d ∷ rest))) [
    | inl k ↦ rw (pieces_close aware c d rest (not_double aware c d s) k) (
        more (c ∷ t) [] (inr (t, ap (λ (x : ℕ). x ∷ t) (closes_inv aware c (d ∷ rest) k).1)) done
          (sym (append-nil (c ∷ t))))
    | inr k ↦
        rw (pieces_one aware c d rest (not_double aware c d s) k)
          (more (c ∷ []) t (Fits-literal aware c s q) m refl)
  ]

mutual
  star-pieces :
      (p : Text) (aware : Bool) (w v t : Text)
      → all (free aware) w ≡ true
      → Matches (pieces_of aware p) v
      → t ≡ w ++ v
      → Matches (pieces_of aware (b'*' ∷ p)) t
  star-pieces [] aware w v t fits m e =
      rw (pieces_last aware b'*') (more w v (Fits-star aware w fits) (rw (pieces_nil aware) at m) e)
  star-pieces (d ∷ rest) aware w v t fits m e = elim (Bool-cases (is_double aware b'*' d)) [
    | inl h ↦
        let (a, _, s) = is_double_inv aware b'*' d h in
        let (w', v', _, m', e') = more_inv (star-open rest aware v a (rw s at m)) in
        rw (pieces_double aware b'*' d rest h)
          (more (w ++ w') v' tt m' (rw (e, e') (sym (append_assoc w w' v'))))
    | inr h ↦
        rw (pieces_one aware b'*' d rest h (not_closes aware b'*' (d ∷ rest) (λ x. omega arith)))
          (more w v (Fits-star aware w fits) m e)
  ]

  star-open :
      (p : Text) (aware : Bool) (v : Text)
      → aware ≡ true
      → Matches (pieces_of aware (b'*' ∷ p)) v
      → Matches (any_run ∷ pieces_of aware p) v
  star-open [] aware v a m =
      let (w, u, _, m', e) = more_inv (rw (pieces_last aware b'*') at m) in
      more w u tt (rw (pieces_nil aware) m') e
  star-open (d ∷ rest) aware v a m = elim (Bool-cases (is_double aware b'*' d)) [
    | inl h ↦
        let (_, _, s) = is_double_inv aware b'*' d h in
        let (w, v', _, m', e) = more_inv (rw (pieces_double aware b'*' d rest h) at m) in
        more w v' tt (rw s (star-pieces rest aware [] v' v' refl m' refl)) e
    | inr h ↦
        let (w, v', _, m', e) = more_inv (
          rw (pieces_one aware b'*' d rest h (not_closes aware b'*' (d ∷ rest) (λ x. omega arith)))
            at m) in
        more w v' tt m' e
  ]

parent-pieces : Matches (pieces_of true (codes "/**")) []
unfolding pieces_of text_eq
parent-pieces = more [] [] (inl refl) done refl

Glob→pieces : {aware : Bool} {p t : Text} → Glob aware p t → Matches (pieces_of aware p) t
Glob→pieces {aware} empty = rw (pieces_nil aware) done
Glob→pieces {aware} (plain {p} {t} c s q g) = literal-pieces aware c p t s q (Glob→pieces g)
Glob→pieces {aware} (question {p} {t} q c e ok g) = rw e (
    single-pieces aware b'?' p (c ∷ []) t (c ∷ t) (λ d. not_double aware b'?' d (λ x. omega arith))
      (λ x. omega arith) (Fits-question aware c ok) (Glob→pieces g) refl)
Glob→pieces {aware} (star {p} {t} s w v e fits g e') =
    rw e (star-pieces p aware w v t fits (Glob→pieces g) e')
Glob→pieces {aware} (cross {p} {t} s s' w v a e e' g e'') =
    rw (pieces_double aware s s' p (double_stars aware s s' a e e'))
      (more w v tt (Glob→pieces g) e'')
Glob→pieces (parent a e) = rw (a, e) parent-pieces

-- A match of the language, or one with a newline behind it, which the `$` of the expression allows.
abbrev pub Accepts : Bool → Text → Text → Type 0
Accepts aware p t = Glob aware p t ⊎ ((w : Text) × (t ≡ w ++ newline ∷ []) × Glob aware p w)

compile-Accepts :
    (aware : Bool) (p t : Text) → (match_pieces (compile aware p) t ≡ true) ↔ Accepts aware p t
compile-Accepts aware p t = rw (compile-pieces_of aware p) (to, from)
  where
    to : match_pieces (pieces_of aware p) t ≡ true → Accepts aware p t
    to h = elim ((match_pieces_iff (pieces_of aware p) t).0 h) [
      | inl m ↦ inl (pieces→Glob aware p t m)
      | inr (w, e, m) ↦ inr (w, e, pieces→Glob aware p w m)
    ]

    from : Accepts aware p t → match_pieces (pieces_of aware p) t ≡ true
    from (inl g) = (match_pieces_iff (pieces_of aware p) t).1 (inl (Glob→pieces g))
    from (inr (w, e, g)) = (match_pieces_iff (pieces_of aware p) t).1 (inr (w, e, Glob→pieces g))

-- A path pattern matches a value exactly when the value, or the value without one final newline,
-- is in the language of the pattern, where neither `?` nor `*` takes a slash, `**` takes anything
-- and a final "/**" takes the empty text too.
pub match_path_iff : (p t : Text) → (match_path p t ≡ true) ↔ Accepts true p t
unfolding match_path
match_path_iff p t = compile-Accepts true p t

-- A tool pattern matches a name exactly when the name, or the name without one final newline, is
-- in the language of the pattern, where `?` and `*` take any characters.
pub match_tool_iff : (p t : Text) → (match_tool p t ≡ true) ↔ Accepts false p t
unfolding match_tool
match_tool_iff p t = compile-Accepts false p t
