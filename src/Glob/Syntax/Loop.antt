-- ===== src/Glob/Syntax/Loop.antt =====
-- The loop of `_compile` (policy/glob.py), which patches the last entry of `out`, appends the pieces
-- of the pattern.
use mcp_gatekeeper.Prelude.{
  ℕ, List, [], ◌∷◌, ◌++◌, append_assoc, append-nil, Bool, true, false, ◌≡◌, ◌≢◌, refl, ap, ◌∙◌, inl,
  inr, arith, ◌==◌, ==_iff, Text, Bool-cases, text_eq, if◌then◌else◌,
}
use mcp_gatekeeper.Glob.{
  Piece, literal, any_run, under, slash, single, ends_in_slash, set_last, double_star, compile_loop,
  compile, is_nil, is_double,
}
use mcp_gatekeeper.Glob.Syntax.{
  closes, pieces_of, pieces_nil, loop_double, loop_one, pieces_double, pieces_close, pieces_one,
  not_closes,
}

ends_in_slash-append :
    (out : List Piece) (x : Piece) → ends_in_slash (out ++ x ∷ []) ≡ ends_in_slash (x ∷ [])
unfolding ends_in_slash
ends_in_slash-append [] x = refl
ends_in_slash-append (y ∷ []) x = refl
ends_in_slash-append (y ∷ z ∷ out) x = ends_in_slash-append (z ∷ out) x

set_last-append : (out : List Piece) (x y : Piece) → set_last (out ++ x ∷ []) y ≡ out ++ y ∷ []
unfolding set_last
set_last-append [] x y = refl
set_last-append (z ∷ []) x y = refl
set_last-append (z ∷ w ∷ out) x y = ap (λ (l : List Piece). z ∷ l) (set_last-append (w ∷ out) x y)

ends_in_slash-single :
    (aware : Bool) (c : ℕ) → c ≢ slash → ends_in_slash (single aware c ∷ []) ≡ false
unfolding ends_in_slash single
ends_in_slash-single aware c h = ground arith

single-slash : (aware : Bool) → single aware slash ≡ literal slash
unfolding single
single-slash aware = refl

double_star-plain :
    (last : Bool) (out : List Piece)
    → ends_in_slash out ≡ false
    → double_star last out ≡ out ++ any_run ∷ []
double_star-plain last out h = unfold double_star in rw h

double_star-slash :
    (last : Bool) (out : List Piece)
    → double_star last (out ++ literal slash ∷ [])
      ≡ (if last then out ++ under ∷ [] else (out ++ literal slash ∷ []) ++ any_run ∷ [])
unfolding double_star
double_star-slash true out = rw ends_in_slash-append (set_last-append out (literal slash) under)
double_star-slash false out = rw ends_in_slash-append refl

-- What the loop appends, once `out` ends in no slash and once behind a slash.
Loops : Bool → Text → Type 0
Loops aware p =
    (out : List Piece)
    → (ends_in_slash out ≡ false → compile_loop aware p out ≡ out ++ pieces_of aware p)
      × (compile_loop aware p (out ++ literal slash ∷ []) ≡ out ++ pieces_of aware (slash ∷ p))

slash_not_double : (aware : Bool) (c : ℕ) → is_double aware slash c ≡ false
unfolding is_double
slash_not_double aware c = ground arith

last-slash :
    (aware : Bool) (c : ℕ) (out : List Piece)
    → compile_loop aware (c ∷ []) (out ++ literal slash ∷ [])
      ≡ out ++ pieces_of aware (slash ∷ c ∷ [])
unfolding compile_loop pieces_of text_eq
last-slash aware c out = ground (arith, append_assoc out (literal slash ∷ []) (single aware c ∷ []))

closes_two :
    (aware : Bool) (c d : ℕ) → is_double aware c d ≡ true → closes aware slash (c ∷ d ∷ []) ≡ true
unfolding closes is_double text_eq
closes_two aware c d h = ground arith

closes_three :
    (aware : Bool) (c d x : ℕ) (rest : Text) → closes aware slash (c ∷ d ∷ x ∷ rest) ≡ false
unfolding closes text_eq
closes_three aware c d x rest = ground arith

closes_other :
    (aware : Bool) (c : ℕ) (rest : Text) → (c == slash) ≡ false → closes aware c rest ≡ false
unfolding closes
closes_other aware c rest h = ground arith

not_slash : (c : ℕ) → (c == slash) ≡ false → c ≢ slash
not_slash c h = ground arith

loop_nil : (aware : Bool) (out : List Piece) → compile_loop aware [] out ≡ out
unfolding compile_loop
loop_nil aware out = refl

ends_any : ends_in_slash (any_run ∷ []) ≡ false
unfolding ends_in_slash
ends_any = refl

abbrev Done : Bool → Text → List Piece → Type 0
Done aware p out = compile_loop aware p out ≡ out ++ pieces_of aware p

abbrev DoneSlash : Bool → Text → List Piece → Type 0
DoneSlash aware p out =
    compile_loop aware p (out ++ literal slash ∷ []) ≡ out ++ pieces_of aware (slash ∷ p)

-- The two cases of a step: a doubled star, and one character.
module _ (aware : Bool) (c d : ℕ) (h : is_double aware c d ≡ true) where
  double-plain :
      (rest : Text) (out : List Piece)
      → Loops aware rest
      → ends_in_slash out ≡ false
      → Done aware (c ∷ d ∷ rest) out
  unfolding Loops
  double-plain rest out ih e = cc (
    loop_double aware c d rest out h,
    pieces_double aware c d rest h,
    double_star-plain (is_nil rest) out e,
    (ih (out ++ any_run ∷ [])).0 (ends_in_slash-append out any_run ∙ ends_any),
    append_assoc out (any_run ∷ []) (pieces_of aware rest),
  )

  double-slash :
      (rest : Text) (out : List Piece) → Loops aware rest → DoneSlash aware (c ∷ d ∷ rest) out
  unfolding Loops
  double-slash [] out ih = cc (
    loop_double aware c d [] (out ++ literal slash ∷ []) h,
    double_star-slash true out,
    loop_nil aware (out ++ under ∷ []),
    pieces_close aware slash c (d ∷ []) (slash_not_double aware c) (closes_two aware c d h),
  )
  double-slash (x ∷ rest) out ih =
      let out' = out ++ literal slash ∷ [] in
      cc (
        loop_double aware c d (x ∷ rest) out' h,
        double_star-slash false out,
        (ih (out' ++ any_run ∷ [])).0 (ends_in_slash-append out' any_run ∙ ends_any),
        pieces_one aware slash c (d ∷ x ∷ rest) (slash_not_double aware c)
            (closes_three aware c d x rest),
        pieces_double aware c d (x ∷ rest) h,
        single-slash aware,
        append_assoc out' (any_run ∷ []) (pieces_of aware (x ∷ rest)),
        append_assoc out (literal slash ∷ []) (any_run ∷ pieces_of aware (x ∷ rest)),
      )

module _ (aware : Bool) (c d : ℕ) (rest : Text) (h : is_double aware c d ≡ false)
    (ih : Loops aware (d ∷ rest)) where
  one-plain : (out : List Piece) → Done aware (c ∷ d ∷ rest) out
  unfolding Loops
  one-plain out = elim (Bool-cases (c == slash)) [
    | inl s ↦
        let c_slash : c ≡ slash = (==_iff c slash).0 s in
        rw c_slash (
          cc (
            loop_one aware slash d rest out (slash_not_double aware d),
            single-slash aware,
            (ih out).1,
          ))
    | inr s ↦ cc (
      loop_one aware c d rest out h,
      (ih (out ++ single aware c ∷ [])).0 (
          ends_in_slash-append out (single aware c) ∙ ends_in_slash-single aware c (not_slash c s)),
      pieces_one aware c d rest h (closes_other aware c (d ∷ rest) s),
      append_assoc out (single aware c ∷ []) (pieces_of aware (d ∷ rest)),
    )
  ]

  one-slash : (out : List Piece) → DoneSlash aware (c ∷ d ∷ rest) out
  one-slash out =
      let out' = out ++ literal slash ∷ [] in
      let open_slash : pieces_of aware (slash ∷ c ∷ d ∷ rest)
          ≡ literal slash ∷ pieces_of aware (c ∷ d ∷ rest) =
        cc (
          pieces_one aware slash c (d ∷ rest) (slash_not_double aware c)
              (not_closes aware c d rest h),
          single-slash aware,
        ) in
      cc (
        one-plain out',
        open_slash,
        append_assoc out (literal slash ∷ []) (pieces_of aware (c ∷ d ∷ rest)),
      )

compile_loop-pieces : (aware : Bool) (p : Text) → Loops aware p
unfolding Loops
compile_loop-pieces aware [] out = (
  λ h. cc (loop_nil aware out, pieces_nil aware, append-nil out),
  unfold compile_loop pieces_of in refl,
)
compile_loop-pieces aware (c ∷ []) out =
    (λ h. unfold compile_loop pieces_of in refl, last-slash aware c out)
compile_loop-pieces aware (c ∷ d ∷ rest) out = elim (Bool-cases (is_double aware c d)) [
  | inl h ↦ (
    double-plain aware c d h rest out (compile_loop-pieces aware rest),
    double-slash aware c d h rest out (compile_loop-pieces aware rest),
  )
  | inr h ↦ (
    λ _. one-plain aware c d rest h (compile_loop-pieces aware (d ∷ rest)) out,
    one-slash aware c d rest h (compile_loop-pieces aware (d ∷ rest)) out,
  )
]

pub compile-pieces_of : (aware : Bool) (p : Text) → compile aware p ≡ pieces_of aware p
unfolding Loops compile ends_in_slash
compile-pieces_of aware p = (compile_loop-pieces aware p []).0 refl
