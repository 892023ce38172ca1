-- ===== src/Glob/Syntax.antt =====
-- The pieces of a glob pattern read off its text with no accumulator, and the steps of this
-- reading and of the loop of `_compile` (policy/glob.py).
pub mod Loop
use mcp_gatekeeper.Prelude.{
  ℕ, List, [], ◌∷◌, ◌++◌, append_assoc, append-nil, Bool, true, false, not, ◌&&◌, ◌||◌, ◌≡◌, ◌≢◌,
  refl, sym, ap, ◌∙◌, ◌↔◌, ◌⊎◌, inl, inr, arith, ◌==◌, ==_iff, Text, codes, all, Bool-cases,
  text_eq, text_eq_iff, if◌then◌else◌,
}
use mcp_gatekeeper.Glob.Meaning.{Matches, done, more, Fits, match_pieces_iff}
use mcp_gatekeeper.Glob.{
  Piece, literal, segment_char, any_char, segment_run, any_run, under, slash, newline, match_pieces,
  single, ends_in_slash, set_last, double_star, compile_loop, compile, is_nil, is_double,
}

-- A slash that a final "/**" opens.
unfoldable pub closes : Bool → ℕ → Text → Bool
closes aware c rest = aware && (c == slash) && text_eq rest (codes "**")

-- The pieces of a pattern with no accumulator: a final "/**" is seen before its slash is taken.
unfoldable pub pieces_of : Bool → Text → List Piece
unfolding single is_double closes
pieces_of aware [] = []
pieces_of aware (c ∷ []) = single aware c ∷ []
pieces_of aware (c ∷ d ∷ rest) =
    let after = pieces_of aware rest in
    let next = pieces_of aware (d ∷ rest) in
    if is_double aware c d
    then any_run ∷ after
    else if closes aware c (d ∷ rest)
    then under ∷ []
    else single aware c ∷ next

-- The two functions, one step at a time.
module _ (aware : Bool) (c d : ℕ) (rest : Text) where
  pub loop_double :
      (out : List Piece)
      → is_double aware c d ≡ true
      → compile_loop aware (c ∷ d ∷ rest) out
        ≡ compile_loop aware rest (double_star (is_nil rest) out)
  loop_double out h = unfold compile_loop in rw h

  pub loop_one :
      (out : List Piece)
      → is_double aware c d ≡ false
      → compile_loop aware (c ∷ d ∷ rest) out
        ≡ compile_loop aware (d ∷ rest) (out ++ single aware c ∷ [])
  loop_one out h = unfold compile_loop in rw h

  pub pieces_double :
      is_double aware c d ≡ true → pieces_of aware (c ∷ d ∷ rest) ≡ any_run ∷ pieces_of aware rest
  pieces_double h = unfold pieces_of in rw h

  pub pieces_close :
      is_double aware c d ≡ false
      → closes aware c (d ∷ rest) ≡ true
      → pieces_of aware (c ∷ d ∷ rest) ≡ under ∷ []
  pieces_close h k = unfold pieces_of in rw (h, k)

  pub pieces_one :
      is_double aware c d ≡ false
      → closes aware c (d ∷ rest) ≡ false
      → pieces_of aware (c ∷ d ∷ rest) ≡ single aware c ∷ pieces_of aware (d ∷ rest)
  pieces_one h k = unfold pieces_of in rw (h, k)

  pub closes_double : closes aware slash (c ∷ d ∷ rest) ≡ true → is_double aware c d ≡ true
  unfolding closes is_double text_eq
  closes_double h = ground arith

  pub not_closes : is_double aware c d ≡ false → closes aware slash (c ∷ d ∷ rest) ≡ false
  unfolding closes is_double text_eq
  not_closes h = ground arith

pub pieces_nil : (aware : Bool) → pieces_of aware [] ≡ []
unfolding pieces_of
pieces_nil aware = refl

pub pieces_last : (aware : Bool) (c : ℕ) → pieces_of aware (c ∷ []) ≡ single aware c ∷ []
unfolding pieces_of
pieces_last aware c = refl
