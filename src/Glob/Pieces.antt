-- ===== src/Glob/Pieces.antt =====
-- The pieces of a compiled pattern, and the search of `re.Pattern.match` for `^pieces$`.
use mcp_gatekeeper.Prelude.{ℕ, List, [], ◌∷◌, Bool, true, false, not, ◌&&◌, ◌||◌, ◌==◌, Text}

abbrev pub slash : ℕ
slash = b'/'

abbrev pub newline : ℕ
newline = 10

-- re.escape(char) and "/"; "[^/]" and "."; "[^/]*" and ".*"; "(?:/.*)?".
pub data Piece : Type 0 where
  literal : ℕ → Piece
  segment_char any_char segment_run any_run under : Piece

-- `$` with no MULTILINE: the end of the text, or the place before a newline that ends it.
unfoldable pub at_end : Text → Bool
at_end [] = true
at_end (c ∷ []) = c == newline
at_end (c ∷ d ∷ v) = false

abbrev pub one : (ℕ → Bool) → (Text → Bool) → Text → Bool
one accepts next [] = false
one accepts next (c ∷ v) = accepts c && next v

-- `x*`: any number of accepted characters, then the rest of the expression.
unfoldable pub run : (ℕ → Bool) → (Text → Bool) → Text → Bool
run accepts next [] = next []
run accepts next (c ∷ v) = let longer = run accepts next v in next (c ∷ v) || (accepts c && longer)

unfoldable pub step : Piece → (Text → Bool) → Text → Bool
unfolding run
step (literal x) next v = one (λ c. c == x) next v
step segment_char next v = one (λ c. not (c == slash)) next v
step any_char next v = one (λ c. true) next v
step segment_run next v = run (λ c. not (c == slash)) next v
step any_run next v = run (λ c. true) next v
step under next v = next v || one (λ c. c == slash) (run (λ c. true) next) v

-- Whether some way to spend the text on the pieces ends at `$`.
unfoldable pub match_pieces : List Piece → Text → Bool
unfolding at_end step
match_pieces [] v = at_end v
match_pieces (x ∷ pieces) v = step x (match_pieces pieces) v
