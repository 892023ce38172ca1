-- ===== src/Glob.antt =====
-- policy/glob.py: patterns compiled to anchored regular expressions, and their matching.
-- A compiled expression is the list of the pieces that `_compile` joins, each with the meaning that
-- Python's `re` gives it under DOTALL.
mod Pieces
pub mod Meaning
pub mod Syntax
pub mod Language
pub mod Prefix
pub mod Laws
mod Tests
use mcp_gatekeeper.Prelude.{
  ℕ, List, [], ◌∷◌, ◌++◌, Bool, true, false, not, ◌&&◌, Option, none, some, ◌==◌, if◌then◌else◌,
  Text, codes,
}
use mcp_gatekeeper.Json.{Value, null, boolean, number, string, array, object}
pub use Pieces.{Piece, literal, segment_char, any_char, segment_run, any_run, under, slash, newline}
unfoldable pub use Pieces.{match_pieces}

-- What one character of the pattern appends to `out`, away from a doubled star.
unfoldable pub single : Bool → ℕ → Piece
single separator_aware c =
    if c == b'*'
    then (if separator_aware then segment_run else any_run)
    else if c == b'?'
    then (if separator_aware then segment_char else any_char)
    else literal c

-- `out[-1] == "/"`, false of an empty `out`.
unfoldable pub ends_in_slash : List Piece → Bool
ends_in_slash [] = false
ends_in_slash (literal c ∷ []) = c == slash
ends_in_slash (x ∷ []) = false
ends_in_slash (x ∷ y ∷ out) = ends_in_slash (y ∷ out)

-- `out[-1] = piece`.
unfoldable pub set_last : List Piece → Piece → List Piece
set_last [] piece = []
set_last (x ∷ []) piece = piece ∷ []
set_last (x ∷ y ∷ out) piece = x ∷ set_last (y ∷ out) piece

abbrev pub is_nil {ℓ} : {A : Type ℓ} → List A → Bool
is_nil [] = true
is_nil (x ∷ xs) = false

-- A doubled star; the first argument is `i + 2 == end`.
unfoldable pub double_star : Bool → List Piece → List Piece
unfolding ends_in_slash set_last
double_star at_end out =
    if ends_in_slash out && at_end then set_last out under else out ++ any_run ∷ []

-- `separator_aware and ... pattern[i] == "*" and pattern[i + 1] == "*"`.
unfoldable pub is_double : Bool → ℕ → ℕ → Bool
is_double separator_aware c d = separator_aware && (c == b'*') && (d == b'*')

-- The loop of `_compile`: the text from `i` on, and `out`.
unfoldable pub compile_loop : Bool → Text → List Piece → List Piece
unfolding single double_star is_double
compile_loop separator_aware [] out = out
compile_loop separator_aware (c ∷ []) out = out ++ single separator_aware c ∷ []
compile_loop separator_aware (c ∷ d ∷ rest) out =
    let doubled = compile_loop separator_aware rest (double_star (is_nil rest) out) in
    let one = compile_loop separator_aware (d ∷ rest) (out ++ single separator_aware c ∷ []) in
    if is_double separator_aware c d then doubled else one

unfoldable pub compile : Bool → Text → List Piece
unfolding compile_loop
compile separator_aware pattern_text = compile_loop separator_aware pattern_text []

unfoldable pub match_tool : Text → Text → Bool
unfolding compile match_pieces
match_tool pattern_text name = match_pieces (compile false pattern_text) name

unfoldable pub match_path : Text → Text → Bool
unfolding compile match_pieces
match_path pattern_text value = match_pieces (compile true pattern_text) value

-- How a scalar is written for a pattern; none of a container.
unfoldable pub canonical_value : Value → Option Text
canonical_value (boolean true) = some (codes "true")
canonical_value (boolean false) = some (codes "false")
canonical_value null = some (codes "null")
canonical_value (string s) = some s
canonical_value (number s) = some s
canonical_value (array xs) = none
canonical_value (object fs) = none
