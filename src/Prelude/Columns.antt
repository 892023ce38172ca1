-- ===== src/Prelude/Columns.antt =====
-- What a column of the database is read back with: an enumeration by its value, and Python's moments.
use Prim.Native.Nat.{ℕ}
use mathlib.Core.Path.{◌≡◌}
use mathlib.Core.List.{List, [], ◌∷◌}
use mathlib.Core.Option.{Option, none, some}
use mcp_gatekeeper.Prelude.Codes.{Text, text_eq}
use mcp_gatekeeper.Prelude.Tests.{if◌then◌else◌}
use mcp_gatekeeper.Prelude.Results.{Result, ok, err}

-- The ValueError of a text that is no value of the type, and the JSONDecodeError.
pub data Unreadable : Type 0 where
  value_error decode_error : Unreadable

-- `Enum(text)`: the member of the value.
unfoldable pub member : {A : Type 0} → (A → Text) → List A → Text → Result Unreadable A
unfolding text_eq
member value [] text = err value_error
member value (a ∷ rest) text =
    let later = member value rest text in if text_eq (value a) text then ok a else later

-- `isoformat` and `datetime.fromisoformat`, none where it raises.
pub record Clock : Type 0 where
  pub isoformat : ℕ → Text
  pub fromisoformat : Text → Option ℕ

-- What Python documents of the two: a moment is read back, and the empty text is no moment.
pub record ReadsBack (c : Clock) : Type 0 where
  pub moment : (t : ℕ) → c.fromisoformat (c.isoformat t) ≡ some t
  pub empty : c.fromisoformat [] ≡ none

abbrev pub or_raise : {A : Type 0} → Unreadable → Option A → Result Unreadable A
or_raise e none = err e
or_raise e (some a) = ok a
