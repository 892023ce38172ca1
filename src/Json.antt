-- ===== src/Json.antt =====
-- Argument values as the client sends them. A number is kept as the text that Python's `str`
-- gives it: the program never computes with one. An object keeps its keys in insertion order.
pub mod Dumps
pub mod Printable
pub mod Loads
pub mod Reading
pub mod Encodable
pub mod Nesting
pub mod RoundTrip
mod Tests
use mcp_gatekeeper.Prelude.{Bool, Option, none, some, if◌then◌else◌, Text, text_eq}

mutual
  pub data Value : Type 0 where
    null : Value
    boolean : Bool → Value
    number : Text → Value
    string : Text → Value
    array : Items → Value
    object : Fields → Value

  pub data Items : Type 0 where
    nil : Items
    cons : Value → Items → Items

  pub data Fields : Type 0 where
    end : Fields
    field : Text → Value → Fields → Fields

-- `mapping[key]`, none where `key not in mapping`.
unfoldable pub lookup : Text → Fields → Option Value
lookup key end = none
lookup key (field k v rest) = if text_eq k key then some v else lookup key rest
