-- ===== src/Json/Dumps.antt =====
-- `json.dumps(value, sort_keys=True)`, with which events are exported: one line of ASCII.
use mcp_gatekeeper.Prelude.{
  ℕ, ◌+◌, ◌-◌, ◌/◌, ◌%◌, [], ◌∷◌, ◌++◌, Bool, true, false, ◌&&◌, ◌==◌, leb, ltb, if◌then◌else◌,
  Text, codes, text_lt,
}
use mcp_gatekeeper.Json.{
  Value, null, boolean, number, string, array, object, Items, nil, cons, Fields, end, field,
}

-- A hexadecimal digit, and the four of `\uXXXX`.
abbrev pub hex_digit : ℕ → ℕ
hex_digit d = if ltb d 10 then d + b'0' else d + 87

abbrev pub unicode_escape : ℕ → Text
unicode_escape n =
    b'\\'
    ∷ b'u'
    ∷ hex_digit (n / 4096 % 16)
    ∷ hex_digit (n / 256 % 16)
    ∷ hex_digit (n / 16 % 16)
    ∷ hex_digit (n % 16)
    ∷ []

-- A code point beyond the first plane, as its two surrogates.
abbrev pub surrogates : ℕ → Text
surrogates n = unicode_escape (0xD800 + n / 1024 % 1024) ++ unicode_escape (0xDC00 + n % 1024)

abbrev pub is_printable : ℕ → Bool
is_printable c = leb 32 c && leb c 126

-- One character inside the quotes.
unfoldable pub escape : ℕ → Text
escape c =
    if c == b'"'
    then codes "\\\""
    else if c == b'\\'
    then codes "\\\\"
    else if is_printable c
    then c ∷ []
    else if c == 10
    then codes "\\n"
    else if c == 13
    then codes "\\r"
    else if c == 9
    then codes "\\t"
    else if c == 12
    then codes "\\f"
    else if c == 8
    then codes "\\b"
    else if ltb c 0x10000
    then unicode_escape c
    else surrogates (c - 0x10000)

unfoldable pub escaped : Text → Text
unfolding escape
escaped [] = []
escaped (c ∷ s) = escape c ++ escaped s

abbrev pub quoted : Text → Text
quoted s = b'"' ∷ escaped s ++ b'"' ∷ []

-- The items of a mapping, put in the order of their keys.
unfoldable pub insert_field : Text → Value → Fields → Fields
unfolding text_lt
insert_field k v end = field k v end
insert_field k v (field j w fs) =
    if text_lt j k then field j w (insert_field k v fs) else field k v (field j w fs)

unfoldable mutual
  unfolding insert_field

  pub sort_keys : Value → Value
  sort_keys (array xs) = array (sort_items xs)
  sort_keys (object fs) = object (sort_fields fs)
  sort_keys null = null
  sort_keys (boolean b) = boolean b
  sort_keys (number s) = number s
  sort_keys (string s) = string s

  pub sort_items : Items → Items
  sort_items nil = nil
  sort_items (cons x xs) = cons (sort_keys x) (sort_items xs)

  pub sort_fields : Fields → Fields
  sort_fields end = end
  sort_fields (field k v fs) = insert_field k (sort_keys v) (sort_fields fs)

unfoldable mutual
  unfolding escaped

  pub dump : Value → Text
  dump null = codes "null"
  dump (boolean true) = codes "true"
  dump (boolean false) = codes "false"
  dump (number s) = s
  dump (string s) = quoted s
  dump (array nil) = codes "[]"
  dump (array (cons x xs)) = b'[' ∷ dump x ++ more_items xs
  dump (object end) = codes "{}"
  dump (object (field k v fs)) = b'{' ∷ quoted k ++ (codes ": " ++ (dump v ++ more_fields fs))

  pub more_items : Items → Text
  more_items nil = b']' ∷ []
  more_items (cons x xs) = codes ", " ++ (dump x ++ more_items xs)

  pub more_fields : Fields → Text
  more_fields end = b'}' ∷ []
  more_fields (field k v fs) =
      codes ", " ++ (quoted k ++ (codes ": " ++ (dump v ++ more_fields fs)))

unfoldable pub dumps : Value → Text
unfolding sort_keys dump
dumps v = dump (sort_keys v)
