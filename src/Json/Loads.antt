-- ===== src/Json/Loads.antt =====
-- `json.loads`, with which the arguments are read back from the database: the texts that `json.dumps` writes.
-- A key comes once in a mapping, as in all that `json.dumps` writes. Python's limit on the depth of recursion
-- is left out.
use mcp_gatekeeper.Prelude.{
  ℕ, zero, suc, ◌+◌, ◌-◌, ◌*◌, [], ◌∷◌, Bool, true, false, ◌&&◌, ◌||◌, ◌==◌, leb, ltb,
  if◌then◌else◌, Option, none, some, Text, codes, length,
}
use mcp_gatekeeper.Json.{
  Value, null, boolean, number, string, array, object, Items, nil, cons, Fields, end, field,
}

abbrev pub is_blank : ℕ → Bool
is_blank c = (c == 32) || (c == 9) || (c == 10) || (c == 13)

unfoldable pub skip_blank : Text → Text
skip_blank [] = []
skip_blank (c ∷ s) = let rest = skip_blank s in if is_blank c then rest else c ∷ s

-- The value of a hexadecimal digit, in either case.
abbrev pub hex_value : ℕ → ℕ
hex_value c = if ltb c b'A' then c - b'0' else if ltb c b'a' then c - 55 else c - 87

abbrev pub unit_of : ℕ → ℕ → ℕ → ℕ → ℕ
unit_of a b c d = hex_value a * 4096 + (hex_value b * 256 + (hex_value c * 16 + hex_value d))

-- The character after a backslash.
abbrev pub unescaped : ℕ → ℕ
unescaped c =
    if c == b'n'
    then 10
    else if c == b'r'
    then 13
    else if c == b't'
    then 9
    else if c == b'f'
    then 12
    else if c == b'b'
    then 8
    else c

abbrev pub push : ℕ → Option (Text × Text) → Option (Text × Text)
push c none = none
push c (some (s, rest)) = some (c ∷ s, rest)

-- The characters up to the closing quote, an escaped one as its unit, and what follows the quote.
unfoldable mutual
  pub read_chars : Text → Option (Text × Text)
  read_chars [] = none
  read_chars (c ∷ s) = elim (c == b'"') [
    | true ↦ some ([], s)
    | false ↦ elim (c == b'\\') [ true ↦ read_escape s | false ↦ push c (read_chars s) ]
  ]

  pub read_escape : Text → Option (Text × Text)
  read_escape [] = none
  read_escape (c ∷ s) = elim (c == b'u') [
    | true ↦ read_unit s
    | false ↦ push (unescaped c) (read_chars s)
  ]

  pub read_unit : Text → Option (Text × Text)
  read_unit (a ∷ b ∷ c ∷ d ∷ s) = push (unit_of a b c d) (read_chars s)
  read_unit _ = none

abbrev pub is_high : ℕ → Bool
is_high c = leb 0xD800 c && ltb c 0xDC00

abbrev pub is_low : ℕ → Bool
is_low c = leb 0xDC00 c && ltb c 0xE000

-- The character of two surrogates.
abbrev pub joined : ℕ → ℕ → ℕ
joined c d = 0x10000 + ((c - 0xD800) * 1024 + (d - 0xDC00))

-- A unit before a text whose surrogates are joined.
abbrev pub join_one : ℕ → Text → Text
join_one c [] = c ∷ []
join_one c (d ∷ s) = if is_high c && is_low d then joined c d ∷ s else c ∷ d ∷ s

unfoldable pub join_units : Text → Text
join_units [] = []
join_units (c ∷ s) = join_one c (join_units s)

abbrev pub is_number_char : ℕ → Bool
is_number_char c =
    (leb b'0' c && leb c b'9')
    || (c == b'-')
    || (c == b'+')
    || (c == b'.')
    || (c == b'e')
    || (c == b'E')

-- The longest run of characters of a number, and what follows it.
unfoldable pub read_number : Text → Text × Text
read_number [] = ([], [])
read_number (c ∷ s) =
    let (run, rest) = read_number s in if is_number_char c then (c ∷ run, rest) else ([], c ∷ s)

unfoldable pub after_prefix : Text → Text → Option Text
after_prefix [] s = some s
after_prefix (c ∷ p) [] = none
after_prefix (c ∷ p) (d ∷ s) = let rest = after_prefix p s in if c == d then rest else none

abbrev pub as_string : Option (Text × Text) → Option (Value × Text)
as_string none = none
as_string (some (units, rest)) = some (string (join_units units), rest)

abbrev pub as_literal : Value → Option Text → Option (Value × Text)
as_literal v none = none
as_literal v (some rest) = some (v, rest)

abbrev pub as_number : Text × Text → Option (Value × Text)
as_number ([], rest) = none
as_number (c ∷ run, rest) = some (number (c ∷ run), rest)

-- A value that is no mapping and no list, from its first character.
unfoldable pub read_scalar : ℕ → Text → Option (Value × Text)
unfolding read_chars join_units read_number after_prefix
read_scalar c s =
    if c == b'"'
    then as_string (read_chars s)
    else if c == b'n'
    then as_literal null (after_prefix (codes "ull") s)
    else if c == b't'
    then as_literal (boolean true) (after_prefix (codes "rue") s)
    else if c == b'f'
    then as_literal (boolean false) (after_prefix (codes "alse") s)
    else as_number (read_number (c ∷ s))

abbrev pub prepend : Value → Option (Items × Text) → Option (Items × Text)
prepend v none = none
prepend v (some (xs, rest)) = some (cons v xs, rest)

abbrev pub prepend_field : Text → Value → Option (Fields × Text) → Option (Fields × Text)
prepend_field k v none = none
prepend_field k v (some (fs, rest)) = some (field k v fs, rest)

abbrev pub as_array : Option (Items × Text) → Option (Value × Text)
as_array none = none
as_array (some (xs, rest)) = some (array xs, rest)

abbrev pub as_object : Option (Fields × Text) → Option (Value × Text)
as_object none = none
as_object (some (fs, rest)) = some (object fs, rest)

-- A key with its quotes, and what follows the colon.
unfoldable pub read_key : Text → Option (Text × Text)
unfolding read_chars skip_blank join_units
read_key [] = none
read_key (c ∷ s) =
    if c == b'"'
    then elim (read_chars s) [
      | none ↦ none
      | some (units, rest) ↦ elim (skip_blank rest) [
        | [] ↦ none
        | d ∷ t ↦ if d == b':' then some (join_units units, t) else none
      ]
    ]
    else none

-- One value, the items of a list up to its bracket, and those of a mapping up to its brace. The number bounds the
-- nesting and the items that are read.
unfoldable mutual
  unfolding skip_blank read_scalar read_key

  pub read_value : ℕ → Text → Option (Value × Text)
  read_value zero s = none
  read_value (suc n) s = elim (skip_blank s) [
    | [] ↦ none
    | c ∷ t ↦ elim (c == b'[') [
      | true ↦ elim (skip_blank t) [
        | [] ↦ none
        | d ∷ u ↦ elim (d == b']') [
          | true ↦ some (array nil, u)
          | false ↦ as_array (read_items n (d ∷ u))
        ]
      ]
      | false ↦ elim (c == b'{') [
        | true ↦ elim (skip_blank t) [
          | [] ↦ none
          | d ∷ u ↦ elim (d == b'}') [
            | true ↦ some (object end, u)
            | false ↦ as_object (read_fields n (d ∷ u))
          ]
        ]
        | false ↦ read_scalar c t
      ]
    ]
  ]

  pub read_items : ℕ → Text → Option (Items × Text)
  read_items zero s = none
  read_items (suc n) s = elim (read_value n s) [
    | none ↦ none
    | some (v, t) ↦ elim (skip_blank t) [
      | [] ↦ none
      | c ∷ u ↦ elim (c == b',') [
        | true ↦ prepend v (read_items n u)
        | false ↦ if c == b']' then some (cons v nil, u) else none
      ]
    ]
  ]

  pub read_fields : ℕ → Text → Option (Fields × Text)
  read_fields zero s = none
  read_fields (suc n) s = elim (read_key (skip_blank s)) [
    | none ↦ none
    | some (k, r) ↦ elim (read_value n r) [
      | none ↦ none
      | some (v, t) ↦ elim (skip_blank t) [
        | [] ↦ none
        | c ∷ u ↦ elim (c == b',') [
          | true ↦ prepend_field k v (read_fields n u)
          | false ↦ if c == b'}' then some (field k v end, u) else none
        ]
      ]
    ]
  ]

-- The whole text is one value.
abbrev pub whole : Option (Value × Text) → Option Value
unfolding skip_blank
whole none = none
whole (some (v, rest)) = elim (skip_blank rest) [ [] ↦ some v | c ∷ s ↦ none ]

unfoldable pub loads : Text → Option Value
unfolding read_value whole
loads s = whole (read_value (suc (length s)) s)
