-- ===== src/Audit/Redact.antt =====
-- `redact_arguments` of audit/models.py.
use mcp_gatekeeper.Prelude.{
  ℕ, zero, suc, ◌+◌, ◌/◌, ◌%◌, List, [], ◌∷◌, ◌++◌, Bool, ◌&&◌, ◌==◌, ltb, if◌then◌else◌, Text,
  codes, truthy, map, any,
}
use mcp_gatekeeper.Json.{
  Value, null, boolean, number, string, array, object, Items, nil, cons, Fields, end, field,
}
use mcp_gatekeeper.Glob.{match_path, slash}

abbrev pub redacted : Value
redacted = string (codes "[redacted]")

-- `pattern.replace(".", "/")`.
unfoldable pub translate : Text → Text
translate [] = []
translate (c ∷ rest) = (if c == b'.' then slash else c) ∷ translate rest

-- `str(index)`: the decimal digits, on fuel that is above the number.
unfoldable pub decimal_from : ℕ → ℕ → Text
decimal_from zero n = []
decimal_from (suc fuel) n =
    let higher = decimal_from fuel (n / 10) in
    if ltb n 10 then (n + b'0') ∷ [] else higher ++ (n % 10 + b'0') ∷ []

unfoldable pub decimal : ℕ → Text
unfolding decimal_from
decimal n = decimal_from (suc n) n

abbrev pub key_path : Text → Text → Text
key_path [] key = key
key_path (c ∷ prefix) key = (c ∷ prefix) ++ slash ∷ key

abbrev pub index_path : Text → ℕ → Text
index_path prefix index = prefix ++ slash ∷ decimal index

-- `prefix and any(match_path(pattern, prefix) for pattern in translated)`.
unfoldable pub is_masked : List Text → Text → Bool
is_masked translated prefix = truthy prefix && any (λ p. match_path p prefix) translated

unfoldable mutual
  unfolding is_masked decimal

  pub redact : List Text → Value → Text → Value
  redact ps null prefix = if is_masked ps prefix then redacted else null
  redact ps (boolean b) prefix = if is_masked ps prefix then redacted else boolean b
  redact ps (number s) prefix = if is_masked ps prefix then redacted else number s
  redact ps (string s) prefix = if is_masked ps prefix then redacted else string s
  redact ps (array xs) prefix =
      if is_masked ps prefix then redacted else array (redact_items ps xs prefix 0)
  redact ps (object fs) prefix =
      if is_masked ps prefix then redacted else object (redact_fields ps fs prefix)

  pub redact_items : List Text → Items → Text → ℕ → Items
  redact_items ps nil prefix index = nil
  redact_items ps (cons x xs) prefix index =
      cons (redact ps x (index_path prefix index)) (redact_items ps xs prefix (index + 1))

  pub redact_fields : List Text → Fields → Text → Fields
  redact_fields ps end prefix = end
  redact_fields ps (field key v fs) prefix =
      field key (redact ps v (key_path prefix key)) (redact_fields ps fs prefix)

abbrev pub as_fields : Value → Fields
as_fields (object fs) = fs
as_fields _ = end

unfoldable pub redact_arguments : Fields → List Text → Fields
unfolding redact translate
redact_arguments arguments [] = arguments
redact_arguments arguments (p ∷ patterns) =
    as_fields (redact (map translate (p ∷ patterns)) (object arguments) [])
