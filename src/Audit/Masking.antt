-- ===== src/Audit/Masking.antt =====
-- What `redact_arguments` (audit/models.py) masks and what it keeps, value by value.
use mcp_gatekeeper.Prelude.{
  ℕ, zero, suc, ◌+◌, List, [], ◌∷◌, Bool, true, false, not, ◌&&◌, if◌then◌else◌, Text, map, Option,
  none, some, ◌≡◌, refl, sym, ap, ◌∙◌, ◌⊎◌, inl, inr, arith, Bool-cases, text_eq, text_eq_iff,
}
use mcp_gatekeeper.Audit.{AuditEvent}
use native.Mathlib.Nat.{add-zero, zero-add}
use mcp_gatekeeper.Json.{
  Value, null, boolean, number, string, array, object, Items, nil, cons, Fields, end, field, lookup,
}
use mcp_gatekeeper.Audit.Redact.{
  redacted, translate, key_path, index_path, is_masked, redact, redact_items, redact_fields,
  redact_arguments,
}

-- One step into a value, and the value that stands at the end of a path.
pub data Step : Type 0 where
  key : Text → Step
  index : ℕ → Step

abbrev pub item : ℕ → Items → Option Value
item i nil = none
item zero (cons x xs) = some x
item (suc i) (cons x xs) = item i xs

abbrev pub child : Step → Value → Option Value
child (key k) (object fs) = lookup k fs
child (index i) (array xs) = item i xs
child _ _ = none

abbrev pub step_into : Step → Option Value → Option Value
step_into s none = none
step_into s (some v) = child s v

abbrev pub at_path : List Step → Option Value → Option Value
at_path [] o = o
at_path (s ∷ path) o = at_path path (step_into s o)

-- The dotted path of a value as the redaction writes it, with slashes.
abbrev pub step_path : Text → Step → Text
step_path prefix (key k) = key_path prefix k
step_path prefix (index i) = index_path prefix i

abbrev pub render : Text → List Step → Text
render prefix [] = prefix
render prefix (s ∷ path) = render (step_path prefix s) path

abbrev map_value : (Value → Value) → Option Value → Option Value
map_value f none = none
map_value f (some v) = some (f v)

module _ (ps : List Text) where
  redact-masked :
      (v : Value) (prefix : Text) → is_masked ps prefix ≡ true → redact ps v prefix ≡ redacted
  unfolding redact
  redact-masked null prefix h = rw h
  redact-masked (boolean b) prefix h = rw h
  redact-masked (number s) prefix h = rw h
  redact-masked (string s) prefix h = rw h
  redact-masked (array xs) prefix h = rw h
  redact-masked (object fs) prefix h = rw h

  lookup-redact :
      (k : Text) (fs : Fields) (prefix : Text)
      → lookup k (redact_fields ps fs prefix)
        ≡ map_value (λ w. redact ps w (key_path prefix k)) (lookup k fs)
  unfolding lookup redact
  lookup-redact k end prefix = refl
  lookup-redact k (field j v fs) prefix = elim (Bool-cases (text_eq j k)) [
    | inl h ↦
        rw h (ap (λ (n : Text). some (redact ps v (key_path prefix n))) ((text_eq_iff j k).0 h))
    | inr h ↦ rw h (lookup-redact k fs prefix)
  ]

  item-redact :
      (i : ℕ) (xs : Items) (prefix : Text) (n : ℕ)
      → item i (redact_items ps xs prefix n)
        ≡ map_value (λ w. redact ps w (index_path prefix (n + i))) (item i xs)
  unfolding redact
  item-redact i nil prefix n = refl
  item-redact zero (cons x xs) prefix n =
      ap (λ (m : ℕ). some (redact ps x (index_path prefix m))) (sym (add-zero n))
  item-redact (suc i) (cons x xs) prefix n =
      item-redact i xs prefix (n + 1) ∙ shift (n + 1 + i) (n + suc i) (omega arith) (item i xs)
    where
      shift :
          (a b : ℕ)
          → a ≡ b
          → (o : Option Value)
          → map_value (λ w. redact ps w (index_path prefix a)) o
            ≡ map_value (λ w. redact ps w (index_path prefix b)) o
      shift a b e o = rw e

  child-redact :
      (s : Step) (v : Value) (prefix : Text)
      → is_masked ps prefix ≡ false
      → child s (redact ps v prefix) ≡ map_value (λ w. redact ps w (step_path prefix s)) (child s v)
  unfolding redact
  child-redact (key k) (object fs) prefix h = rw h (lookup-redact k fs prefix)
  child-redact (index i) (array xs) prefix h = rw h (
      item-redact i xs prefix 0
      ∙ ap (λ (m : ℕ). map_value (λ w. redact ps w (index_path prefix m)) (item i xs)) (zero-add i))
  child-redact _ _ prefix h = rw h

-- What a reader finds at a path is nothing, or the mask.
abbrev pub IsHidden : Option Value → Type 0
IsHidden o = (o ≡ none) ⊎ (o ≡ some redacted)

child-redacted : (s : Step) → child s redacted ≡ none
child-redacted (key k) = refl
child-redacted (index i) = refl

-- A value that holds no others.
abbrev pub is_scalar : Value → Bool
is_scalar (array xs) = false
is_scalar (object fs) = false
is_scalar _ = true

at_path-none : (path : List Step) → at_path path none ≡ none
at_path-none [] = refl
at_path-none (s ∷ path) = at_path-none path

module _ (ps : List Text) where
  step-redact :
      (s : Step) (o : Option Value) (prefix : Text)
      → is_masked ps prefix ≡ false
      → step_into s (map_value (λ w. redact ps w prefix) o)
        ≡ map_value (λ w. redact ps w (step_path prefix s)) (step_into s o)
  step-redact s none prefix h = refl
  step-redact s (some v) prefix h = child-redact ps s v prefix h

  step-masked :
      (s : Step) (o : Option Value) (prefix : Text)
      → is_masked ps prefix ≡ true
      → step_into s (map_value (λ w. redact ps w prefix) o) ≡ none
  step-masked s none prefix h = refl
  step-masked s (some v) prefix h = rw (redact-masked ps v prefix h) (child-redacted s)

  redact-IsHidden :
      (path : List Step) (o : Option Value) (prefix : Text)
      → is_masked ps (render prefix path) ≡ true
      → IsHidden (at_path path (map_value (λ w. redact ps w prefix) o))
  redact-IsHidden [] none prefix h = inl refl
  redact-IsHidden [] (some v) prefix h = inr (ap some (redact-masked ps v prefix h))
  redact-IsHidden (s ∷ path) o prefix h = elim (Bool-cases (is_masked ps prefix)) [
    | inl m ↦ inl (rw (step-masked s o prefix m) (at_path-none path))
    | inr m ↦
        rw (step-redact s o prefix m) (redact-IsHidden path (step_into s o) (step_path prefix s) h)
  ]

  -- No value on the way to the path is masked; its end may be.
  abbrev pub is_open : List Step → Text → Bool
  is_open [] prefix = true
  is_open (s ∷ path) prefix = not (is_masked ps prefix) && is_open path (step_path prefix s)

  at_path-redact :
      (path : List Step) (o : Option Value) (prefix : Text)
      → is_open path prefix ≡ true
      → at_path path (map_value (λ w. redact ps w prefix) o)
        ≡ map_value (λ w. redact ps w (render prefix path)) (at_path path o)
  at_path-redact [] o prefix h = refl
  at_path-redact (s ∷ path) o prefix h =
      rw (step-redact s o prefix (ground arith))
        (at_path-redact path (step_into s o) (step_path prefix s) (ground arith))

  redact-scalar :
      (v : Value) (prefix : Text)
      → is_scalar v ≡ true
      → redact ps v prefix ≡ (if is_masked ps prefix then redacted else v)
  unfolding redact
  redact-scalar (array xs) prefix h = cc
  redact-scalar (object fs) prefix h = cc
  redact-scalar null prefix h = refl
  redact-scalar _ prefix h = refl

-- The stored arguments as one value, and the patterns as the redaction reads them.
abbrev pub stored : Fields → List Text → Option Value
stored arguments patterns = some (object (redact_arguments arguments patterns))

pub no_patterns : (prefix : Text) → is_masked [] prefix ≡ false
unfolding is_masked
no_patterns prefix = ground arith

stored-redact :
    (arguments : Fields) (p : Text) (patterns : List Text)
    → stored arguments (p ∷ patterns)
      ≡ map_value (λ w. redact (map translate (p ∷ patterns)) w []) (some (object arguments))
unfolding redact_arguments redact
stored-redact arguments p patterns = refl

-- A reader of the masked arguments finds the mask at a path that matches a pattern, or nothing.
pub redact_arguments-IsHidden :
    (arguments : Fields) (patterns : List Text) (path : List Step)
    → is_masked (map translate patterns) (render [] path) ≡ true
    → IsHidden (at_path path (stored arguments patterns))
redact_arguments-IsHidden arguments [] path h =
    absurd (ground (arith, no_patterns (render [] path)))
redact_arguments-IsHidden arguments (p ∷ patterns) path h =
    rw (stored-redact arguments p patterns)
      (redact-IsHidden (map translate (p ∷ patterns)) path (some (object arguments)) [] h)

-- A scalar is stored as it was sent where neither its path nor that of a value which holds it
-- matches a pattern, and it is stored as the mask where its own path does.
pub redact_arguments-scalar :
    (arguments : Fields) (patterns : List Text) (path : List Step) (v : Value)
    → is_open (map translate patterns) path [] ≡ true
    → at_path path (some (object arguments)) ≡ some v
    → is_scalar v ≡ true
    → at_path path (stored arguments patterns)
      ≡ some (if is_masked (map translate patterns) (render [] path) then redacted else v)
unfolding redact_arguments
redact_arguments-scalar arguments [] path v o e s = e ∙ ap some (rw (no_patterns (render [] path)))
redact_arguments-scalar arguments (p ∷ patterns) path v o e s =
    let ps = map translate (p ∷ patterns) in
    ap (at_path path) (stored-redact arguments p patterns)
    ∙ at_path-redact ps path (some (object arguments)) [] o
    ∙ ap (map_value (λ w. redact ps w (render [] path))) e
    ∙ ap some (redact-scalar ps v (render [] path) s)

-- The arguments of an event as one value.
abbrev pub shown : AuditEvent → Option Value
shown event = some (object event.arguments)
