-- ===== src/Json/Encodable.antt =====
-- Which values JSON text can hold, and the texts, numbers and keys of them that are read back.
use mcp_gatekeeper.Prelude.{
  ℕ, [], ◌∷◌, ◌++◌, append_assoc, Bool, true, false, ◌&&◌, ◌||◌, ◌==◌, leb, not, some, Text, all,
  ◌≡◌, refl, ap, ◌∙◌, arith,
}
use mcp_gatekeeper.Json.{
  Value, null, boolean, number, string, array, object, Items, nil, cons, Fields, end, field,
}
use mcp_gatekeeper.Json.Dumps.{escaped, quoted}
use mcp_gatekeeper.Json.Loads.{
  skip_blank, is_number_char, read_number, as_string, as_number, read_scalar, read_key,
}
use mcp_gatekeeper.Json.Reading.{is_scalar, escaped-read, join-all}

-- Python's text of a number that is finite: its characters, a digit or a sign first.
abbrev pub is_number : Text → Bool
is_number [] = false
is_number (c ∷ s) = ((leb b'0' c && leb c b'9') || (c == b'-')) && all is_number_char s

-- Texts that UTF-8 can write, and finite numbers.
unfoldable mutual
  pub encodable : Value → Bool
  encodable null = true
  encodable (boolean b) = true
  encodable (number s) = is_number s
  encodable (string s) = all is_scalar s
  encodable (array xs) = items_encodable xs
  encodable (object fs) = fields_encodable fs

  pub items_encodable : Items → Bool
  items_encodable nil = true
  items_encodable (cons x xs) = encodable x && items_encodable xs

  pub fields_encodable : Fields → Bool
  fields_encodable end = true
  fields_encodable (field k v fs) = all is_scalar k && (encodable v && fields_encodable fs)

-- A text that ends a number.
abbrev pub stops : Text → Bool
stops [] = true
stops (c ∷ s) = not (is_number_char c)

pub read_number-stop :
    (s t : Text) → all is_number_char s ≡ true → stops t ≡ true → read_number (s ++ t) ≡ (s, t)
unfolding read_number
read_number-stop [] [] h k = refl
read_number-stop [] (c ∷ t) h k = rw (low c k, read_number) refl
  where
    low : (c : ℕ) → not (is_number_char c) ≡ true → is_number_char c ≡ false
    low c k = ground arith
read_number-stop (c ∷ s) t h k =
    rw (first c s h, read_number-stop s t (ground arith) k, read_number) refl
  where
    first : (c : ℕ) (s : Text) → all is_number_char (c ∷ s) ≡ true → is_number_char c ≡ true
    first c s h = ground arith

pub read_scalar-string :
    (s t : Text)
    → all is_scalar s ≡ true
    → read_scalar b'"' (escaped s ++ b'"' ∷ t) ≡ some (string s, t)
unfolding read_scalar
read_scalar-string s t h =
    ap as_string (escaped-read s t h) ∙ ap (λ u. some (string u, t)) (join-all s h)

pub read_scalar-number :
    (c : ℕ) (s t : Text)
    → is_number (c ∷ s) ≡ true
    → stops t ≡ true
    → read_scalar c (s ++ t) ≡ some (number (c ∷ s), t)
unfolding read_scalar
read_scalar-number c s t h k =
    rw (a c s h, b c s h, e c s h, f c s h)
      (ap as_number (read_number-stop (c ∷ s) t (run c s h) k))
  where
    a : (c : ℕ) (s : Text) → is_number (c ∷ s) ≡ true → (c == b'"') ≡ false
    a c s h = ground arith

    b : (c : ℕ) (s : Text) → is_number (c ∷ s) ≡ true → (c == b'n') ≡ false
    b c s h = ground arith

    e : (c : ℕ) (s : Text) → is_number (c ∷ s) ≡ true → (c == b't') ≡ false
    e c s h = ground arith

    f : (c : ℕ) (s : Text) → is_number (c ∷ s) ≡ true → (c == b'f') ≡ false
    f c s h = ground arith

    run : (c : ℕ) (s : Text) → is_number (c ∷ s) ≡ true → all is_number_char (c ∷ s) ≡ true
    run c s h = ground arith

pub read_key-quoted :
    (k t : Text) → all is_scalar k ≡ true → read_key (quoted k ++ (b':' ∷ t)) ≡ some (k, t)
unfolding read_key skip_blank
read_key-quoted k t h =
    rw (append_assoc (escaped k) (b'"' ∷ []) (b':' ∷ t), escaped-read k (b':' ∷ t) h, read_key)
      (ap (λ u. some (u, t)) (join-all k h))
