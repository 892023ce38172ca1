-- ===== src/Json/Nesting.antt =====
-- One step of reading a list or a mapping that `json.dumps` wrote.
use mcp_gatekeeper.Prelude.{
  ℕ, zero, suc, ◌≤◌, [], ◌∷◌, ◌++◌, append_assoc, length, Bool, true, false, ◌&&◌, ◌==◌, not, some,
  Text, codes, all, ◌≡◌, refl, ap, ◌∙◌, arith,
}
use mcp_gatekeeper.Json.{
  Value, null, boolean, number, string, array, object, Items, nil, cons, Fields, end, field,
}
use mcp_gatekeeper.Json.Dumps.{escaped, quoted, dump, more_items, more_fields}
use mcp_gatekeeper.Json.Loads.{
  is_blank, skip_blank, read_key, as_array, as_object, prepend, prepend_field, read_value,
  read_items, read_fields,
}
use mcp_gatekeeper.Json.Reading.{is_scalar}
use mcp_gatekeeper.Json.Encodable.{is_number, encodable, stops, read_scalar-number, read_key-quoted}

-- A character that begins the text of a value.
abbrev pub begins_value : ℕ → Bool
begins_value c = not (is_blank c) && not (c == b']')

pub head-dump :
    (v : Value)
    → encodable v ≡ true
    → (c : ℕ) × (s : Text) × (dump v ≡ c ∷ s) × (begins_value c ≡ true)
unfolding dump encodable
head-dump null h = (b'n', codes "ull", refl, refl)
head-dump (boolean true) h = (b't', codes "rue", refl, refl)
head-dump (boolean false) h = (b'f', codes "alse", refl, refl)
head-dump (number []) h = absurd (ground arith)
head-dump (number (c ∷ s)) h = (c, s, refl, first c s h)
  where
    first : (c : ℕ) (s : Text) → is_number (c ∷ s) ≡ true → begins_value c ≡ true
    first c s h = ground arith
head-dump (string s) h = (b'"', escaped s ++ b'"' ∷ [], refl, refl)
head-dump (array nil) h = (b'[', b']' ∷ [], refl, refl)
head-dump (array (cons x xs)) h = (b'[', dump x ++ more_items xs, refl, refl)
head-dump (object end) h = (b'{', b'}' ∷ [], refl, refl)
head-dump (object (field k v fs)) h =
    (b'{', quoted k ++ (codes ": " ++ (dump v ++ more_fields fs)), refl, refl)

pub skip-begins : (c : ℕ) (s : Text) → begins_value c ≡ true → skip_blank (c ∷ s) ≡ c ∷ s
unfolding skip_blank
skip-begins c s h = ground arith

pub blank-value : (n : ℕ) (s : Text) → read_value n (32 ∷ s) ≡ read_value n s
unfolding read_value skip_blank
blank-value zero s = refl
blank-value (suc n) s = refl

pub blank-items : (n : ℕ) (s : Text) → read_items n (32 ∷ s) ≡ read_items n s
unfolding read_items
blank-items zero s = refl
blank-items (suc n) s = rw (blank-value n s, read_items) refl

pub blank-fields : (n : ℕ) (s : Text) → read_fields n (32 ∷ s) ≡ read_fields n s
unfolding read_fields skip_blank
blank-fields zero s = refl
blank-fields (suc n) s = refl

-- A list is read by its items, and a mapping by its fields.
pub open-array :
    (n : ℕ) (x : Value) (s : Text)
    → encodable x ≡ true
    → read_value (suc n) (b'[' ∷ dump x ++ s) ≡ as_array (read_items n (dump x ++ s))
unfolding read_value
open-array n x s h =
    let (c, u, e, b) = head-dump x h in
    rw e (rw (skip-begins c (u ++ s) b, no c b, read_value) refl)
  where
    no : (c : ℕ) → begins_value c ≡ true → (c == b']') ≡ false
    no c b = ground arith

pub open-object :
    (n : ℕ) (k s : Text)
    → read_value (suc n) (b'{' ∷ quoted k ++ s) ≡ as_object (read_fields n (quoted k ++ s))
unfolding read_value skip_blank
open-object n k s = refl

pub read_value-number :
    (n c : ℕ) (s t : Text)
    → is_number (c ∷ s) ≡ true
    → stops t ≡ true
    → read_value (suc n) (c ∷ s ++ t) ≡ some (number (c ∷ s), t)
unfolding read_value
read_value-number n c s t h k =
    rw (skip-begins c (s ++ t) (x c s h), y c s h, z c s h, read_value)
      (read_scalar-number c s t h k)
  where
    x : (c : ℕ) (s : Text) → is_number (c ∷ s) ≡ true → begins_value c ≡ true
    x c s h = ground arith

    y : (c : ℕ) (s : Text) → is_number (c ∷ s) ≡ true → (c == b'[') ≡ false
    y c s h = ground arith

    z : (c : ℕ) (s : Text) → is_number (c ∷ s) ≡ true → (c == b'{') ≡ false
    z c s h = ground arith

-- The items after the first, and the fields after the first, as they are read.
unfoldable pub Item : ℕ → Value → Items → Text → Type 0
Item n x xs t = read_items (suc n) (dump x ++ (more_items xs ++ t)) ≡ some (cons x xs, t)

unfoldable pub Entry : ℕ → Text → Value → Fields → Text → Type 0
Entry n k v fs t =
    read_fields (suc n) (quoted k ++ (codes ": " ++ (dump v ++ (more_fields fs ++ t))))
    ≡ some (field k v fs, t)

-- The claim on a list that is not empty, and on such a mapping.
abbrev pub ItemsRead : Items → Type 0
ItemsRead nil = Unit
ItemsRead (cons x xs) = (n : ℕ) (t : Text) → length (dump x ++ more_items xs) ≤ n → Item n x xs t

abbrev pub FieldsRead : Fields → Type 0
FieldsRead end = Unit
FieldsRead (field k v fs) =
    (n : ℕ) (t : Text)
    → length (quoted k ++ (codes ": " ++ (dump v ++ more_fields fs))) ≤ n
    → Entry n k v fs t

pub items-last :
    (n : ℕ) (x : Value) (t : Text)
    → read_value n (dump x ++ b']' ∷ t) ≡ some (x, b']' ∷ t)
    → Item n x nil t
unfolding Item read_items more_items skip_blank
items-last n x t h = rw (h, read_items) refl

pub items-next :
    (n : ℕ) (x y : Value) (ys : Items) (t : Text)
    → read_value (suc n) (dump x ++ (more_items (cons y ys) ++ t))
      ≡ some (x, more_items (cons y ys) ++ t)
    → Item n y ys t
    → Item (suc n) x (cons y ys) t
unfolding Item read_items more_items skip_blank
items-next n x y ys t h k =
    rw (h, read_items)
      (ap (prepend x) (
        blank-items (suc n) ((dump y ++ more_items ys) ++ t)
        ∙ ap (read_items (suc n)) (append_assoc (dump y) (more_items ys) t)
        ∙ k))

pub fields-last :
    (n : ℕ) (k : Text) (v : Value) (t : Text)
    → all is_scalar k ≡ true
    → read_value n (dump v ++ b'}' ∷ t) ≡ some (v, b'}' ∷ t)
    → Entry n k v end t
unfolding Entry read_fields more_fields skip_blank
fields-last n k v t e h =
    rw
      (
        read_key-quoted k (32 ∷ dump v ++ b'}' ∷ t) e,
        blank-value n (dump v ++ b'}' ∷ t),
        h,
        read_fields,
      )
      refl

pub fields-comma :
    (n : ℕ) (k : Text) (v : Value) (s r u : Text)
    → read_key (skip_blank s) ≡ some (k, r)
    → read_value n r ≡ some (v, b',' ∷ u)
    → read_fields (suc n) s ≡ prepend_field k v (read_fields n u)
unfolding read_fields skip_blank
fields-comma n k v s r u h g = rw (h, g, read_fields) refl

pub append-four : (a b c d t : Text) → (a ++ (b ++ (c ++ d))) ++ t ≡ a ++ (b ++ (c ++ (d ++ t)))
append-four a b c d t =
    append_assoc a (b ++ (c ++ d)) t
    ∙ ap (λ x. a ++ x) (append_assoc b (c ++ d) t ∙ ap (λ x. b ++ x) (append_assoc c d t))

pub fields-next :
    (n : ℕ) (k j : Text) (v w : Value) (fs : Fields) (t : Text)
    → all is_scalar k ≡ true
    → read_value (suc n) (dump v ++ (more_fields (field j w fs) ++ t))
      ≡ some (v, more_fields (field j w fs) ++ t)
    → Entry n j w fs t
    → Entry (suc n) k v (field j w fs) t
unfolding Entry more_fields skip_blank
fields-next n k j v w fs t e h r =
    let after = dump v ++ (more_fields (field j w fs) ++ t) in
    let s = quoted k ++ (codes ": " ++ after) in
    let u = (quoted j ++ (codes ": " ++ (dump w ++ more_fields fs))) ++ t in
    fields-comma (suc n) k v s (32 ∷ after) (32 ∷ u) (read_key-quoted k (32 ∷ after) e)
      (blank-value (suc n) after ∙ h)
    ∙ ap (prepend_field k v) (
        blank-fields (suc n) u
        ∙ ap (read_fields (suc n)) (append-four (quoted j) (codes ": ") (dump w) (more_fields fs) t)
        ∙ r)
