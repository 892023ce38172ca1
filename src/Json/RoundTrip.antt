-- ===== src/Json/RoundTrip.antt =====
-- What `json.dumps` writes of a value is read back as that value, with the keys of its mappings in order.
use mcp_gatekeeper.Prelude.{
  ℕ, zero, suc, ◌+◌, ◌≤◌, [], ◌∷◌, ◌++◌, append-nil, append_assoc, length, length-append, Bool,
  true, false, some, Text, codes, all, ◌≡◌, refl, sym, ap, ◌∙◌, arith,
}
use mcp_gatekeeper.Json.{
  Value, null, boolean, number, string, array, object, Items, nil, cons, Fields, end, field,
}
use mcp_gatekeeper.Json.Dumps.{
  escaped, quoted, insert_field, sort_keys, sort_items, sort_fields, dump, more_items, more_fields,
  dumps,
}
use mcp_gatekeeper.Json.Loads.{
  skip_blank, after_prefix, read_scalar, as_array, as_object, read_value, whole, loads,
}
use mcp_gatekeeper.Json.Reading.{is_scalar}
use mcp_gatekeeper.Json.Encodable.{
  is_number, encodable, items_encodable, fields_encodable, stops, read_scalar-string,
}
use mcp_gatekeeper.Json.Nesting.{
  Item, Entry, ItemsRead, FieldsRead, open-array, open-object, read_value-number, append-four,
  items-last, items-next, fields-last, fields-next,
}

-- The claim on a value.
abbrev Reads : Value → Type 0
Reads v =
    (n : ℕ) (t : Text)
    → stops t ≡ true
    → length (dump v) ≤ n
    → read_value (suc n) (dump v ++ t) ≡ some (v, t)

last-item : (x : Value) → Reads x → ItemsRead (cons x nil)
unfolding more_items
last-item x ih zero t l = absurd (omega (arith, length-append (dump x) (b']' ∷ [])))
last-item x ih (suc n) t l =
    items-last (suc n) x t
      (ih n (b']' ∷ t) refl (omega (arith, length-append (dump x) (b']' ∷ []))))

next-item :
    (x y : Value) (ys : Items) → Reads x → ItemsRead (cons y ys) → ItemsRead (cons x (cons y ys))
unfolding more_items
next-item x y ys ih rest zero t l =
    absurd (omega (arith, length-append (dump x) (more_items (cons y ys))))
next-item x y ys ih rest (suc n) t l =
    let total = length-append (dump x) (more_items (cons y ys)) in
    items-next n x y ys t (ih n (more_items (cons y ys) ++ t) refl (omega (arith, total)))
      (rest n t (omega (arith, total)))

entry-length :
    (k : Text) (v : Value) (rest : Text)
    → 2 + (length (dump v) + length rest) ≤ length (quoted k ++ (codes ": " ++ (dump v ++ rest)))
entry-length k v rest =
    omega (
      arith,
      length-append (quoted k) (codes ": " ++ (dump v ++ rest)),
      length-append (dump v) rest,
    )

last-field : (k : Text) (v : Value) → all is_scalar k ≡ true → Reads v → FieldsRead (field k v end)
unfolding more_fields
last-field k v e ih zero t l = absurd (omega (arith, entry-length k v (b'}' ∷ [])))
last-field k v e ih (suc n) t l =
    fields-last (suc n) k v t e (ih n (b'}' ∷ t) refl (omega (arith, entry-length k v (b'}' ∷ []))))

next-field :
    (k j : Text) (v w : Value) (fs : Fields)
    → all is_scalar k ≡ true
    → Reads v
    → FieldsRead (field j w fs)
    → FieldsRead (field k v (field j w fs))
unfolding more_fields
next-field k j v w fs e ih rest zero t l =
    absurd (omega (arith, entry-length k v (more_fields (field j w fs))))
next-field k j v w fs e ih rest (suc n) t l =
    let total = entry-length k v (more_fields (field j w fs)) in
    fields-next n k j v w fs t e
      (ih n (more_fields (field j w fs) ++ t) refl (omega (arith, total)))
      (rest n t (omega (arith, total)))

array-Reads :
    (x : Value) (xs : Items)
    → encodable x ≡ true
    → ItemsRead (cons x xs)
    → Reads (array (cons x xs))
unfolding dump Item
array-Reads x xs h items zero t k l = absurd (omega arith)
array-Reads x xs h items (suc n) t k l =
    ap (λ s. read_value (suc (suc n)) (b'[' ∷ s)) (append_assoc (dump x) (more_items xs) t)
    ∙ open-array (suc n) x (more_items xs ++ t) h
    ∙ ap as_array (items n t (omega arith))

object-Reads :
    (k : Text) (v : Value) (fs : Fields) → FieldsRead (field k v fs) → Reads (object (field k v fs))
unfolding dump Entry
object-Reads k v fs fields zero t e l = absurd (omega arith)
object-Reads k v fs fields (suc n) t e l =
    ap (λ s. read_value (suc (suc n)) (b'{' ∷ s))
      (append-four (quoted k) (codes ": ") (dump v) (more_fields fs) t)
    ∙ open-object (suc n) k (codes ": " ++ (dump v ++ (more_fields fs ++ t)))
    ∙ ap as_object (fields n t (omega arith))

null-Reads : Reads null
unfolding dump read_value skip_blank read_scalar after_prefix
null-Reads n t k l = refl

boolean-Reads : (b : Bool) → Reads (boolean b)
unfolding dump read_value skip_blank read_scalar after_prefix
boolean-Reads true n t k l = refl
boolean-Reads false n t k l = refl

number-Reads : (s : Text) → is_number s ≡ true → Reads (number s)
unfolding dump
number-Reads [] h n t k l = absurd (ground arith)
number-Reads (c ∷ s) h n t k l = read_value-number n c s t h k

string-Reads : (s : Text) → all is_scalar s ≡ true → Reads (string s)
unfolding dump read_value skip_blank
string-Reads s h n t k l =
    ap (λ u. read_value (suc n) (b'"' ∷ u)) (append_assoc (escaped s) (b'"' ∷ []) t)
    ∙ read_scalar-string s t h

empty-array : Reads (array nil)
unfolding dump read_value skip_blank
empty-array n t k l = refl

empty-object : Reads (object end)
unfolding dump read_value skip_blank
empty-object n t k l = refl

mutual
  unfolding encodable

  read-dump : (v : Value) → encodable v ≡ true → Reads v
  read-dump null h = null-Reads
  read-dump (boolean b) h = boolean-Reads b
  read-dump (number s) h = number-Reads s h
  read-dump (string s) h = string-Reads s h
  read-dump (array nil) h = empty-array
  read-dump (array (cons x xs)) h = array-Reads x xs (ground arith) (read-items (cons x xs) h)
  read-dump (object end) h = empty-object
  read-dump (object (field k v fs)) h = object-Reads k v fs (read-fields (field k v fs) h)

  read-items : (xs : Items) → items_encodable xs ≡ true → ItemsRead xs
  read-items nil h = tt
  read-items (cons x nil) h = last-item x (read-dump x (ground arith))
  read-items (cons x (cons y ys)) h =
      next-item x y ys (read-dump x (ground arith)) (read-items (cons y ys) (ground arith))

  read-fields : (fs : Fields) → fields_encodable fs ≡ true → FieldsRead fs
  read-fields end h = tt
  read-fields (field k v end) h = last-field k v (ground arith) (read-dump v (ground arith))
  read-fields (field k v (field j w fs)) h =
      next-field k j v w fs (ground arith) (read-dump v (ground arith))
        (read-fields (field j w fs) (ground arith))

insert-encodable :
    (k : Text) (v : Value) (fs : Fields)
    → all is_scalar k ≡ true
    → encodable v ≡ true
    → fields_encodable fs ≡ true
    → fields_encodable (insert_field k v fs) ≡ true
unfolding insert_field encodable
insert-encodable k v end e h g = ground arith
insert-encodable k v (field j w fs) e h g = ground (arith, insert-encodable k v fs)

mutual
  unfolding sort_keys encodable

  sort_keys-encodable : (v : Value) → encodable v ≡ true → encodable (sort_keys v) ≡ true
  sort_keys-encodable null h = refl
  sort_keys-encodable (boolean b) h = refl
  sort_keys-encodable (number s) h = h
  sort_keys-encodable (string s) h = h
  sort_keys-encodable (array xs) h = sort_items-encodable xs h
  sort_keys-encodable (object fs) h = sort_fields-encodable fs h

  sort_items-encodable :
      (xs : Items) → items_encodable xs ≡ true → items_encodable (sort_items xs) ≡ true
  sort_items-encodable nil h = refl
  sort_items-encodable (cons x xs) h =
      ground (arith, sort_keys-encodable x, sort_items-encodable xs)

  sort_fields-encodable :
      (fs : Fields) → fields_encodable fs ≡ true → fields_encodable (sort_fields fs) ≡ true
  sort_fields-encodable end h = refl
  sort_fields-encodable (field k v fs) h =
      insert-encodable k (sort_keys v) (sort_fields fs) (ground arith)
        (sort_keys-encodable v (ground arith)) (sort_fields-encodable fs (ground arith))

loads-dump : (v : Value) → encodable v ≡ true → loads (dump v) ≡ some v
unfolding loads skip_blank
loads-dump v h = ap whole (
    ap (read_value (suc (length (dump v)))) (sym (append-nil (dump v)))
    ∙ read-dump v h (length (dump v)) [] refl (omega arith))

-- What `json.dumps` writes of a value is read back by `json.loads` as that value with the keys of its
-- mappings in order, where its texts are code points without surrogates and its numbers
-- are finite.
pub loads-dumps : (v : Value) → encodable v ≡ true → loads (dumps v) ≡ some (sort_keys v)
unfolding dumps
loads-dumps v h = loads-dump (sort_keys v) (sort_keys-encodable v h)
