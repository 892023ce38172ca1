-- ===== src/Json/Printable.antt =====
-- What `json.dumps` writes is printable ASCII, so it holds no line break.
use mcp_gatekeeper.Prelude.{
  ℕ, ◌+◌, ◌-◌, ◌/◌, ◌%◌, ◌<◌, [], ◌∷◌, ◌++◌, Bool, true, false, ◌&&◌, ◌==◌, ltb, if◌then◌else◌,
  Text, codes, all, all-append, ◌≡◌, refl, arith,
}
use mcp_gatekeeper.Json.{
  Value, null, boolean, number, string, array, object, Items, nil, cons, Fields, end, field,
}
use mcp_gatekeeper.Json.Dumps.{
  hex_digit, unicode_escape, surrogates, is_printable, escape, escaped, quoted, insert_field,
  sort_keys, sort_items, sort_fields, dump, more_items, more_fields, dumps,
}

abbrev pub is_printable_text : Text → Bool
is_printable_text = all is_printable

-- Every number is written in printable characters, as Python writes them.
unfoldable mutual
  pub numbers_print : Value → Bool
  numbers_print null = true
  numbers_print (boolean b) = true
  numbers_print (number s) = is_printable_text s
  numbers_print (string s) = true
  numbers_print (array xs) = items_print xs
  numbers_print (object fs) = fields_print fs

  pub items_print : Items → Bool
  items_print nil = true
  items_print (cons x xs) = numbers_print x && items_print xs

  pub fields_print : Fields → Bool
  fields_print end = true
  fields_print (field k v fs) = numbers_print v && fields_print fs

hex-printable : (d : ℕ) → d < 16 → is_printable (hex_digit d) ≡ true
hex-printable d h = ground arith

unicode-printable : (n : ℕ) → is_printable_text (unicode_escape n) ≡ true
unicode-printable n = ground (
  arith,
  hex-printable (n / 4096 % 16) (omega arith),
  hex-printable (n / 256 % 16) (omega arith),
  hex-printable (n / 16 % 16) (omega arith),
  hex-printable (n % 16) (omega arith),
)

surrogates-printable : (n : ℕ) → is_printable_text (surrogates n) ≡ true
surrogates-printable n =
    all-append is_printable (unicode_escape (0xD800 + n / 1024 % 1024))
      (unicode_escape (0xDC00 + n % 1024)) (unicode-printable (0xD800 + n / 1024 % 1024))
      (unicode-printable (0xDC00 + n % 1024))

either :
    (b : Bool) (s t : Text)
    → (b ≡ true → is_printable_text s ≡ true)
    → is_printable_text t ≡ true
    → is_printable_text (if b then s else t) ≡ true
either true s t h k = h refl
either false s t h k = k

escape-printable : (c : ℕ) → is_printable_text (escape c) ≡ true
unfolding escape
escape-printable c =
    either (c == b'"') _ _ (λ _. refl)
      (either (c == b'\\') _ _ (λ _. refl)
        (either (is_printable c) _ _ (λ h. rw h)
          (either (c == 10) _ _ (λ _. refl)
            (either (c == 13) _ _ (λ _. refl)
              (either (c == 9) _ _ (λ _. refl)
                (either (c == 12) _ _ (λ _. refl)
                  (either (c == 8) _ _ (λ _. refl)
                    (either (ltb c 0x10000) _ _ (λ _. unicode-printable c)
                      (surrogates-printable (c - 0x10000))))))))))

escaped-printable : (s : Text) → is_printable_text (escaped s) ≡ true
unfolding escaped
escaped-printable [] = refl
escaped-printable (c ∷ s) =
    all-append is_printable (escape c) (escaped s) (escape-printable c) (escaped-printable s)

quoted-printable : (s : Text) → is_printable_text (quoted s) ≡ true
quoted-printable s = all-append is_printable (escaped s) (b'"' ∷ []) (escaped-printable s) refl

entry-printable :
    (k v rest : Text)
    → is_printable_text v ≡ true
    → is_printable_text rest ≡ true
    → is_printable_text (quoted k ++ (codes ": " ++ (v ++ rest))) ≡ true
entry-printable k v rest h g =
    all-append is_printable (quoted k) (codes ": " ++ (v ++ rest)) (quoted-printable k)
      (all-append is_printable v rest h g)

mutual
  unfolding dump numbers_print

  dump-printable : (v : Value) → numbers_print v ≡ true → is_printable_text (dump v) ≡ true
  dump-printable null h = refl
  dump-printable (boolean true) h = refl
  dump-printable (boolean false) h = refl
  dump-printable (number s) h = h
  dump-printable (string s) h = quoted-printable s
  dump-printable (array nil) h = refl
  dump-printable (array (cons x xs)) h =
      all-append is_printable (dump x) (more_items xs) (dump-printable x (ground arith))
        (more_items-printable xs (ground arith))
  dump-printable (object end) h = refl
  dump-printable (object (field k v fs)) h =
      entry-printable k (dump v) (more_fields fs) (dump-printable v (ground arith))
        (more_fields-printable fs (ground arith))

  more_items-printable :
      (xs : Items) → items_print xs ≡ true → is_printable_text (more_items xs) ≡ true
  more_items-printable nil h = refl
  more_items-printable (cons x xs) h =
      all-append is_printable (dump x) (more_items xs) (dump-printable x (ground arith))
        (more_items-printable xs (ground arith))

  more_fields-printable :
      (fs : Fields) → fields_print fs ≡ true → is_printable_text (more_fields fs) ≡ true
  more_fields-printable end h = refl
  more_fields-printable (field k v fs) h =
      entry-printable k (dump v) (more_fields fs) (dump-printable v (ground arith))
        (more_fields-printable fs (ground arith))

insert-print :
    (k : Text) (v : Value) (fs : Fields)
    → numbers_print v ≡ true
    → fields_print fs ≡ true
    → fields_print (insert_field k v fs) ≡ true
unfolding insert_field numbers_print
insert-print k v end h g = ground arith
insert-print k v (field j w fs) h g = ground (arith, insert-print k v fs)

mutual
  unfolding sort_keys numbers_print

  sort_keys-print : (v : Value) → numbers_print v ≡ true → numbers_print (sort_keys v) ≡ true
  sort_keys-print null h = refl
  sort_keys-print (boolean b) h = refl
  sort_keys-print (number s) h = h
  sort_keys-print (string s) h = refl
  sort_keys-print (array xs) h = sort_items-print xs h
  sort_keys-print (object fs) h = sort_fields-print fs h

  sort_items-print : (xs : Items) → items_print xs ≡ true → items_print (sort_items xs) ≡ true
  sort_items-print nil h = refl
  sort_items-print (cons x xs) h = ground (arith, sort_keys-print x, sort_items-print xs)

  sort_fields-print : (fs : Fields) → fields_print fs ≡ true → fields_print (sort_fields fs) ≡ true
  sort_fields-print end h = refl
  sort_fields-print (field k v fs) h =
      insert-print k (sort_keys v) (sort_fields fs) (sort_keys-print v (ground arith))
        (sort_fields-print fs (ground arith))

-- The text of a value is printable ASCII where its numbers are.
pub dumps-printable : (v : Value) → numbers_print v ≡ true → is_printable_text (dumps v) ≡ true
unfolding dumps
dumps-printable v h = dump-printable (sort_keys v) (sort_keys-print v h)
