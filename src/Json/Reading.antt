-- ===== src/Json/Reading.antt =====
-- What `json.dumps` writes of a text is read back as that text.
use mcp_gatekeeper.Prelude.{
  ℕ, ◌+◌, ◌-◌, ◌/◌, ◌%◌, ◌<◌, [], ◌∷◌, ◌++◌, append_assoc, Bool, true, false, ◌&&◌, ◌||◌, ◌==◌, leb,
  ltb, if◌then◌else◌, Option, some, Text, codes, all, ◌≡◌, refl, ap, ◌∙◌, inl, inr, Bool-cases,
  arith,
}
use mcp_gatekeeper.Json.Dumps.{hex_digit, unicode_escape, surrogates, is_printable, escape, escaped}
use mcp_gatekeeper.Json.Loads.{
  hex_value, unit_of, push, read_chars, is_high, is_low, joined, join_one, join_units,
}

-- A character that UTF-8 writes: a code point that is no surrogate.
abbrev pub is_scalar : ℕ → Bool
is_scalar c = ltb c 0xD800 || (leb 0xE000 c && ltb c 0x110000)

-- The units that stand for a character.
abbrev pub units : ℕ → Text
units c =
    if ltb c 0x10000
    then c ∷ []
    else (0xD800 + (c - 0x10000) / 1024 % 1024) ∷ (0xDC00 + (c - 0x10000) % 1024) ∷ []

abbrev pub push_all : Text → Option (Text × Text) → Option (Text × Text)
push_all [] o = o
push_all (c ∷ s) o = push c (push_all s o)

value-digit : (d : ℕ) → d < 16 → hex_value (hex_digit d) ≡ d
value-digit d h = ground arith

unit-escape :
    (n : ℕ)
    → n < 0x10000
    → unit_of
        (hex_digit (n / 4096 % 16))
        (hex_digit (n / 256 % 16))
        (hex_digit (n / 16 % 16))
        (hex_digit (n % 16))
      ≡ n
unit-escape n h =
    rw
      (
        value-digit (n / 4096 % 16) (omega arith),
        value-digit (n / 256 % 16) (omega arith),
        value-digit (n / 16 % 16) (omega arith),
        value-digit (n % 16) (omega arith),
      )
      (omega arith)

unicode-read :
    (n : ℕ) (t : Text) → n < 0x10000 → read_chars (unicode_escape n ++ t) ≡ push n (read_chars t)
unfolding read_chars
unicode-read n t h = ap (λ u. push u (read_chars t)) (unit-escape n h)

short :
    (c v : ℕ) (t s : Text)
    → (c == v) ≡ true
    → ltb v 0x10000 ≡ true
    → read_chars (s ++ t) ≡ push v (read_chars t)
    → read_chars (s ++ t) ≡ push_all (units c) (read_chars t)
short c v t s h k e = rw (same c v h, k) e
  where
    same : (c v : ℕ) → (c == v) ≡ true → c ≡ v
    same c v h = ground arith

either :
    (b : Bool) (s s' t : Text) (o : Option (Text × Text))
    → (b ≡ true → read_chars (s ++ t) ≡ o)
    → (b ≡ false → read_chars (s' ++ t) ≡ o)
    → read_chars ((if b then s else s') ++ t) ≡ o
either true s s' t o h k = h refl
either false s s' t o h k = k refl

plain-read :
    (c : ℕ) (t : Text)
    → (c == b'"') ≡ false
    → (c == b'\\') ≡ false
    → read_chars (c ∷ t) ≡ push c (read_chars t)
unfolding read_chars
plain-read c t h k = rw (h, k, read_chars) refl

printable-read :
    (c : ℕ) (t : Text)
    → (c == b'"') ≡ false
    → (c == b'\\') ≡ false
    → is_printable c ≡ true
    → read_chars (c ∷ t) ≡ push_all (units c) (read_chars t)
printable-read c t h k p = rw (small c p) (plain-read c t h k)
  where
    small : (c : ℕ) → is_printable c ≡ true → ltb c 0x10000 ≡ true
    small c p = ground arith

surrogates-read :
    (c : ℕ) (t : Text)
    → ltb c 0x10000 ≡ false
    → ltb c 0x110000 ≡ true
    → read_chars (surrogates (c - 0x10000) ++ t) ≡ push_all (units c) (read_chars t)
surrogates-read c t h k =
    let m = c - 0x10000 in
    let low = unicode_escape (0xDC00 + m % 1024) in
    rw h (
      unicode-read (0xD800 + m / 1024 % 1024) (low ++ t) (omega arith)
      ∙ ap (push (0xD800 + m / 1024 % 1024)) (unicode-read (0xDC00 + m % 1024) t (omega arith)))

escape-read :
    (c : ℕ) (t : Text)
    → ltb c 0x110000 ≡ true
    → read_chars (escape c ++ t) ≡ push_all (units c) (read_chars t)
unfolding escape read_chars
escape-read c t h =
    let o = push_all (units c) (read_chars t) in
    either (c == b'"') _ _ t o (λ e. short c b'"' t (codes "\\\"") e refl refl)
      (λ n1.
        either (c == b'\\') _ _ t o (λ e. short c b'\\' t (codes "\\\\") e refl refl)
          (λ n2. either (is_printable c) _ _ t o (printable-read c t n1 n2) (λ n3.
            either (c == 10) _ _ t o (λ e. short c 10 t (codes "\\n") e refl refl)
              (λ n4.
                either (c == 13) _ _ t o (λ e. short c 13 t (codes "\\r") e refl refl)
                  (λ n5.
                    either (c == 9) _ _ t o (λ e. short c 9 t (codes "\\t") e refl refl)
                      (λ n6.
                        either (c == 12) _ _ t o (λ e. short c 12 t (codes "\\f") e refl refl)
                          (λ n7.
                            either (c == 8) _ _ t o (λ e. short c 8 t (codes "\\b") e refl refl)
                              (λ n8.
                                either (ltb c 0x10000) _ _ t o
                                  (λ e. rw e (unicode-read c t (ground arith)))
                                  (λ e. surrogates-read c t e h)))))))))

abbrev pub all_units : Text → Text
all_units [] = []
all_units (c ∷ s) = units c ++ all_units s

push-all : (u s t : Text) → push_all u (some (s, t)) ≡ some (u ++ s, t)
push-all [] s t = refl
push-all (c ∷ u) s t = ap (push c) (push-all u s t)

in_range : (c : ℕ) → is_scalar c ≡ true → ltb c 0x110000 ≡ true
in_range c h = ground arith

pub escaped-read :
    (s t : Text)
    → all is_scalar s ≡ true
    → read_chars (escaped s ++ b'"' ∷ t) ≡ some (all_units s, t)
unfolding escaped read_chars
escaped-read [] t h = refl
escaped-read (c ∷ s) t h =
    ap read_chars (append_assoc (escape c) (escaped s) (b'"' ∷ t))
    ∙ escape-read c (escaped s ++ b'"' ∷ t) (in_range c (ground arith))
    ∙ ap (push_all (units c)) (escaped-read s t (ground arith))
    ∙ push-all (units c) (all_units s) t

not_high : (c : ℕ) (s : Text) → is_high c ≡ false → join_one c s ≡ c ∷ s
not_high c [] h = refl
not_high c (d ∷ s) h = rw h refl

join-pair :
    (c d : ℕ) (s : Text)
    → is_high c ≡ true
    → is_low d ≡ true
    → join_one c (join_one d s) ≡ joined c d ∷ s
join-pair c d s h k = rw (not_high d s (ground arith)) (rw (h, k) refl)

join-units : (c : ℕ) (r : Text) → is_scalar c ≡ true → join_units (units c ++ r) ≡ c ∷ join_units r
unfolding join_units
join-units c r h = elim (Bool-cases (ltb c 0x10000)) [
  | inl k ↦ rw k (not_high c (join_units r) (ground arith))
  | inr k ↦
      let m = c - 0x10000 in
      let high = 0xD800 + m / 1024 % 1024 in
      let low = 0xDC00 + m % 1024 in
      rw k (
        join-pair high low (join_units r) (ground arith) (ground arith)
        ∙ ap (λ x. x ∷ join_units r) (rejoined c k (in_range c h)))
]
  where
    rejoined :
        (c : ℕ)
        → ltb c 0x10000 ≡ false
        → ltb c 0x110000 ≡ true
        → joined (0xD800 + (c - 0x10000) / 1024 % 1024) (0xDC00 + (c - 0x10000) % 1024) ≡ c
    rejoined c k h = ground arith

pub join-all : (s : Text) → all is_scalar s ≡ true → join_units (all_units s) ≡ s
unfolding join_units
join-all [] h = refl
join-all (c ∷ s) h =
    join-units c (all_units s) (ground arith) ∙ ap (λ r. c ∷ r) (join-all s (ground arith))
