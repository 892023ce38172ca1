-- ===== src/Glob/Language.antt =====
-- The language of glob patterns by its grammar, one rule for each way to read the next characters
-- of the pattern; `match_tool` and `match_path` (policy/glob.py) decide it.
pub mod Decides
use mcp_gatekeeper.Prelude.{
  ℕ, List, [], ◌∷◌, ◌++◌, append_assoc, append-nil, Bool, true, false, not, ◌&&◌, ◌||◌, ◌≡◌, ◌≢◌,
  refl, sym, ap, ◌∙◌, ◌↔◌, ◌⊎◌, inl, inr, arith, ◌==◌, ==_iff, Text, codes, all, Bool-cases,
  text_eq, text_eq_iff, if◌then◌else◌,
}
use mcp_gatekeeper.Glob.Meaning.{all-true, Matches, done, more, Fits, match_pieces_iff, in_segment}
use mcp_gatekeeper.Glob.Syntax.{
  closes, pieces_of, pieces_nil, pieces_last, pieces_double, pieces_close, pieces_one,
}
use mcp_gatekeeper.Glob.Syntax.Loop.{compile-pieces_of}
use mcp_gatekeeper.Glob.{
  Piece, literal, segment_char, any_char, segment_run, any_run, under, slash, newline, match_pieces,
  single, is_double, compile, match_tool, match_path,
}

-- What `?` and a run of `*` may take: in a path, no slash.
abbrev pub free : Bool → ℕ → Bool
free true c = not (c == slash)
free false c = true

pub data Glob (aware : Bool) : Text → Text → Type 0 where
  empty : Glob aware [] []
  plain : {p t : Text} (c : ℕ) → c ≢ b'*' → c ≢ b'?' → Glob aware p t → Glob aware (c ∷ p) (c ∷ t)
  question :
      {p t : Text} (q c : ℕ)
      → q ≡ b'?'
      → free aware c ≡ true
      → Glob aware p t
      → Glob aware (q ∷ p) (c ∷ t)
  star :
      {p t : Text} (s : ℕ) (w v : Text)
      → s ≡ b'*'
      → all (free aware) w ≡ true
      → Glob aware p v
      → t ≡ w ++ v
      → Glob aware (s ∷ p) t
  cross :
      {p t : Text} (s s' : ℕ) (w v : Text)
      → aware ≡ true
      → s ≡ b'*'
      → s' ≡ b'*'
      → Glob aware p v
      → t ≡ w ++ v
      → Glob aware (s ∷ s' ∷ p) t
  parent : {p : Text} → aware ≡ true → p ≡ codes "/**" → Glob aware p []

star-free :
    (aware : Bool) (c : ℕ) (w : Text)
    → (c == b'*') ≡ true
    → Fits (single aware c) w
    → all (free aware) w ≡ true
unfolding single
star-free true c w h fits = rw h at fits
star-free false c w h fits = all-true w

question-free :
    (aware : Bool) (c : ℕ) (w : Text)
    → (c == b'*') ≡ false
    → (c == b'?') ≡ true
    → Fits (single aware c) w
    → (d : ℕ) × (free aware d ≡ true) × (w ≡ d ∷ [])
unfolding single
question-free true c w s q fits = rw (s, q) at fits
question-free false c w s q fits = let (d, e) = (rw (s, q) at fits) in (d, refl, e)

literal-Fits :
    (aware : Bool) (c : ℕ) (w : Text)
    → (c == b'*') ≡ false
    → (c == b'?') ≡ false
    → Fits (single aware c) w
    → w ≡ c ∷ []
unfolding single
literal-Fits aware c w s q fits = rw (s, q) at fits

module _ (aware : Bool) where
  -- A piece for one character reads that character as the grammar does.
  single-Glob :
      (c : ℕ) {p : Text} (w v : Text)
      → Fits (single aware c) w
      → Glob aware p v
      → Glob aware (c ∷ p) (w ++ v)
  single-Glob c w v fits g = elim (Bool-cases (c == b'*')) [
    | inl s ↦ star c w v (ground arith) (star-free aware c w s fits) g refl
    | inr s ↦ elim (Bool-cases (c == b'?')) [
      | inl q ↦
          let (d, ok, e) = question-free aware c w s q fits in
          rw e (question c d (ground arith) ok g)
      | inr q ↦ rw (literal-Fits aware c w s q fits) (plain c (ground arith) (ground arith) g)
    ]
  ]

pub more_inv :
    {x : Piece} {pieces : List Piece} {t : Text}
    → Matches (x ∷ pieces) t
    → (w v : Text) × Fits x w × Matches pieces v × (t ≡ w ++ v)
more_inv (more w v fits m e) = (w, v, fits, m, e)

pub done_inv : {t : Text} → Matches [] t → t ≡ []
done_inv done = refl

pub is_double_inv :
    (aware : Bool) (c d : ℕ) → is_double aware c d ≡ true → (aware ≡ true) × (c ≡ b'*') × (d ≡ b'*')
unfolding is_double
is_double_inv aware c d h = ground arith

pub closes_inv :
    (aware : Bool) (c : ℕ) (p : Text)
    → closes aware c p ≡ true
    → (aware ≡ true) × (c ≡ slash) × (p ≡ codes "**")
unfolding closes
closes_inv aware c p h = ground (arith, text_eq_iff p (codes "**"))

under-Glob : (t : Text) → Matches (under ∷ []) t → Glob true (codes "/**") t
under-Glob t m = split (more_inv m)
  where
    split : (w v : Text) × Fits under w × Matches [] v × (t ≡ w ++ v) → Glob true (codes "/**") t
    split (w, v, inl e, m', e') = rw (e', e, done_inv m') (parent refl refl)
    split (w, v, inr (u, e), m', e') =
        rw (e', e, done_inv m', append-nil)
          (plain slash (λ h. omega arith) (λ h. omega arith)
            (cross b'*' b'*' u [] refl refl refl empty (sym (append-nil u))))

pub pieces→Glob :
    (aware : Bool) (p : Text) (t : Text) → Matches (pieces_of aware p) t → Glob aware p t
pieces→Glob aware [] t m = rw (done_inv (rw (pieces_nil aware) at m)) empty
pieces→Glob aware (c ∷ []) t m =
    let (w, v, fits, m', e) = more_inv (rw (pieces_last aware c) at m) in
    rw e (single-Glob aware c w v fits (rw (done_inv m') empty))
pieces→Glob aware (c ∷ d ∷ rest) t m = elim (Bool-cases (is_double aware c d)) [
  | inl h ↦
      let (w, v, _, m', e) = more_inv (rw (pieces_double aware c d rest h) at m) in
      let (a, s, s') = is_double_inv aware c d h in
      cross c d w v a s s' (pieces→Glob aware rest v m') e
  | inr h ↦ elim (Bool-cases (closes aware c (d ∷ rest))) [
    | inl k ↦
        let (a, s, p) = closes_inv aware c (d ∷ rest) k in
        rw (a, s, p) (under-Glob t (rw (pieces_close aware c d rest h k) at m))
    | inr k ↦
        let (w, v, fits, m', e) = more_inv (rw (pieces_one aware c d rest h k) at m) in
        rw e (single-Glob aware c w v fits (pieces→Glob aware (d ∷ rest) v m'))
  ]
]
