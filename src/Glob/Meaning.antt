-- ===== src/Glob/Meaning.antt =====
-- What a compiled pattern matches, with no search order in it, and that the search decides it.
use mcp_gatekeeper.Prelude.{
  ℕ, List, [], ◌∷◌, ◌++◌, append_assoc, append-nil, Bool, true, not, ◌≡◌, refl, sym, ap, ◌↔◌, ◌⊎◌,
  inl, inr, arith, ◌==◌, Text, all, Bool-cases,
}
use mcp_gatekeeper.Glob.Pieces.{
  Piece, literal, segment_char, any_char, segment_run, any_run, under, slash, newline, at_end, run,
  step, match_pieces,
}

-- A character that does not end a path segment.
abbrev pub in_segment : ℕ → Bool
in_segment c = not (c == slash)

-- The text that one piece takes.
abbrev pub Fits : Piece → Text → Type 0
Fits (literal x) w = w ≡ x ∷ []
Fits segment_char w = (c : ℕ) × (in_segment c ≡ true) × (w ≡ c ∷ [])
Fits any_char w = (c : ℕ) × (w ≡ c ∷ [])
Fits segment_run w = all in_segment w ≡ true
Fits any_run w = Unit {0}
Fits under w = (w ≡ []) ⊎ ((u : Text) × (w ≡ slash ∷ u))

pub data Matches : List Piece → Text → Type 0 where
  done : Matches [] []
  more :
      {x : Piece} {pieces : List Piece} {t : Text} (w v : Text)
      → Fits x w
      → Matches pieces v
      → t ≡ w ++ v
      → Matches (x ∷ pieces) t

-- `$` lets one final newline go.
abbrev pub Tail : Text → Type 0
Tail r = (r ≡ []) ⊎ (r ≡ newline ∷ [])

at_end→Tail : (r : Text) → at_end r ≡ true → Tail r
unfolding at_end
at_end→Tail [] h = inl refl
at_end→Tail (c ∷ []) h = ground arith
at_end→Tail (c ∷ d ∷ r) h = cc

Tail→at_end : (r : Text) → Tail r → at_end r ≡ true
unfolding at_end
Tail→at_end [] h = refl
Tail→at_end (c ∷ []) h = ground arith
Tail→at_end (c ∷ d ∷ r) h = ground arith

-- A split of `t` into a part that `P` holds of and a rest that the next test accepts.
abbrev Splits : (Text → Type 0) → (Text → Bool) → Text → Type 0
Splits P next t = (w v : Text) × P w × (next v ≡ true) × (t ≡ w ++ v)

run→Splits :
    (accepts : ℕ → Bool) (next : Text → Bool) (t : Text)
    → run accepts next t ≡ true
    → Splits (λ w. all accepts w ≡ true) next t
unfolding run
run→Splits accepts next [] h = ([], [], refl, h, refl)
run→Splits accepts next (c ∷ t) h = elim (Bool-cases (next (c ∷ t))) [
  | inl now ↦ ([], c ∷ t, refl, now, refl)
  | inr later ↦
      let (w, v, fits, rest, e) = run→Splits accepts next t (ground arith) in
      (c ∷ w, v, ground arith, rest, ap (λ (s : Text). c ∷ s) e)
]

Splits→run :
    (accepts : ℕ → Bool) (next : Text → Bool) (w v : Text)
    → all accepts w ≡ true
    → next v ≡ true
    → run accepts next (w ++ v) ≡ true
unfolding run
Splits→run accepts next [] [] fits rest = rest
Splits→run accepts next [] (c ∷ v) fits rest = ground arith
Splits→run accepts next (c ∷ w) v fits rest = ground (arith, Splits→run accepts next w v)

pub all-true : (w : Text) → all (λ c. true) w ≡ true
all-true [] = refl
all-true (c ∷ w) = all-true w

step→Splits :
    (x : Piece) (next : Text → Bool) (t : Text) → step x next t ≡ true → Splits (Fits x) next t
unfolding step
step→Splits (literal x) next [] h = cc
step→Splits (literal x) next (c ∷ t) h = (c ∷ [], t, ground arith, ground arith, refl)
step→Splits segment_char next [] h = cc
step→Splits segment_char next (c ∷ t) h = (c ∷ [], t, (c, ground arith, refl), ground arith, refl)
step→Splits any_char next [] h = cc
step→Splits any_char next (c ∷ t) h = (c ∷ [], t, (c, refl), h, refl)
step→Splits segment_run next t h = run→Splits in_segment next t h
step→Splits any_run next t h =
    let (w, v, _, rest, e) = run→Splits (λ c. true) next t h in (w, v, tt, rest, e)
step→Splits under next [] h = ([], [], inl refl, ground arith, refl)
step→Splits under next (c ∷ t) h = elim (Bool-cases (next (c ∷ t))) [
  | inl now ↦ ([], c ∷ t, inl refl, now, refl)
  | inr later ↦
      let (w, v, _, rest, e) = run→Splits (λ c. true) next t (ground arith) in
      (slash ∷ w, v, inr (w, refl), rest, ground arith)
]

Splits→step :
    (x : Piece) (next : Text → Bool) (w v : Text)
    → Fits x w
    → next v ≡ true
    → step x next (w ++ v) ≡ true
unfolding step
Splits→step (literal x) next w v fits rest = ground arith
Splits→step segment_char next w v (c, ok, e) rest = ground arith
Splits→step any_char next w v (c, e) rest = ground arith
Splits→step segment_run next w v fits rest = Splits→run in_segment next w v fits rest
Splits→step any_run next w v fits rest = Splits→run (λ c. true) next w v (all-true w) rest
Splits→step under next w v (inl e) rest = ground arith
Splits→step under next w v (inr (u, e)) rest =
    ground (arith, Splits→run (λ c. true) next u v (all-true u) rest)

-- A match of a first part of the text, with what `$` lets go behind it.
abbrev Ends : List Piece → Text → Type 0
Ends pieces t = (w r : Text) × Matches pieces w × Tail r × (t ≡ w ++ r)

match_pieces→Ends : (pieces : List Piece) (t : Text) → match_pieces pieces t ≡ true → Ends pieces t
unfolding match_pieces
match_pieces→Ends [] t h = ([], t, done, at_end→Tail t h, refl)
match_pieces→Ends (x ∷ pieces) t h =
    let (w, v, fits, rest, e) = step→Splits x (match_pieces pieces) t h in
    let (u, r, m, last, e') = match_pieces→Ends pieces v rest in
    (w ++ u, r, more w u fits m refl, last, rw (e, e') (sym (append_assoc w u r)))

Matches→match_pieces :
    {pieces : List Piece} {w : Text} (r : Text)
    → Matches pieces w
    → Tail r
    → match_pieces pieces (w ++ r) ≡ true
unfolding match_pieces
Matches→match_pieces r done last = Tail→at_end r last
Matches→match_pieces r (more {x} {pieces} w v fits m e) last =
    rw (e, append_assoc w v r)
      (Splits→step x (match_pieces pieces) w (v ++ r) fits (Matches→match_pieces r m last))

-- The search answers true exactly on the texts that match, and on those with a newline behind.
pub match_pieces_iff :
    (pieces : List Piece) (t : Text)
    → (match_pieces pieces t ≡ true)
      ↔ (Matches pieces t ⊎ ((w : Text) × (t ≡ w ++ newline ∷ []) × Matches pieces w))
match_pieces_iff pieces t = (λ h. split (match_pieces→Ends pieces t h), join)
  where
    split :
        Ends pieces t → Matches pieces t ⊎ ((w : Text) × (t ≡ w ++ newline ∷ []) × Matches pieces w)
    split (w, r, m, inl e, e') = inl (rw (e', e, append-nil) m)
    split (w, r, m, inr e, e') = inr (w, rw (e', e), m)

    join :
        Matches pieces t ⊎ ((w : Text) × (t ≡ w ++ newline ∷ []) × Matches pieces w)
        → match_pieces pieces t ≡ true
    join (inl m) = rw (append-nil t) at (Matches→match_pieces [] m (inl refl))
    join (inr (w, e, m)) = rw e (Matches→match_pieces (newline ∷ []) m (inr refl))
