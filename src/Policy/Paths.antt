-- ===== src/Policy/Paths.antt =====
-- Dotted argument paths (policy/engine.py).
use mcp_gatekeeper.Prelude.{
  append-nil, Option-cases, List, [], ◌∷◌, ◌++◌, Bool, true, not, ◌≡◌, refl, inl, inr, Option, none,
  some, ◌==◌, all, arith, Bool-cases, Text, All,
}
use mcp_gatekeeper.Json.{Value, null, object, Fields, lookup}
use mcp_gatekeeper.Policy.Engine.{dot, split_dots, walk, resolve_argument}

-- Segments joined by dots.
abbrev pub join_dots : Text → List Text → Text
join_dots s [] = s
join_dots s (t ∷ segments) = s ++ dot ∷ join_dots t segments

abbrev pub dotless : Text → Bool
dotless = all (λ c. not (c == dot))

split-segment :
    (s t : Text) (path : Text) (segments : List Text)
    → dotless s ≡ true
    → split_dots path ≡ t ∷ segments
    → split_dots (s ++ path) ≡ (s ++ t) ∷ segments
unfolding split_dots
split-segment [] t path segments h e = e
split-segment (c ∷ s) t path segments h e = ground (arith, split-segment s t path segments)

-- A dotted path splits into the segments that it was joined from, where none of them has a dot.
pub split_dots-join :
    (s : Text) (segments : List Text)
    → dotless s ≡ true
    → All (λ t. dotless t ≡ true) segments
    → split_dots (join_dots s segments) ≡ s ∷ segments
split_dots-join s [] h hs =
    rw (append-nil s) at (split-segment s [] [] [] h (unfold split_dots in refl))
split_dots-join s (t ∷ segments) h hs = rw (append-nil s) at (
    split-segment s [] (dot ∷ join_dots t segments) (t ∷ segments) h
      (after_dot (split_dots-join t segments hs.0 hs.1)))
  where
    after_dot :
        split_dots (join_dots t segments) ≡ t ∷ segments
        → split_dots (dot ∷ join_dots t segments) ≡ [] ∷ t ∷ segments
    after_dot e = unfold split_dots in rw e

-- What is left to resolve once the first segment has been looked up.
abbrev pub descend : Text → Option Value → Value
descend path none = null
descend path (some (object fields)) = resolve_argument fields path
descend path (some _) = null

split_dots-cons :
    (path : Text) → (s : Text) × (segments : List Text) × (split_dots path ≡ s ∷ segments)
unfolding split_dots
split_dots-cons [] = ([], [], refl)
split_dots-cons (c ∷ path) =
    let (s, segments, e) = split_dots-cons path in
    elim (Bool-cases (c == dot)) [
      | inl h ↦ ([], s ∷ segments, rw (e, h))
      | inr h ↦ (c ∷ s, segments, rw (e, h))
    ]

walk-some : (path : Text) (v : Value) → walk (split_dots path) v ≡ descend path (some v)
unfolding walk resolve_argument
walk-some path (object fields) = refl
walk-some path null = let (s, segments, e) = split_dots-cons path in rw e
walk-some path _ = let (s, segments, e) = split_dots-cons path in rw e

walk-descend :
    (s : Text) (path : Text) (fields : Fields)
    → walk (s ∷ split_dots path) (object fields) ≡ descend path (lookup s fields)
unfolding walk
walk-descend s path fields = elim (Option-cases (lookup s fields)) [
  | inl e ↦ rw (e, walk)
  | inr (v, e) ↦ rw (e, walk) (walk-some path v)
]

abbrev pub or_null : Option Value → Value
or_null none = null
or_null (some v) = v

split-nil : (s : Text) → dotless s ≡ true → split_dots s ≡ s ∷ []
split-nil s h = split_dots-join s [] h tt

split-dot : (s path : Text) → dotless s ≡ true → split_dots (s ++ dot ∷ path) ≡ s ∷ split_dots path
split-dot s path h =
    let (t, segments, e) = split_dots-cons path in
    rw e (
      rw (append-nil s) at
        (split-segment s [] (dot ∷ path) (t ∷ segments) h (unfold split_dots in rw e)))

-- A path whose first segment has no dot is resolved by one look-up, and the rest of the path in the
-- object found there: null where the key is missing or its value is no object.
pub resolve_argument-nested :
    (s path : Text) (fields : Fields)
    → dotless s ≡ true
    → resolve_argument fields (s ++ dot ∷ path) ≡ descend path (lookup s fields)
resolve_argument-nested s path fields h =
    unfold resolve_argument in rw (split-dot s path h) (walk-descend s path fields)

-- A path with no dot is the look-up of its key, null where the key is missing.
pub resolve_argument-key :
    (s : Text) (fields : Fields)
    → dotless s ≡ true
    → resolve_argument fields s ≡ or_null (lookup s fields)
unfolding resolve_argument walk
resolve_argument-key s fields h = elim (Option-cases (lookup s fields)) [
  | inl e ↦ rw (split-nil s h) (rw (e, walk) refl)
  | inr (v, e) ↦ rw (split-nil s h) (rw (e, walk) refl)
]
