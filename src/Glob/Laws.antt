-- ===== src/Glob/Laws.antt =====
-- What patterns of the usual shapes match (policy/glob.py): a text with no wildcard, a prefix before
-- a star, and a directory guarded by a final "/**".
use mcp_gatekeeper.Prelude.{
  [], ◌∷◌, ◌++◌, append-nil, Bool, true, false, ◌≡◌, refl, sym, ◌∙◌, ◌↔◌, ◌⊎◌, inl, inr, arith,
  Text, codes, all,
}
use mcp_gatekeeper.Glob.Meaning.{in_segment, all-true}
use mcp_gatekeeper.Glob.Language.{empty, plain, cross, parent}
use mcp_gatekeeper.Glob.Language.Decides.{Accepts, match_path_iff, match_tool_iff}
use mcp_gatekeeper.Glob.{slash, newline, match_tool, match_path}
use mcp_gatekeeper.Glob.Prefix.{
  IsPlain, prefix-Accepts, empty_inv, nil_ne, star_ne, guard_ne, star-Accepts, guard_inv,
}

literal-Accepts :
    (aware : Bool) (p t : Text)
    → IsPlain p
    → Accepts aware p t ↔ ((t ≡ p) ⊎ (t ≡ p ++ newline ∷ []))
literal-Accepts aware p t h = (to, from)
  where
    whole : Accepts aware p t → Accepts aware (p ++ []) t
    whole a = rw (append-nil p) a

    to : Accepts aware p t → (t ≡ p) ⊎ (t ≡ p ++ newline ∷ [])
    to a =
        let (v, e, b) = (prefix-Accepts aware [] nil_ne p t h).0 (whole a) in
        elim b [
          | inl g ↦ inl (rw (e, empty_inv g) (append-nil p))
          | inr (w, e', g) ↦ inr (rw (e, e', empty_inv g))
        ]

    from : (t ≡ p) ⊎ (t ≡ p ++ newline ∷ []) → Accepts aware p t
    from (inl e) =
        rw (append-nil p) at
          ((prefix-Accepts aware [] nil_ne p t h).1 ([], e ∙ sym (append-nil p), inl empty))
    from (inr e) =
        rw (append-nil p) at
          ((prefix-Accepts aware [] nil_ne p t h).1 (newline ∷ [], e, inr ([], refl, empty)))

-- A tool pattern with no wildcard matches its own text and that text with one newline behind it,
-- and nothing else.
pub match_tool-plain :
    (p t : Text) → IsPlain p → (match_tool p t ≡ true) ↔ ((t ≡ p) ⊎ (t ≡ p ++ newline ∷ []))
match_tool-plain p t h =
    let (a, b) = match_tool_iff p t in
    let (c, d) = literal-Accepts false p t h in (λ m. c (a m), λ m. b (d m))

-- A tool pattern that is a plain prefix and a star, such as `fs__*`, matches exactly the names that
-- begin with the prefix.
pub match_tool-star :
    (p t : Text) → IsPlain p → (match_tool (p ++ codes "*") t ≡ true) ↔ ((v : Text) × (t ≡ p ++ v))
match_tool-star p t h = (to, from)
  where
    to : match_tool (p ++ codes "*") t ≡ true → (v : Text) × (t ≡ p ++ v)
    to m =
        let (v, e, _) =
          (prefix-Accepts false (codes "*") star_ne p t h).0
            ((match_tool_iff (p ++ codes "*") t).0 m) in
        (v, e)

    from : (v : Text) × (t ≡ p ++ v) → match_tool (p ++ codes "*") t ≡ true
    from (v, e) = (match_tool_iff (p ++ codes "*") t).1 (
        (prefix-Accepts false (codes "*") star_ne p t h).1
          (v, e, (star-Accepts false v).1 (all-true v)))

-- A path pattern that is a plain prefix and a star matches exactly the values that go on from the
-- prefix with no slash: the star stays in one segment.
pub match_path-star :
    (p t : Text)
    → IsPlain p
    → (match_path (p ++ codes "*") t ≡ true)
      ↔ ((v : Text) × (t ≡ p ++ v) × (all in_segment v ≡ true))
match_path-star p t h = (to, from)
  where
    to :
        match_path (p ++ codes "*") t ≡ true → (v : Text) × (t ≡ p ++ v) × (all in_segment v ≡ true)
    to m =
        let (v, e, a) =
          (prefix-Accepts true (codes "*") star_ne p t h).0
            ((match_path_iff (p ++ codes "*") t).0 m) in
        (v, e, (star-Accepts true v).0 a)

    from :
        (v : Text) × (t ≡ p ++ v) × (all in_segment v ≡ true) → match_path (p ++ codes "*") t ≡ true
    from (v, e, s) =
        (match_path_iff (p ++ codes "*") t).1
          ((prefix-Accepts true (codes "*") star_ne p t h).1 (v, e, (star-Accepts true v).1 s))

-- A guard "<directory>/**" with a plain directory matches exactly the directory itself, the directory
-- with one newline behind it, and whatever goes on from it with a slash.
pub match_path-guard :
    (p t : Text)
    → IsPlain p
    → (match_path (p ++ codes "/**") t ≡ true)
      ↔ ((t ≡ p) ⊎ (t ≡ p ++ newline ∷ []) ⊎ ((u : Text) × (t ≡ p ++ slash ∷ u)))
match_path-guard p t h = (
  λ m. to (
      (prefix-Accepts true (codes "/**") guard_ne p t h).0
        ((match_path_iff (p ++ codes "/**") t).0 m)),
  λ s.
      (match_path_iff (p ++ codes "/**") t).1
        ((prefix-Accepts true (codes "/**") guard_ne p t h).1 (from s)),
)
  where
    to :
        (v : Text) × (t ≡ p ++ v) × Accepts true (codes "/**") v
        → (t ≡ p) ⊎ (t ≡ p ++ newline ∷ []) ⊎ ((u : Text) × (t ≡ p ++ slash ∷ u))
    to (v, e, inl g) = elim (guard_inv g) [
      | inl n ↦ inl (rw (e, n) (append-nil p))
      | inr (u, n) ↦ inr (inr (u, rw (e, n)))
    ]
    to (v, e, inr (w, e', g)) = elim (guard_inv g) [
      | inl n ↦ inr (inl (rw (e, e', n)))
      | inr (u, n) ↦ inr (inr (u ++ newline ∷ [], rw (e, e', n)))
    ]

    from :
        (t ≡ p) ⊎ (t ≡ p ++ newline ∷ []) ⊎ ((u : Text) × (t ≡ p ++ slash ∷ u))
        → (v : Text) × (t ≡ p ++ v) × Accepts true (codes "/**") v
    from (inl e) = ([], e ∙ sym (append-nil p), inl (parent refl refl))
    from (inr (inl e)) = (newline ∷ [], e, inr ([], refl, parent refl refl))
    from (inr (inr (u, e))) = (
      slash ∷ u,
      e,
      inl (
          plain slash (λ x. omega arith) (λ x. omega arith)
            (cross b'*' b'*' u [] refl refl refl empty (sym (append-nil u)))),
    )
