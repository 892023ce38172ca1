-- ===== src/Glob/Prefix.antt =====
-- Glob patterns (policy/glob.py) that begin with plain text, and the ends that they may have.
use mcp_gatekeeper.Prelude.{
  all-append, ℕ, [], ◌∷◌, ◌++◌, append_assoc, append-nil, Bool, true, false, not, ◌&&◌, ◌≡◌, ◌≢◌,
  refl, sym, ap, ◌∙◌, ◌↔◌, ◌⊎◌, inl, inr, arith, ◌==◌, Text, codes, all,
}
use mcp_gatekeeper.Glob.Language.{free, Glob, empty, plain, question, star, cross, parent}
use mcp_gatekeeper.Glob.Language.Decides.{Accepts}
use mcp_gatekeeper.Glob.{slash, newline}

-- A text in which every character stands for itself.
abbrev pub is_plain : ℕ → Bool
is_plain c = not (c == b'*') && not (c == b'?')

abbrev pub IsPlain : Text → Type 0
IsPlain p = all is_plain p ≡ true

pub plain_ne : (c : ℕ) → is_plain c ≡ true → (c ≢ b'*') × (c ≢ b'?')
plain_ne c h = (ground arith, ground arith)

pub plain_inv :
    {aware : Bool} {c : ℕ} {p t : Text}
    → Glob aware (c ∷ p) t
    → is_plain c ≡ true
    → p ≢ codes "**"
    → (v : Text) × (t ≡ c ∷ v) × Glob aware p v
plain_inv (plain {p} {t} c s q g) h k = (t, refl, g)
plain_inv (question q c e ok g) h k = absurd ((plain_ne q h).1 e)
plain_inv (star s w v e fits g e') h k = absurd ((plain_ne s h).0 e)
plain_inv (cross s s' w v a e e' g e'') h k = absurd ((plain_ne s h).0 e)
plain_inv (parent a e) h k = absurd (k (ground arith))

pub not_stars : (p r : Text) → IsPlain p → r ≢ codes "**" → p ++ r ≢ codes "**"
not_stars [] r h k = k
not_stars (c ∷ p) r h k = λ e. (plain_ne c (ground arith)).0 (ground arith)

-- A plain prefix is taken as it stands.
module _ (aware : Bool) (r : Text) (k : r ≢ codes "**") where
  pub prefix→ :
      (p t : Text) → IsPlain p → Glob aware (p ++ r) t → (v : Text) × (t ≡ p ++ v) × Glob aware r v
  prefix→ [] t h g = (t, refl, g)
  prefix→ (c ∷ p) t h g =
      let (u, e, g') = plain_inv g (ground arith) (not_stars p r (ground arith) k) in
      let (v, e', g'') = prefix→ p u (ground arith) g' in (v, cc, g'')

  pub →prefix : (p v : Text) → IsPlain p → Glob aware r v → Glob aware (p ++ r) (p ++ v)
  →prefix [] v h g = g
  →prefix (c ∷ p) v h g =
      let (s, q) = plain_ne c (ground arith) in plain c s q (→prefix p v (ground arith) g)

  -- The whole texts that a plain prefix and then `r` accept.
  pub prefix-Accepts :
      (p t : Text)
      → IsPlain p
      → Accepts aware (p ++ r) t ↔ ((v : Text) × (t ≡ p ++ v) × Accepts aware r v)
  prefix-Accepts p t h = (to, from)
    where
      to : Accepts aware (p ++ r) t → (v : Text) × (t ≡ p ++ v) × Accepts aware r v
      to (inl g) = let (v, e, g') = prefix→ p t h g in (v, e, inl g')
      to (inr (w, e, g)) =
          let (v, e', g') = prefix→ p w h g in
          (
            v ++ newline ∷ [],
            e ∙ ap (λ (x : Text). x ++ newline ∷ []) e' ∙ append_assoc p v (newline ∷ []),
            inr (v, refl, g'),
          )

      from : (v : Text) × (t ≡ p ++ v) × Accepts aware r v → Accepts aware (p ++ r) t
      from (v, e, inl g) = inl (rw e (→prefix p v h g))
      from (v, e, inr (w, e', g)) = inr (
        p ++ w,
        e ∙ ap (λ (x : Text). p ++ x) e' ∙ sym (append_assoc p w (newline ∷ [])),
        →prefix p w h g,
      )

-- The three ends of a pattern.
pub empty_inv : {aware : Bool} {t : Text} → Glob aware [] t → t ≡ []
empty_inv empty = refl
empty_inv (parent a e) = refl

pub nil_ne : [] ≢ codes "**"
nil_ne e = cc

pub star_ne : codes "*" ≢ codes "**"
star_ne e = ground arith

pub guard_ne : codes "/**" ≢ codes "**"
guard_ne e = ground arith

star_inv : {aware : Bool} {t : Text} → Glob aware (codes "*") t → all (free aware) t ≡ true
star_inv {aware} (plain c s q g) = absurd (s refl)
star_inv {aware} (question q c e ok g) = absurd (omega arith)
star_inv {aware} (star s w v e fits g e') = rw (e', empty_inv g, append-nil) fits
star_inv {aware} (parent a e) = refl

pub star-Accepts :
    (aware : Bool) (t : Text) → Accepts aware (codes "*") t ↔ (all (free aware) t ≡ true)
star-Accepts aware t = (to, from)
  where
    newline_free : (b : Bool) → free b newline ≡ true
    newline_free true = refl
    newline_free false = refl

    to : Accepts aware (codes "*") t → all (free aware) t ≡ true
    to (inl g) = star_inv g
    to (inr (w, e, g)) =
        rw e (all-append (free aware) w (newline ∷ []) (star_inv g) (rw (newline_free aware)))

    from : all (free aware) t ≡ true → Accepts aware (codes "*") t
    from h = inl (star b'*' t [] refl h empty (sym (append-nil t)))

pub guard_inv : {t : Text} → Glob true (codes "/**") t → (t ≡ []) ⊎ ((u : Text) × (t ≡ slash ∷ u))
guard_inv {t} (plain {p} {t = v} c s q g) = inr (v, refl)
guard_inv (question q c e ok g) = absurd (omega arith)
guard_inv (star s w v e fits g e') = absurd (omega arith)
guard_inv (cross s s' w v a e e' g e'') = absurd (omega arith)
guard_inv (parent a e) = inl refl
