-- ===== src/Policy/FirstMatch.antt =====
-- The order of the rules in `evaluate` (policy/engine.py).
use mcp_gatekeeper.Prelude.{
  ℕ, zero, suc, ◌+◌, List, [], ◌∷◌, ◌++◌, Bool, true, not, ◌≡◌, refl, ap, sym, ◌∙◌, ◌⊎◌, inl, inr,
  none, some, all, take, get_elem?, arith, Bool-cases,
}
use mcp_gatekeeper.Policy.{PolicyRequest, Rule, Policy, Source, Decision}
use mcp_gatekeeper.Policy.Engine.{rule_matches, evaluate_from, evaluate}

abbrev pub by_rule : ℕ → Rule → Decision
by_rule i r = record {
  action = r.action;
  source = Source.rule;
  reason = r.reason;
  rule_index = some i;
}

abbrev pub by_default : Policy → Decision
by_default p = record {
  action = p.default;
  source = Source.default;
  reason = p.default_reason;
  rule_index = none;
}

abbrev pub misses : PolicyRequest → Rule → Bool
misses q r = not (rule_matches r q)

-- `r` stands at index `i`, matches, and no rule before it does.
pub record FirstMatch (q : PolicyRequest) (rules : List Rule) (i : ℕ) (r : Rule) : Type 0 where
  pub at : get_elem? rules i ≡ some r
  pub matches : rule_matches r q ≡ true
  pub earlier : all (misses q) (take i rules) ≡ true

module _ (q : PolicyRequest) (fallback : Decision) where
  from-first :
      (n i : ℕ) (rules : List Rule) (r : Rule)
      → FirstMatch q rules i r
      → evaluate_from n rules q fallback ≡ by_rule (n + i) r
  unfolding evaluate_from
  from-first n i [] r f = absurd (ground (arith, f.at))
  from-first n zero (s ∷ rules) r f = ground (arith, f.at, f.matches)
  from-first n (suc i) (s ∷ rules) r f = ground (
    arith,
    f.at,
    f.matches,
    f.earlier,
    from-first (n + 1) i rules r
        (record { at = ground arith; matches = f.matches; earlier = ground arith }),
  )

  from-none :
      (n : ℕ) (rules : List Rule)
      → all (misses q) rules ≡ true
      → evaluate_from n rules q fallback ≡ fallback
  unfolding evaluate_from
  from-none n [] h = refl
  from-none n (s ∷ rules) h = ground (arith, from-none (n + 1) rules)

  first_or_none :
      (rules : List Rule)
      → ((i : ℕ) × (r : Rule) × FirstMatch q rules i r) ⊎ (all (misses q) rules ≡ true)
  first_or_none [] = inr refl
  first_or_none (s ∷ rules) = elim (Bool-cases (rule_matches s q)) [
    | inl h ↦ inl (0, s, record { at = refl; matches = h; earlier = refl })
    | inr h ↦ elim (first_or_none rules) [
      | inl (i, r, f) ↦
          inl (
            suc i,
            r,
            record { at = f.at; matches = f.matches; earlier = ground (arith, f.earlier) },
          )
      | inr n ↦ inr (ground arith)
    ]
  ]

-- Where a rule matches and none before it does, the decision is that rule's action, reason and index.
pub evaluate-first :
    (q : PolicyRequest) (p : Policy) (i : ℕ) (r : Rule)
    → FirstMatch q p.rules i r
    → evaluate q p ≡ by_rule i r
unfolding evaluate
evaluate-first q p i r f =
    from-first q (by_default p) 0 i p.rules r f ∙ ap (λ (n : ℕ). by_rule n r) (omega arith)

-- Every decision is either that of the first matching rule, or the default where no rule matches.
pub evaluate-cases :
    (q : PolicyRequest) (p : Policy)
    → ((i : ℕ) × (r : Rule) × FirstMatch q p.rules i r × (evaluate q p ≡ by_rule i r))
      ⊎ ((all (misses q) p.rules ≡ true) × (evaluate q p ≡ by_default p))
evaluate-cases q p = elim (first_or_none q (by_default p) p.rules) [
  | inl (i, r, f) ↦ inl (i, r, f, evaluate-first q p i r f)
  | inr n ↦ inr (n, unfold evaluate in from-none q (by_default p) 0 p.rules n)
]

get-append :
    (xs ys : List Rule) (i : ℕ) (r : Rule)
    → get_elem? xs i ≡ some r
    → get_elem? (xs ++ ys) i ≡ some r
get-append [] ys i r h = cc
get-append (x ∷ xs) ys zero r h = h
get-append (x ∷ xs) ys (suc i) r h = get-append xs ys i r h

take-append :
    (xs ys : List Rule) (i : ℕ) (r : Rule) → get_elem? xs i ≡ some r → take i (xs ++ ys) ≡ take i xs
take-append [] ys i r h = cc
take-append (x ∷ xs) ys zero r h = refl
take-append (x ∷ xs) ys (suc i) r h = ap (λ (l : List Rule). x ∷ l) (take-append xs ys i r h)

-- Rules added behind the others never change the decision that a rule has made.
pub evaluate-append :
    (q : PolicyRequest) (p : Policy) (more : List Rule)
    → (evaluate q p).source ≡ Source.rule
    → evaluate q (record p { rules = p.rules ++ more }) ≡ evaluate q p
evaluate-append q p more h = elim (evaluate-cases q p) [
  | inl (i, r, f, e) ↦
      evaluate-first q (record p { rules = p.rules ++ more }) i r
        (record {
          at = get-append p.rules more i r f.at;
          matches = f.matches;
          earlier = rw (take-append p.rules more i r f.at) f.earlier;
        })
      ∙ sym e
  | inr (n, e) ↦ absurd (ground (arith, ap (λ (d : Decision). d.source) e))
]
