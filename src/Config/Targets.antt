-- ===== src/Config/Targets.antt =====
-- What `_validate_upstreams` (config/models.py) accepts.
use mcp_gatekeeper.Prelude.{
  List, [], ◌∷◌, map, Bool, true, not, ◌&&◌, ◌||◌, Option, none, some, Text, text_eq_iff, all, ◌≡◌,
  refl, sym, ◌∙◌, ◌↔◌, &&_iff, arith,
}
use mcp_gatekeeper.Prelude.Results.{Result, ok, ◌>>=◌, bind-ok}
use mcp_gatekeeper.Config.{GatekeeperConfig, Upstream, upstream_name, RuleConfig}
use mcp_gatekeeper.Config.Checks.{
  is_member, collect_names, target_known, check_rules, validate_upstreams,
}

-- No text stands twice in the list.
abbrev pub distinct : List Text → Bool
distinct [] = true
distinct (n ∷ ns) = not (is_member n ns) && distinct ns

abbrev pub names_of : List Upstream → List Text
names_of = map upstream_name

-- The names in the order in which the loop's set grows, and whether the loop goes through.
rev_onto : List Upstream → List Text → List Text
rev_onto [] seen = seen
rev_onto (u ∷ us) seen = rev_onto us (upstream_name u ∷ seen)

clean : List Text → List Upstream → Bool
clean seen [] = true
clean seen (u ∷ us) = not (is_member (upstream_name u) seen) && clean (upstream_name u ∷ seen) us

all_unseen-cons :
    (n : Text) (seen ns : List Text)
    → all (λ m. not (is_member m (n ∷ seen))) ns
      ≡ (not (is_member n ns) && all (λ m. not (is_member m seen)) ns)
all_unseen-cons n seen [] = refl
all_unseen-cons n seen (m ∷ ns) =
    ground (arith, text_eq_iff n m, text_eq_iff m n, all_unseen-cons n seen ns)

clean_lem :
    (seen : List Text) (us : List Upstream)
    → clean seen us ≡ (distinct (names_of us) && all (λ m. not (is_member m seen)) (names_of us))
unfolding clean
clean_lem seen [] = refl
clean_lem seen (u ∷ us) = ground (
  arith,
  clean_lem (upstream_name u ∷ seen) us,
  all_unseen-cons (upstream_name u) seen (names_of us),
)

all_unseen_nil : (ns : List Text) → all (λ m. not (is_member m [])) ns ≡ true
all_unseen_nil [] = refl
all_unseen_nil (n ∷ ns) = all_unseen_nil ns

member-rev_onto :
    (n : Text) (us : List Upstream) (seen : List Text)
    → is_member n (rev_onto us seen) ≡ (is_member n (names_of us) || is_member n seen)
unfolding rev_onto
member-rev_onto n [] seen = refl
member-rev_onto n (u ∷ us) seen = ground (arith, member-rev_onto n us (upstream_name u ∷ seen))

target-rev_onto :
    (us : List Upstream) (rule : RuleConfig)
    → target_known (rev_onto us []) rule ≡ target_known (names_of us) rule
target-rev_onto us rule =
    elim rule.upstream
      as (λ (o : Option Text).
        ◌≡◌ {A = Bool} (elim o [ none ↦ true | some name ↦ is_member name (rev_onto us []) ])
          (elim o [ none ↦ true | some name ↦ is_member name (names_of us) ])) [
            | none ↦ refl
            | some name ↦ ground (arith, member-rev_onto name us [])
          ]

known-rev_onto :
    (us : List Upstream) (rules : List RuleConfig)
    → all (target_known (rev_onto us [])) rules ≡ all (target_known (names_of us)) rules
known-rev_onto us [] = refl
known-rev_onto us (rule ∷ rules) = rw (target-rev_onto us rule, known-rev_onto us rules)

clean-names : (us : List Upstream) → clean [] us ≡ distinct (names_of us)
clean-names us = ground (arith, clean_lem [] us, all_unseen_nil (names_of us))

module _ (repr : Text → Text) where
  collect-clean :
      (seen : List Text) (us : List Upstream)
      → clean seen us ≡ true
      → collect_names repr seen us ≡ ok (rev_onto us seen)
  unfolding clean collect_names rev_onto
  collect-clean seen [] h = refl
  collect-clean seen (u ∷ us) h = ground (arith, collect-clean (upstream_name u ∷ seen) us)

  clean-collect :
      (seen seen' : List Text) (us : List Upstream)
      → collect_names repr seen us ≡ ok seen'
      → clean seen us ≡ true
  unfolding clean collect_names
  clean-collect seen seen' [] h = refl
  clean-collect seen seen' (u ∷ us) h =
      ground (arith, clean-collect (upstream_name u ∷ seen) seen' us)

  targets-check_rules :
      (seen : List Text) (rules : List RuleConfig)
      → all (target_known seen) rules ≡ true
      → check_rules repr seen rules ≡ ok tt
  unfolding check_rules
  targets-check_rules seen [] h = refl
  targets-check_rules seen (rule ∷ rules) h = ground (arith, targets-check_rules seen rules)

  check_rules-targets :
      (seen : List Text) (rules : List RuleConfig)
      → check_rules repr seen rules ≡ ok tt
      → all (target_known seen) rules ≡ true
  unfolding check_rules
  check_rules-targets seen [] h = refl
  check_rules-targets seen (rule ∷ rules) h = ground (arith, check_rules-targets seen rules)

  names_lem :
      (us : List Upstream)
      → distinct (names_of us) ≡ true
      → collect_names repr [] us ≡ ok (rev_onto us [])
  names_lem us h = collect-clean [] us (clean-names us ∙ h)

  seen_lem :
      (seen : List Text) (us : List Upstream)
      → collect_names repr [] us ≡ ok seen
      → seen ≡ rev_onto us []
  seen_lem seen us e =
      let same : ◌≡◌ {A = Result Text (List Text)} (ok seen) (ok (rev_onto us [])) =
        sym e ∙ collect-clean [] us (clean-collect [] seen us e) in
      cc same

  -- A configuration is accepted exactly when no two upstreams have the same name and each rule that names
  -- an upstream names one that is configured; it is returned as it was.
  pub validate_upstreams_iff :
      (c : GatekeeperConfig)
      → (validate_upstreams repr c ≡ ok c) ↔ (
          distinct (names_of c.upstreams)
            && all (target_known (names_of c.upstreams)) c.policy.rules
          ≡ true)
  unfolding validate_upstreams
  validate_upstreams_iff c = (
    (λ h.
        let (seen, (e, rest)) =
          bind-ok (collect_names repr [] c.upstreams)
            (λ seen. check_rules repr seen c.policy.rules >>= λ _. ok c) c h in
        let (u, (known, _)) = bind-ok (check_rules repr seen c.policy.rules) (λ _. ok c) c rest in
        let names = sym (clean-names c.upstreams) ∙ clean-collect [] seen c.upstreams e in
        ground (
          arith,
          names,
          seen_lem seen c.upstreams e,
          check_rules-targets seen c.policy.rules known,
          known-rev_onto c.upstreams c.policy.rules,
        )),
    λ h.
        let (a, b) = (&&_iff (distinct (names_of c.upstreams)) _).0 h in
        rw (
          names_lem c.upstreams a,
          targets-check_rules (rev_onto c.upstreams []) c.policy.rules
              (known-rev_onto c.upstreams c.policy.rules ∙ b),
        ),
  )

  pub validate_upstreams_same : (c d : GatekeeperConfig) → validate_upstreams repr c ≡ ok d → c ≡ d
  unfolding validate_upstreams
  validate_upstreams_same c d h =
      let (seen, (e, rest)) =
        bind-ok (collect_names repr [] c.upstreams)
          (λ seen. check_rules repr seen c.policy.rules >>= λ _. ok c) d h in
      let (u, (known, same)) = bind-ok (check_rules repr seen c.policy.rules) (λ _. ok c) d rest in
      cc same
