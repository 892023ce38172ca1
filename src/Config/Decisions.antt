-- ===== src/Config/Decisions.antt =====
-- What the rules of a configuration decide once they are compiled (`to_rule`, config/models.py).
use mcp_gatekeeper.Prelude.{
  ℕ, ◌+◌, if◌then◌else◌, List, [], ◌∷◌, map, Bool, true, false, not, ◌&&◌, Option, none, some, Text,
  all, all-sort_by, ◌≡◌, refl, ap, ◌∙◌,
}
use mcp_gatekeeper.Glob.{match_tool}
use mcp_gatekeeper.Json.{Fields}
use mcp_gatekeeper.Policy.{AnnotationView, PolicyRequest, ArgumentCondition, Source, Decision}
use mcp_gatekeeper.Policy.Engine.{
  upstream_fits, hint_holds, annotations_match, argument_matches, rule_matches, evaluate_from,
  evaluate,
}
use mcp_gatekeeper.Policy.Conditions.{rule_matches-all}
use mcp_gatekeeper.Config.{
  WhenConfig, RuleConfig, pair_before, argument_of, condition_of, to_condition, to_rule,
  GatekeeperConfig, build_policy,
}

-- The argument conditions of a rule as the file lists them.
abbrev pub listed_args : Option WhenConfig → List (Text × Text)
listed_args none = []
listed_args (some w) = w.args

all-map :
    {A B : Type 0} (p : B → Bool) (f : A → B) (xs : List A)
    → all p (map f xs) ≡ all (λ x. p (f x)) xs
all-map p f [] = refl
all-map p f (x ∷ xs) = ap (λ (b : Bool). p (f x) && b) (all-map p f xs)

arguments-listed :
    (p : ArgumentCondition → Bool) (w : Option WhenConfig)
    → all p ((condition_of w).arguments) ≡ all (λ x. p (argument_of x)) (listed_args w)
unfolding to_condition
arguments-listed p none = refl
arguments-listed p (some w) =
    all-map p argument_of _ ∙ all-sort_by pair_before (λ x. p (argument_of x)) w.args

-- A compiled rule matches a call exactly when its upstream, its tool pattern, every hint, and every
-- argument condition that the file lists hold, in whatever order the file lists them.
pub to_rule-matches :
    (c : RuleConfig) (q : PolicyRequest)
    → rule_matches (to_rule c) q ≡ (
        upstream_fits c.upstream q.upstream
        && match_tool c.tool q.tool
        && annotations_match q.annotations (condition_of c.when)
        && all (λ x. argument_matches q.arguments (argument_of x)) (listed_args c.when))
unfolding to_rule
to_rule-matches c q =
    rule_matches-all (to_rule c) q
    ∙ ap
        (λ (b : Bool).
          upstream_fits c.upstream q.upstream
          && match_tool c.tool q.tool
          && annotations_match q.annotations (condition_of c.when)
          && b)
        (arguments-listed (argument_matches q.arguments) c.when)

-- A hint of the file: one that is left out holds always, and one that is given holds where the tool states
-- the same.
unfoldable pub hint_stated : Option Bool → Option Bool → Bool
hint_stated none stated = true
hint_stated (some wanted) none = false
hint_stated (some true) (some b) = b
hint_stated (some false) (some b) = not b

-- The hints that a rule's `when` gives, each against the tool's annotation of its name.
unfoldable pub hints_stated : Option WhenConfig → AnnotationView → Bool
unfolding hint_stated
hints_stated none view = true
hints_stated (some w) view =
    hint_stated w.read_only_hint view.read_only
    && hint_stated w.destructive_hint view.destructive
    && hint_stated w.idempotent_hint view.idempotent
    && hint_stated w.open_world_hint view.open_world

hint-stated : (wanted stated : Option Bool) → hint_holds wanted stated ≡ hint_stated wanted stated
unfolding hint_stated
hint-stated none stated = refl
hint-stated (some true) none = refl
hint-stated (some false) none = refl
hint-stated (some true) (some true) = refl
hint-stated (some true) (some false) = refl
hint-stated (some false) (some true) = refl
hint-stated (some false) (some false) = refl

annotations-stated :
    (w : Option WhenConfig) (view : AnnotationView)
    → annotations_match view (condition_of w) ≡ hints_stated w view
unfolding annotations_match hints_stated to_condition
annotations-stated none view = refl
annotations-stated (some w) view =
    rw
      (
        hint-stated w.read_only_hint view.read_only,
        hint-stated w.destructive_hint view.destructive,
        hint-stated w.idempotent_hint view.idempotent,
        hint-stated w.open_world_hint view.open_world,
      )
      refl

-- An argument condition of the file, its path on the left and its pattern on the right.
abbrev pub argument_stated : Fields → Text × Text → Bool
argument_stated arguments x = argument_matches arguments (record { path = x.0; pattern_text = x.1 })

-- The conditions of a rule as the file states them.
abbrev pub states : RuleConfig → PolicyRequest → Bool
states c q =
    upstream_fits c.upstream q.upstream
    && match_tool c.tool q.tool
    && hints_stated c.when q.annotations
    && all (argument_stated q.arguments) (listed_args c.when)

-- The decision read off the file: the first rule whose conditions hold, with its place in the file.
unfoldable pub file_decision : ℕ → List RuleConfig → PolicyRequest → Decision → Decision
file_decision n [] q fallback = fallback
file_decision n (c ∷ rules) q fallback =
    let rest = file_decision (n + 1) rules q fallback in
    if states c q
    then record { action = c.action; source = Source.rule; reason = c.reason; rule_index = some n }
    else rest

from-file :
    (n : ℕ) (rules : List RuleConfig) (q : PolicyRequest) (fallback : Decision)
    → evaluate_from n (map to_rule rules) q fallback ≡ file_decision n rules q fallback
unfolding evaluate_from file_decision to_rule
from-file n [] q fallback = refl
from-file n (c ∷ rules) q fallback =
    rw
      (
        to_rule-matches c q,
        annotations-stated c.when q.annotations,
        from-file (n + 1) rules q fallback,
      )
      refl

-- The gatekeeper decides a call as the file reads: by the first rule in the file whose upstream, tool
-- pattern, hints and argument conditions hold, with its action and reason and its place in the file, and by
-- the file's default where none does.
pub evaluate-build_policy :
    (c : GatekeeperConfig) (q : PolicyRequest)
    → evaluate q (build_policy c)
      ≡ file_decision 0 c.policy.rules q (record {
        action = c.policy.default;
        source = Source.default;
        reason = c.policy.default_reason;
        rule_index = none;
      })
unfolding evaluate build_policy
evaluate-build_policy c q = from-file 0 c.policy.rules q _
