-- ===== src/Policy/Engine.antt =====
-- policy/engine.py: the first rule that matches decides, and else the policy's default.
use mcp_gatekeeper.Prelude.{
  ℕ, ◌+◌, List, [], ◌∷◌, Bool, true, false, not, ◌&&◌, ◌==◌, Option, none, some, if◌then◌else◌,
  Text, text_eq, all,
}
use mcp_gatekeeper.Json.{Value, null, object, Fields, lookup}
use mcp_gatekeeper.Glob.{canonical_value, match_path, match_tool}
use mcp_gatekeeper.Policy.{
  AnnotationView, PolicyRequest, ArgumentCondition, RuleCondition, is_empty, Rule, Policy, Source,
  Decision,
}

abbrev pub dot : ℕ
dot = b'.'

-- A character before the segments of what follows it: a dot opens a new segment.
abbrev pub push : ℕ → List Text → List Text
push c [] = (c ∷ []) ∷ []
push c (s ∷ segments) = if c == dot then [] ∷ s ∷ segments else (c ∷ s) ∷ segments

-- `path.split(".")`: always at least one segment.
unfoldable pub split_dots : Text → List Text
split_dots [] = [] ∷ []
split_dots (c ∷ path) = push c (split_dots path)

-- One round of the loop, then the rest; Python's None is the value `null`.
unfoldable pub walk : List Text → Value → Value
walk [] current = current
walk (segment ∷ path) (object fields) = elim (lookup segment fields) [
  | none ↦ null
  | some v ↦ walk path v
]
walk (segment ∷ path) current = null

unfoldable pub resolve_argument : Fields → Text → Value
unfolding split_dots walk lookup
resolve_argument arguments path = walk (split_dots path) (object arguments)

abbrev pub pattern_matches : Text → Option Text → Bool
pattern_matches p none = false
pattern_matches p (some rendered) = match_path p rendered

abbrev pub value_matches : Text → Value → Bool
value_matches p null = false
value_matches p value = pattern_matches p (canonical_value value)

unfoldable pub argument_matches : Fields → ArgumentCondition → Bool
unfolding resolve_argument canonical_value match_path
argument_matches arguments condition =
    value_matches condition.pattern_text (resolve_argument arguments condition.path)

-- `expected is None or actual is expected`.
abbrev pub hint_holds : Option Bool → Option Bool → Bool
hint_holds none actual = true
hint_holds (some true) (some true) = true
hint_holds (some false) (some false) = true
hint_holds (some _) _ = false

unfoldable pub annotations_match : AnnotationView → RuleCondition → Bool
annotations_match view condition =
    hint_holds condition.read_only view.read_only
    && hint_holds condition.destructive view.destructive
    && hint_holds condition.idempotent view.idempotent
    && hint_holds condition.open_world view.open_world

-- `rule.upstream is None or rule.upstream == request.upstream`.
abbrev pub upstream_fits : Option Text → Text → Bool
upstream_fits none name = true
upstream_fits (some wanted) name = text_eq wanted name

unfoldable pub rule_matches : Rule → PolicyRequest → Bool
unfolding is_empty annotations_match argument_matches match_tool
rule_matches r request =
    if not (upstream_fits r.upstream request.upstream)
    then false
    else if not (match_tool r.tool request.tool)
    then false
    else if is_empty r.condition
    then true
    else if not (annotations_match request.annotations r.condition)
    then false
    else all (argument_matches request.arguments) r.condition.arguments

-- The loop over `enumerate(policy.rules)`, from the index that it has reached.
unfoldable pub evaluate_from : ℕ → List Rule → PolicyRequest → Decision → Decision
evaluate_from index [] request fallback = fallback
evaluate_from index (r ∷ rules) request fallback =
    let later = evaluate_from (index + 1) rules request fallback in
    if rule_matches r request
    then record {
      action = r.action;
      source = Source.rule;
      reason = r.reason;
      rule_index = some index;
    }
    else later

unfoldable pub evaluate : PolicyRequest → Policy → Decision
unfolding evaluate_from rule_matches
evaluate request policy = evaluate_from 0 policy.rules request (record {
  action = policy.default;
  source = Source.default;
  reason = policy.default_reason;
  rule_index = none;
})
