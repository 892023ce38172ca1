-- ===== src/Policy/Tests.antt =====
-- Decisions on concrete calls, and the theorems on policies at concrete inputs.
use mcp_gatekeeper.Prelude.{[], ◌∷◌, true, none, some, codes, ◌≡◌, refl, All, text_eq}
use mcp_gatekeeper.Json.{string, object, end, field}
use mcp_gatekeeper.Policy.{
  allow, deny, require_approval, unstated, PolicyRequest, no_condition, Rule, Policy, Source,
}
use mcp_gatekeeper.Policy.Engine.{rule_matches, evaluate}
use mcp_gatekeeper.Policy.FirstMatch.{by_rule, FirstMatch, evaluate-first}
use mcp_gatekeeper.Policy.Conditions.{Holds, rule_matches-arguments}

abbrev prod_write : PolicyRequest
prod_write = record {
  tool = codes "fs__write_file";
  upstream = codes "fs";
  arguments =
      field (codes "path") (string (codes "/prod/db.yaml"))
        (field (codes "options") (object (field (codes "mode") (string (codes "w")) end)) end);
  annotations = record unstated { destructive = some true };
}

abbrev reads_allowed : Rule
reads_allowed = record {
  tool = codes "fs__read_*";
  action = allow;
  condition = no_condition;
  reason = none;
  upstream = none;
}

abbrev prod_guarded : Rule
prod_guarded = record {
  tool = codes "fs__*";
  action = require_approval;
  condition = record no_condition {
    arguments = record { path = codes "path"; pattern_text = codes "/prod/**" } ∷ [];
    destructive = some true;
  };
  reason = some (codes "production");
  upstream = some (codes "fs");
}

abbrev guarded : Policy
guarded = record {
  rules = reads_allowed ∷ prod_guarded ∷ [];
  default = deny;
  default_reason = none;
}

guarded_write : (evaluate prod_write guarded).action ≡ require_approval
unfolding evaluate text_eq
guarded_write = refl

guarded_first : FirstMatch prod_write guarded.rules 1 prod_guarded
unfolding rule_matches text_eq
guarded_first = record { at = refl; matches = refl; earlier = refl }

guarded_matches : rule_matches prod_guarded prod_write ≡ true
unfolding rule_matches text_eq
guarded_matches = refl

guarded_source : (evaluate prod_write guarded).source ≡ Source.rule
unfolding evaluate text_eq
guarded_source = refl

evaluate-first_example : evaluate prod_write guarded ≡ by_rule 1 prod_guarded
evaluate-first_example = evaluate-first prod_write guarded 1 prod_guarded guarded_first

rule_matches-arguments_example : All (Holds prod_write.arguments) prod_guarded.condition.arguments
rule_matches-arguments_example = rule_matches-arguments prod_guarded prod_write guarded_matches
