-- ===== src/Policy.antt =====
-- policy/models.py: the value types of policy evaluation. A hint is none where it was not stated.
pub mod Engine
pub mod Describing
pub mod FirstMatch
pub mod Conditions
pub mod Paths
mod Tests
use mcp_gatekeeper.Prelude.{
  ℕ, List, [], ◌∷◌, ◌++◌, Bool, true, false, not, ◌&&◌, Option, none, some, if◌then◌else◌, Text,
  codes, truthy, is_some,
}
use mcp_gatekeeper.Json.{Fields, end}
use mcp_gatekeeper.Glob.{is_nil}

pub data Action : Type 0 where
  allow deny require_approval : Action

abbrev pub action_value : Action → Text
action_value allow = codes "allow"
action_value deny = codes "deny"
action_value require_approval = codes "require_approval"

pub record AnnotationView : Type 0 where
  pub read_only : Option Bool
  pub destructive : Option Bool
  pub idempotent : Option Bool
  pub open_world : Option Bool

abbrev pub unstated : AnnotationView
unstated = record { read_only = none; destructive = none; idempotent = none; open_world = none }

pub record PolicyRequest : Type 0 where
  pub tool : Text
  pub upstream : Text
  pub arguments : Fields
  pub annotations : AnnotationView

pub record ArgumentCondition : Type 0 where
  pub path : Text
  pub pattern_text : Text

pub record RuleCondition : Type 0 where
  pub arguments : List ArgumentCondition
  pub read_only : Option Bool
  pub destructive : Option Bool
  pub idempotent : Option Bool
  pub open_world : Option Bool

abbrev pub no_condition : RuleCondition
no_condition = record {
  arguments = [];
  read_only = none;
  destructive = none;
  idempotent = none;
  open_world = none;
}

unfoldable pub is_empty : RuleCondition → Bool
is_empty c =
    is_nil c.arguments
    && not (is_some c.read_only)
    && not (is_some c.destructive)
    && not (is_some c.idempotent)
    && not (is_some c.open_world)

pub record Rule : Type 0 where
  pub tool : Text
  pub action : Action
  pub condition : RuleCondition
  pub reason : Option Text
  pub upstream : Option Text

pub record Policy : Type 0 where
  pub rules : List Rule
  pub default : Action
  pub default_reason : Option Text

pub data Source : Type 0 where
  rule default : Source

abbrev pub source_value : Source → Text
source_value rule = codes "rule"
source_value default = codes "default"

pub record Decision : Type 0 where
  pub action : Action
  pub source : Source
  pub reason : Option Text
  pub rule_index : Option ℕ

unfoldable pub allowed : Decision → Bool
allowed d = elim d.action [ allow ↦ true | _ ↦ false ]
