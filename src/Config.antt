-- ===== src/Config.antt =====
-- config/models.py: the schema of `gatekeeper.yaml` as it stands once it is typed, its validators, and
-- the bridge to the policy. A mapping is the list of its items.
pub mod Checks
pub mod Targets
pub mod Names
pub mod Decisions
pub mod Loader
pub mod Samples
mod Tests
use mcp_gatekeeper.Prelude.{
  ℕ, zero, suc, ◌+◌, List, [], ◌∷◌, ◌++◌, map, Bool, true, false, not, ◌&&◌, ◌||◌, ◌==◌, leb,
  Option, none, some, if◌then◌else◌, Text, codes, truthy, or_text, text_eq, text_lt, join_with, all,
  any, sort_by, is_some,
}
use mcp_gatekeeper.Prelude.Results.{Result, ok, err, ◌>>=◌}
use mcp_gatekeeper.Json.{
  Value, null, boolean, number, string, array, object, Items, nil, cons, Fields, end, field, lookup,
}
use mcp_gatekeeper.Policy.{Action, RuleCondition, ArgumentCondition, no_condition, Rule, Policy}
use mcp_gatekeeper.Registry.{underscores}
use mcp_gatekeeper.Gateway.{ApprovalMode}

pub record StdioUpstream : Type 0 where
  pub name : Text
  pub command : Text
  pub args : List Text
  pub env : List (Text × Text)
  pub cwd : Option Text

pub record HttpUpstream : Type 0 where
  pub name : Text
  pub url : Text
  pub headers : List (Text × Text)

pub data Upstream : Type 0 where
  stdio : StdioUpstream → Upstream
  http : HttpUpstream → Upstream

abbrev pub upstream_name : Upstream → Text
upstream_name (stdio u) = u.name
upstream_name (http u) = u.name

pub record WhenConfig : Type 0 where
  pub args : List (Text × Text)
  pub read_only_hint : Option Bool
  pub destructive_hint : Option Bool
  pub idempotent_hint : Option Bool
  pub open_world_hint : Option Bool

pub record RuleConfig : Type 0 where
  pub tool : Text
  pub action : Action
  pub when : Option WhenConfig
  pub reason : Option Text
  pub upstream : Option Text

pub record PolicyConfig : Type 0 where
  pub default : Action
  pub default_reason : Option Text
  pub rules : List RuleConfig

pub record ApprovalUiConfig : Type 0 where
  pub host : Text
  pub port : ℕ
  pub base_url : Text

pub data OnTimeout : Type 0 where
  deny allow : OnTimeout

-- The time-out is the count of microseconds to which `timedelta` rounds the seconds.
pub record ApprovalConfig : Type 0 where
  pub mode : ApprovalMode
  pub timeout : ℕ
  pub on_timeout : OnTimeout
  pub ui : ApprovalUiConfig

pub record AuditConfig : Type 0 where
  pub database : Text
  pub redact : List Text
  pub enabled : Bool

pub record ServerConfig : Type 0 where
  pub name : Text
  pub version : Text
  pub instructions : Option Text

pub record GatekeeperConfig : Type 0 where
  pub server : ServerConfig
  pub upstreams : List Upstream
  pub policy : PolicyConfig
  pub approvals : ApprovalConfig
  pub audit : AuditConfig

-- The values of the fields that a file leaves out.
abbrev pub default_policy : PolicyConfig
default_policy = record { default = Action.require_approval; default_reason = none; rules = [] }

abbrev pub default_approvals : ApprovalConfig
default_approvals = record {
  mode = ApprovalMode.auto;
  timeout = 300000000;
  on_timeout = deny;
  ui = record { host = codes "127.0.0.1"; port = 8765; base_url = codes "http://localhost:8765" };
}

abbrev pub default_audit : AuditConfig
default_audit = record { database = codes "./gatekeeper.db"; redact = []; enabled = true }

abbrev pub default_server : ServerConfig
default_server = record {
  name = codes "mcp-gatekeeper";
  version = codes "0.1.0";
  instructions = none;
}

-- The order of `sorted(self.args.items())`: of pairs of texts.
abbrev pub pair_lt : Text × Text → Text × Text → Bool
pair_lt (a, b) (c, d) = text_lt a c || (text_eq a c && text_lt b d)

abbrev pub pair_before : Text × Text → Text × Text → Bool
pair_before x y = not (pair_lt y x)

abbrev pub argument_of : Text × Text → ArgumentCondition
argument_of (path, pattern_text) = record { path = path; pattern_text = pattern_text }

unfoldable pub to_condition : WhenConfig → RuleCondition
unfolding sort_by text_lt text_eq
to_condition w = record {
  arguments = map argument_of (sort_by pair_before w.args);
  read_only = w.read_only_hint;
  destructive = w.destructive_hint;
  idempotent = w.idempotent_hint;
  open_world = w.open_world_hint;
}

abbrev pub condition_of : Option WhenConfig → RuleCondition
condition_of none = no_condition
condition_of (some w) = to_condition w

unfoldable pub to_rule : RuleConfig → Rule
unfolding to_condition
to_rule c = record {
  tool = c.tool;
  action = c.action;
  condition = condition_of c.when;
  reason = c.reason;
  upstream = c.upstream;
}

unfoldable pub build_policy : GatekeeperConfig → Policy
unfolding to_rule
build_policy c = record {
  rules = map to_rule c.policy.rules;
  default = c.policy.default;
  default_reason = c.policy.default_reason;
}
