-- ===== src/Config/Samples.antt =====
-- A configuration with one upstream and two rules (config/models.py).
use mcp_gatekeeper.Prelude.{[], ◌∷◌, false, none, some, codes}
use mcp_gatekeeper.Policy.{Action}
use mcp_gatekeeper.Config.{
  Upstream, stdio, RuleConfig, GatekeeperConfig, default_server, default_approvals, default_audit,
}

abbrev pub files : Upstream
files = stdio (record { name = codes "fs"; command = codes "npx"; args = []; env = []; cwd = none })

abbrev pub write_rule : RuleConfig
write_rule = record {
  tool = codes "fs__write*";
  action = Action.require_approval;
  when = some (record {
    args = (codes "path", codes "/tmp/**") ∷ (codes "mode", codes "w") ∷ [];
    read_only_hint = some false;
    destructive_hint = none;
    idempotent_hint = none;
    open_world_hint = none;
  });
  reason = some (codes "writes");
  upstream = some (codes "fs");
}

abbrev pub sample : GatekeeperConfig
sample = record {
  server = default_server;
  upstreams = files ∷ [];
  policy = record {
    default = Action.deny;
    default_reason = none;
    rules =
        write_rule ∷ record write_rule { action = Action.allow; when = none; upstream = none } ∷ [];
  };
  approvals = default_approvals;
  audit = default_audit;
}
