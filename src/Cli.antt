-- ===== src/Cli.antt =====
-- cli.py: the commands. What a command writes to stderr is a list of lines; `style` is typer's, applied to a
-- colour and a text.
pub mod Summary
pub mod Commands
pub mod Serving
pub mod Serve
mod Tests
use mcp_gatekeeper.Prelude.{
  ℕ, zero, suc, ◌+◌, ◌-◌, List, [], ◌∷◌, ◌++◌, map, Bool, true, false, ◌||◌, Option, none, some,
  if◌then◌else◌, Text, codes, truthy, or_text, text_eq, is_some, join_with, length, take,
}
use Summary.{bold_red}
use mcp_gatekeeper.Prelude.Results.{Result, ok, err}
use mcp_gatekeeper.Policy.{
  Action, allow, action_value, ArgumentCondition, RuleCondition, Rule, Policy,
}
use mcp_gatekeeper.Registry.{Tool}
use mcp_gatekeeper.Approvals.Service.{Service}
use mcp_gatekeeper.Audit.Store.{AuditStore, null_store, sqlite_store}
use mcp_gatekeeper.Audit.Redact.{decimal}
use mcp_gatekeeper.Audit.Jsonl.{Rendering, export_jsonl, with_breaks}
use mcp_gatekeeper.Upstream.{Respond, Opening, connect}
use mcp_gatekeeper.Gateway.{GatewayDeps, Gateway}
use mcp_gatekeeper.Gateway.Dispatch.{refresh_registry}
use mcp_gatekeeper.Config.{
  GatekeeperConfig, Upstream, stdio, http, upstream_name, OnTimeout, build_policy,
}
use mcp_gatekeeper.Config.Loader.{Raised, config_error, uncaught}
use mcp_gatekeeper.Database.{File}
use mcp_gatekeeper.Pages.{strip}
pub use Summary.{Colour}
unfoldable pub use Summary.{summary, counted}

-- How a command ends early: `typer.Exit` with its code, or an exception that it lets through.
pub data Stop : Type 0 where
  exit : ℕ → Stop
  crashed : Text → Stop

module _ (style : Colour → Text → Text) where
  -- `_load`, with what it prints.
  unfoldable pub load_or_exit :
      Result Raised GatekeeperConfig → List Text × Result Stop GatekeeperConfig
  load_or_exit (ok c) = ([], ok c)
  load_or_exit (err (config_error m)) =
      (style bold_red (codes "Configuration error") ∷ m ∷ [], err (exit 1))
  load_or_exit (err (uncaught m)) = ([], err (crashed m))

  -- `validate` of the path, for what loading it gives.
  unfoldable pub validate :
      Text → Result Raised GatekeeperConfig → List Text × Result Stop (Unit {0})
  unfolding load_or_exit summary
  validate path loaded =
      let (lines, r) = load_or_exit loaded in
      elim r [ err stop ↦ (lines, err stop) | ok c ↦ (lines ++ summary style path c, ok tt) ]

  -- `run` up to `_serve`: the configuration that is served. `repr` of a text is Python's.
  unfoldable pub run :
      (Text → Text)
      → Text
      → Result Raised GatekeeperConfig
      → List Text × Result Stop GatekeeperConfig
  unfolding load_or_exit text_eq
  run repr transport loaded =
      let (lines, r) = load_or_exit loaded in
      elim r [
        | err stop ↦ (lines, err stop)
        | ok c ↦
            if text_eq transport (codes "stdio") || text_eq transport (codes "http")
            then (lines, ok c)
            else (
              lines
                  ++ (codes "Unknown transport "
                      ++ (repr transport ++ codes "; expected 'stdio' or 'http'."))
                    ∷ [],
              err (exit 2),
            )
      ]

-- `export`: the text that it writes, the count and what it prints.
unfoldable pub export : Rendering → Option Text → File → Text × ℕ × List Text
unfolding export_jsonl counted
export r output file =
    let lines = export_jsonl r file.events in
    (
      with_breaks lines,
      length lines,
      elim output [
        | none ↦ []
        | some path ↦
            (counted (codes "Wrote ") (length lines) (codes " event(s) to " ++ (path ++ codes "."))
              ∷ [])
      ],
    )

-- What `_serve` makes of the configuration: the queue and the trail over the file of the database, the
-- connections that open, and the gateway before its first call. `respond` and `repr` are those of the
-- gateway, `opening` says which upstreams connect.
unfoldable pub service_of : GatekeeperConfig → File → Service
service_of c file = record {
  store = file.approvals;
  timeout = c.approvals.timeout;
  approve_on_timeout = elim c.approvals.on_timeout [
    | OnTimeout.allow ↦ true
    | OnTimeout.deny ↦ false
  ];
  events = [];
}

unfoldable pub audit_of : GatekeeperConfig → File → AuditStore
audit_of c file = if c.audit.enabled then sqlite_store file.events else null_store

unfoldable pub gateway_deps :
    (Text → Opening) → Respond → (Text → Text) → GatekeeperConfig → GatewayDeps
unfolding connect build_policy
gateway_deps opening respond repr c = record {
  policy = build_policy c;
  connections = (connect opening (map upstream_name c.upstreams)).connections;
  respond = respond;
  registry = [];
  approval_mode = c.approvals.mode;
  ui_base_url = c.approvals.ui.base_url;
  redact = c.audit.redact;
  repr = repr;
}

-- `refresh_registry` is run on this gateway, with what the connections list.
unfoldable pub gateway_start : GatekeeperConfig → File → List (Text × Option (List Tool)) → Gateway
unfolding service_of audit_of refresh_registry
gateway_start c file answers =
    (refresh_registry answers (record {
      approvals = service_of c file;
      audit = audit_of c file;
      refreshed = none;
      sent = [];
    })).1
