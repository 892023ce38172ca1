-- ===== src/Server/Tests.antt =====
-- A client that advertises an elicitation with a URL in a raw `_meta`.
use mathlib.Core.List.{Perm}
use mcp_gatekeeper.Prelude.{true, ◌∷◌, List, map, Sorted, Text}
use mcp_gatekeeper.Registry.{Tool}
use mcp_gatekeeper.Gateway.Samples.{write_tool}
use mcp_gatekeeper.Server.{on_list_tools}
use mcp_gatekeeper.Config.Targets.{distinct}
use mcp_gatekeeper.Server.Tools.{served, name_of, tool_before, on_list_tools-served}
use mcp_gatekeeper.Prelude.{[], Option, none, some, codes, text_eq, ◌≡◌, refl}
use mcp_gatekeeper.Json.{lookup}
use mcp_gatekeeper.Policy.{require_approval}
use mcp_gatekeeper.Policy.Engine.{evaluate}
use mcp_gatekeeper.Registry.{NamespacedTool, find}
use mcp_gatekeeper.Gateway.{registry_of}
use mcp_gatekeeper.Gateway.Dispatch.{call_tool, request_for}
use mcp_gatekeeper.Gateway.Asking.{asked_for}
use mcp_gatekeeper.Gateway.Samples.{asks, quiet, approval_in}
use mcp_gatekeeper.Server.{
  meta_value, capabilities_key, supports_url_elicitation, request_of, on_call_tool,
}
use mcp_gatekeeper.Server.Samples.{sdk, advertising, write_params}
use mcp_gatekeeper.Server.Asking.{Advertised, on_call_tool-elicits}

page_asked :
    asked_for (on_call_tool sdk asks quiet advertising write_params (approval_in [])).0
    ≡ some (codes "a2")
unfolding on_call_tool call_tool supports_url_elicitation meta_value lookup text_eq
page_asked = refl

on_call_tool-elicits_example :
    Advertised sdk (meta_value advertising capabilities_key (λ c i. c))
    × ((entry : NamespacedTool) × (find (codes "fs__write") (registry_of asks (approval_in []))
          ≡ some entry)
        × ((evaluate
              (request_for (request_of sdk advertising write_params) entry)
              asks.policy).action
            ≡ require_approval))
    × ((on_call_tool sdk asks quiet advertising write_params (approval_in [])).1.sent ≡ [])
on_call_tool-elicits_example =
    on_call_tool-elicits sdk asks quiet advertising write_params (approval_in []) (codes "a2") refl
      page_asked

-- One connection lists two tools, the other fails.
abbrev listed : List (Text × Option (List Tool))
listed =
    (codes "fs", some (write_tool ∷ record write_tool { name = codes "read" } ∷ []))
    ∷ (codes "db", none)
    ∷ []

names_distinct : distinct (map name_of (served listed)) ≡ true
unfolding served text_eq
names_distinct = refl

on_list_tools-served_example :
    let result = (on_list_tools listed (approval_in [])).0 in
    Perm result.tools (served listed)
    × Sorted tool_before result.tools
    × (result.ttl_ms ≡ 5000)
    × (result.cache_scope ≡ codes "private")
on_list_tools-served_example = on_list_tools-served listed (approval_in []) names_distinct
