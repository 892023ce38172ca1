-- ===== src/Cli/Serve.antt =====
-- `_serve` of cli.py: what it starts and what it tells the operator, in order. The servers themselves are
-- uvicorn's and the SDK's.
use mcp_gatekeeper.Prelude.{
  ℕ, List, [], ◌∷◌, ◌++◌, map, keep, Option, Bool, true, false, if◌then◌else◌, ◌==◌, Text, codes,
  text_eq, length, ◌≡◌, refl, ap, ◌∙◌, inl, inr, Bool-cases,
}
use mcp_gatekeeper.Policy.{action_value}
use mcp_gatekeeper.Registry.{Tool, ToolRegistry, build}
use mcp_gatekeeper.Audit.Redact.{decimal}
use mcp_gatekeeper.Upstream.{Opening, UpstreamManager, connect}
use mcp_gatekeeper.Gateway.Dispatch.{collect}
use mcp_gatekeeper.Config.{GatekeeperConfig, upstream_name}
use mcp_gatekeeper.Cli.Summary.{Colour, yellow, counted}
use mcp_gatekeeper.Glob.{is_nil}

-- The options of `run` that reach `_serve`.
pub record Options : Type 0 where
  pub transport : Text
  pub host : Text
  pub port : ℕ
  pub no_ui : Bool

-- A line on stderr, and the start of a server: the pages in the background, MCP until it ends.
pub data Effect : Type 0 where
  says : Text → Effect
  starts_ui : Text → Text → ℕ → Effect
  runs_stdio : Effect
  runs_http : Text → ℕ → Effect

module _ (style : Colour → Text → Text) (repr : Text → Text) (package_version : Text) where
  abbrev pub failure_line : Text × Text → Effect
  failure_line (name, reason) =
      says (style yellow (codes "Upstream " ++ (repr name ++ (codes " did not start: " ++ reason))))

  abbrev pub connection_lines : UpstreamManager → List Effect
  connection_lines m =
      map failure_line m.failures
      ++ (if is_nil m.connections
          then says
              (style yellow (codes "No upstreams connected; the gatekeeper will expose no tools."))
            ∷ []
          else [])

  abbrev pub ui_effects : GatekeeperConfig → Bool → List Effect
  ui_effects c true = []
  ui_effects c false =
      starts_ui c.server.name c.approvals.ui.host c.approvals.ui.port
      ∷ says (codes "Approval UI: " ++ c.approvals.ui.base_url)
      ∷ []

  unfoldable pub ready_line : GatekeeperConfig → UpstreamManager → ToolRegistry → Text
  unfolding counted
  ready_line c m registry =
      codes "mcp-gatekeeper "
      ++ (package_version
          ++ counted (codes " ready: ") (length registry) (
              (if length registry == 1 then codes " tool" else codes " tools")
              ++ counted (codes " from ") (length m.connections) (
                  codes " upstream(s), default policy '"
                  ++ (action_value c.policy.default ++ codes "'."))))

  unfoldable pub transport_effects : Options → List Effect
  unfolding text_eq decimal
  transport_effects o =
      if text_eq o.transport (codes "stdio")
      then runs_stdio ∷ []
      else says (
          codes "MCP endpoint: http://"
          ++ (o.host ++ (codes ":" ++ (decimal o.port ++ codes "/mcp"))))
        ∷ runs_http o.host o.port
        ∷ []

  -- The registry is the one that `refresh_registry` builds of what the connections list.
  unfoldable pub serve :
      (Text → Opening) → GatekeeperConfig → Options → List (Text × Option (List Tool)) → List Effect
  unfolding connect build ready_line transport_effects
  serve opening c o answers =
      let m = connect opening (map upstream_name c.upstreams) in
      connection_lines m
      ++ (ui_effects c o.no_ui
          ++ (says (ready_line c m (build (collect answers))) ∷ transport_effects o))

-- The start of a server.
abbrev pub is_server : Effect → Bool
is_server (says line) = false
is_server _ = true

keep-append :
    (xs ys : List Effect) → keep is_server (xs ++ ys) ≡ keep is_server xs ++ keep is_server ys
keep-append [] ys = refl
keep-append (says line ∷ xs) ys = keep-append xs ys
keep-append (starts_ui t h p ∷ xs) ys = ap (λ r. starts_ui t h p ∷ r) (keep-append xs ys)
keep-append (runs_stdio ∷ xs) ys = ap (λ r. runs_stdio ∷ r) (keep-append xs ys)
keep-append (runs_http h p ∷ xs) ys = ap (λ r. runs_http h p ∷ r) (keep-append xs ys)

-- What is served: the pages unless they are switched off, and then MCP on the transport that was chosen.
unfoldable pub servers : GatekeeperConfig → Options → List Effect
unfolding text_eq
servers c o =
    (if o.no_ui then [] else starts_ui c.server.name c.approvals.ui.host c.approvals.ui.port ∷ [])
    ++ (if text_eq o.transport (codes "stdio") then runs_stdio else runs_http o.host o.port) ∷ []

module _ (style : Colour → Text → Text) (repr : Text → Text) (package_version : Text) where
  keep-failures :
      (failures : List (Text × Text))
      → keep is_server (map (failure_line style repr package_version) failures) ≡ []
  keep-failures [] = refl
  keep-failures ((name, reason) ∷ failures) = keep-failures failures

  keep-connection :
      (m : UpstreamManager) → keep is_server (connection_lines style repr package_version m) ≡ []
  keep-connection m =
      keep-append (map (failure_line style repr package_version) m.failures) _
      ∙ rw (keep-failures m.failures)
          (elim (Bool-cases (is_nil m.connections)) [ inl h ↦ rw h refl | inr h ↦ rw h refl ])

  keep-ui :
      (c : GatekeeperConfig) (o : Options) (line : Text)
      → keep is_server (
          ui_effects style repr package_version c o.no_ui
          ++ (says line ∷ transport_effects style repr package_version o))
        ≡ servers c o
  unfolding transport_effects servers
  keep-ui c o line = elim (Bool-cases o.no_ui) [
    | inl h ↦ elim (Bool-cases (text_eq o.transport (codes "stdio"))) [
      | inl k ↦ rw (h, k) refl
      | inr k ↦ rw (h, k) refl
    ]
    | inr h ↦ elim (Bool-cases (text_eq o.transport (codes "stdio"))) [
      | inl k ↦ rw (h, k) refl
      | inr k ↦ rw (h, k) refl
    ]
  ]

  -- Whatever the upstreams do, also where none of them opens, `_serve` starts exactly these servers: first
  -- the pages, on the host and the port of the file, unless they are switched off, and then MCP, once, on
  -- the transport that was chosen.
  pub serve-servers :
      (opening : Text → Opening) (c : GatekeeperConfig) (o : Options)
      (answers : List (Text × Option (List Tool)))
      → keep is_server (serve style repr package_version opening c o answers) ≡ servers c o
  unfolding serve
  serve-servers opening c o answers =
      let m = connect opening (map upstream_name c.upstreams) in
      keep-append (connection_lines style repr package_version m) _
      ∙ rw (keep-connection m) (keep-ui c o _)
