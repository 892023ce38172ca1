-- ===== src/System/Noting.antt =====
-- What one call of the running program adds to the audit trail and to the calls sent (proxy/server.py).
use mcp_gatekeeper.Prelude.{◌∷◌, [], ◌++◌, true, ◌≡◌, ◌⊎◌, inl, inr}
use mcp_gatekeeper.Audit.Store.{record_in}
use mcp_gatekeeper.Registry.{NamespacedTool}
use mcp_gatekeeper.Upstream.{wire}
use mcp_gatekeeper.Gateway.{GatewayDeps, Gateway, Ambient, Entry, event_of}
use mcp_gatekeeper.Gateway.Calls.{or_empty}
use mcp_gatekeeper.Gateway.Handlers.{may_send}
use mcp_gatekeeper.Gateway.Forwarding.{call_tool-sent, call-Recorded}
use mcp_gatekeeper.Server.{Sdk, Meta, CallParams, request_of, on_call_tool}
use mcp_gatekeeper.System.{calls, run_step}

module _ {C E I : Type 0} (sdk : Sdk C E I) (d : GatewayDeps) where
  -- What one call adds.
  unfoldable pub Noting : Ambient → Meta C I → CallParams → Gateway → Type 0
  Noting amb meta params g =
      let g' = run_step sdk d (calls amb meta params) g in
      (e : Entry) × (g'.audit ≡ record_in (event_of d amb e) g.audit)
      × (e.tool ≡ params.name)
      × (e.arguments ≡ or_empty params.arguments)
      × ((g'.sent ≡ g.sent)
          ⊎ ((may_send e.outcome ≡ true)
              × (entry : NamespacedTool) × (g'.sent
                  ≡ g.sent
                    ++ wire entry.upstream entry.remote_name (or_empty params.arguments) ∷ [])))

  pub step-Recorded :
      (amb : Ambient) (meta : Meta C I) (params : CallParams) (g : Gateway)
      → let g' = run_step sdk d (calls amb meta params) g in
        ((g'.audit ≡ g.audit) × (g'.sent ≡ g.sent)) ⊎ Noting amb meta params g
  unfolding run_step on_call_tool Noting
  step-Recorded amb meta params g =
      let q = request_of sdk meta params in
      elim (call-Recorded d amb q g) [
        | inl h ↦ inl h
        | inr (e, a, tool, arguments, inr same) ↦ inr (e, a, tool, arguments, inl same)
        | inr (e, a, tool, arguments, inl may) ↦ elim (call_tool-sent d amb q g) [
          | inl same ↦ inr (e, a, tool, arguments, inl same)
          | inr (entry, _, (_, sent), _) ↦ inr (e, a, tool, arguments, inr (may, entry, sent))
        ]
      ]
