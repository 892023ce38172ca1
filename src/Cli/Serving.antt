-- ===== src/Cli/Serving.antt =====
-- What a served gateway sends (cli.py, proxy/server.py): from the file to the wire.
use mcp_gatekeeper.Prelude.{
  [], ◌∷◌, ◌++◌, map, true, none, some, Text, keep, ◌≡◌, ◌⊎◌, inl, inr, sym,
}
use mcp_gatekeeper.Policy.{PolicyRequest, Source, Decision}
use mcp_gatekeeper.Registry.{NamespacedTool, find}
use mcp_gatekeeper.Upstream.{Respond, Opening, wire, is_connected}
use mcp_gatekeeper.Upstream.Connecting.{opens, connect-keep}
use mcp_gatekeeper.Gateway.{Gateway, Ambient, registry_of}
use mcp_gatekeeper.Gateway.Calls.{or_empty}
use mcp_gatekeeper.Gateway.Dispatch.{request_for, resumes}
use mcp_gatekeeper.Gateway.Forwarding.{Licensed, call_tool-sent}
use mcp_gatekeeper.Config.{GatekeeperConfig, upstream_name}
use mcp_gatekeeper.Config.Decisions.{file_decision, evaluate-build_policy}
use mcp_gatekeeper.Server.{Sdk, Meta, CallParams, request_of, on_call_tool}
use mcp_gatekeeper.Cli.{gateway_deps}

-- The decision that the file reads for a call.
abbrev pub decision_for : GatekeeperConfig → PolicyRequest → Decision
decision_for c q = file_decision 0 c.policy.rules q (record {
  action = c.policy.default;
  source = Source.default;
  reason = c.policy.default_reason;
  rule_index = none;
})

module _ {C E I : Type 0} (sdk : Sdk C E I) (opening : Text → Opening) (respond : Respond)
    (repr : Text → Text) (c : GatekeeperConfig) (amb : Ambient) where
  -- A client's call to the gateway of a configuration sends nothing; or it sends exactly one call, of a
  -- registered tool, to an upstream of the file whose client opens, with the arguments that came in, and
  -- something vouches for it: where the call resumes an approval, that approval stands granted in the queue;
  -- otherwise the first rule of the file that holds, or the file's default, allows the call, or it asks for
  -- approval and the request that was opened for the call stands granted.
  pub on_call_tool-sent :
      (meta : Meta C I) (params : CallParams) (g : Gateway)
      → let d = gateway_deps opening respond repr c in
        let q = request_of sdk meta params in
        let g' = (on_call_tool sdk d amb meta params g).1 in
        (g'.sent ≡ g.sent)
        ⊎ ((entry : NamespacedTool) × (find params.name (registry_of d g) ≡ some entry)
            × (is_connected entry.upstream
                  (keep (λ n. opens (opening n)) (map upstream_name c.upstreams))
                ≡ true)
            × (g'.sent
                ≡ g.sent ++ wire entry.upstream entry.remote_name (or_empty params.arguments) ∷ [])
            × Licensed amb (resumes q) (decision_for c (request_for q entry)).action g')
  unfolding on_call_tool gateway_deps
  on_call_tool-sent meta params g =
      let q = request_of sdk meta params in
      elim (call_tool-sent (gateway_deps opening respond repr c) amb q g) [
        | inl h ↦ inl h
        | inr (entry, found, (connected, sent), licensed) ↦ inr (
          entry,
          found,
          rw (sym ((connect-keep opening (map upstream_name c.upstreams)).0)) connected,
          sent,
          rw (sym (evaluate-build_policy c (request_for q entry))) licensed,
        )
      ]
