-- ===== src/Gateway/Carried.antt =====
-- What of a client's call the server at the other end gets (proxy/gateway.py, proxy/upstream.py).
use mcp_gatekeeper.Prelude.{[], ◌∷◌, ◌++◌, some, ◌≡◌, refl, ◌⊎◌, inl, inr}
use mcp_gatekeeper.Json.{Fields, end, field}
use mcp_gatekeeper.Registry.{NamespacedTool, find}
use mcp_gatekeeper.Upstream.{Sent, wire, sent_arguments}
use mcp_gatekeeper.Gateway.{GatewayDeps, Gateway, registry_of, Ambient}
use mcp_gatekeeper.Gateway.Calls.{Request, or_empty}
use mcp_gatekeeper.Gateway.Dispatch.{call_tool}
use mcp_gatekeeper.Gateway.Forwarding.{call_tool-sent}

-- Arguments that are left out stand for no arguments, on either side.
sent_arguments-whole : (arguments : Fields) → or_empty (sent_arguments arguments) ≡ arguments
sent_arguments-whole end = refl
sent_arguments-whole (field k v fs) = refl

-- A call sends nothing, or it sends one call to the upstream that registered the tool of that name, under
-- the upstream's own name for it, with exactly the arguments that the client gave: none are dropped, added or
-- masked.
pub call_tool-carries :
    (d : GatewayDeps) (amb : Ambient) (q : Request) (g : Gateway)
    → let g' = (call_tool d amb q g).1 in
      (g'.sent ≡ g.sent)
      ⊎ ((entry : NamespacedTool) × (s : Sent) × (find q.name (registry_of d g) ≡ some entry)
          × (g'.sent ≡ g.sent ++ s ∷ [])
          × (s.upstream ≡ entry.upstream)
          × (s.name ≡ entry.remote_name)
          × (or_empty s.arguments ≡ or_empty q.arguments))
call_tool-carries d amb q g = elim (call_tool-sent d amb q g) [
  | inl same ↦ inl same
  | inr (entry, found, (connected, sent), licensed) ↦ inr (
    entry,
    wire entry.upstream entry.remote_name (or_empty q.arguments),
    found,
    sent,
    refl,
    refl,
    sent_arguments-whole (or_empty q.arguments),
  )
]
