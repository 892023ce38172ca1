-- ===== src/Server/Asking.antt =====
-- What the handlers of proxy/server.py make of a client's `_meta`.
use mcp_gatekeeper.Prelude.{
  true, Option, none, some, Text, codes, ◌≡◌, refl, inl, inr, Option-cases, arith, ◌⊎◌,
}
use mcp_gatekeeper.Json.{Value, null, boolean, number, string, array, object, Fields, lookup}
use mcp_gatekeeper.Policy.{require_approval}
use mcp_gatekeeper.Policy.Engine.{evaluate}
use mcp_gatekeeper.Registry.{NamespacedTool, find}
use mcp_gatekeeper.Gateway.{auto, GatewayDeps, Gateway, Ambient, registry_of}
use mcp_gatekeeper.Gateway.Dispatch.{request_for}
use mcp_gatekeeper.Gateway.Asking.{asked_for, call_tool-elicits}
use mcp_gatekeeper.Server.{
  Sdk, Read, nothing, plain, parsed, Meta, mapping, model, meta_value, capabilities_key, info_key,
  CallParams, advertises, has_url, supports_url_elicitation, client_name, named, request_of,
  on_call_tool,
}

module _ {C E I : Type 0} (sdk : Sdk C E I) where
  -- The capabilities that were read are `c`, as the SDK parsed them or as they are validated here.
  abbrev pub Reads : Read C → C → Type 0
  Reads read c =
      (read ≡ parsed c) ⊎ ((fs : Fields) × (read ≡ plain (object fs)) × (sdk.validate fs ≡ some c))

  -- The capabilities that were read hold an elicitation with a URL.
  abbrev pub Advertised : Read C → Type 0
  Advertised read =
      (c : C) × (e : E) × (v : Value) × Reads read c
      × (sdk.elicitation c ≡ some e)
      × (sdk.url e ≡ some v)

  url-parts :
      (o : Option E)
      → has_url sdk o ≡ true
      → (e : E) × (v : Value) × (o ≡ some e) × (sdk.url e ≡ some v)
  url-parts none h = ground (arith, h)
  url-parts (some e) h = elim (Option-cases (sdk.url e)) [
    | inl a ↦ ground (arith, a, h)
    | inr (v, a) ↦ (e, v, refl, a)
  ]

  advertises-Advertised : (read : Read C) → advertises sdk read ≡ true → Advertised read
  advertises-Advertised nothing h = ground (arith, h)
  advertises-Advertised (plain null) h = ground (arith, h)
  advertises-Advertised (plain (boolean b)) h = ground (arith, h)
  advertises-Advertised (plain (number n)) h = ground (arith, h)
  advertises-Advertised (plain (string t)) h = ground (arith, h)
  advertises-Advertised (plain (array items)) h = ground (arith, h)
  advertises-Advertised (plain (object fs)) h = elim (Option-cases (sdk.validate fs)) [
    | inl a ↦ ground (arith, a, h)
    | inr (c, a) ↦
        let (e, v, p, q) = url-parts (sdk.elicitation c) (rw a at h) in
        (c, e, v, inr (fs, refl, a), p, q)
  ]
  advertises-Advertised (parsed c) h =
      let (e, v, p, q) = url-parts (sdk.elicitation c) h in (c, e, v, inl refl, p, q)

  -- In the mode auto, a client is sent to an approval page only where it advertised an elicitation with a
  -- URL, and only for a call of a registered tool on which the policy asks for approval; nothing was sent.
  pub on_call_tool-elicits :
      (d : GatewayDeps) (amb : Ambient) (meta : Meta C I) (params : CallParams) (g : Gateway)
      (id : Text)
      → d.approval_mode ≡ auto
      → asked_for (on_call_tool sdk d amb meta params g).0 ≡ some id
      → Advertised (meta_value meta capabilities_key (λ c i. c))
        × ((entry : NamespacedTool) × (find params.name (registry_of d g) ≡ some entry)
            × ((evaluate (request_for (request_of sdk meta params) entry) d.policy).action
                ≡ require_approval))
        × ((on_call_tool sdk d amb meta params g).1.sent ≡ g.sent)
  unfolding on_call_tool supports_url_elicitation
  on_call_tool-elicits d amb meta params g id mode asked =
      let (entry, found, fresh, action, own, page, (elicits, parked, kept)) =
        call_tool-elicits d amb (request_of sdk meta params) g id asked in
      (
        advertises-Advertised (meta_value meta capabilities_key (λ c i. c)) (rw mode at elicits),
        (entry, found, action),
        kept,
      )

  -- The raw mapping of a `_meta` and the model that the SDK parses from it are answered alike: by the same
  -- answer, in the same state.
  pub on_call_tool-forms :
      (d : GatewayDeps) (amb : Ambient) (fields capabilities info : Fields) (c : C) (i : I)
      (params : CallParams) (g : Gateway)
      → lookup capabilities_key fields ≡ some (object capabilities)
      → lookup info_key fields ≡ some (object info)
      → sdk.validate capabilities ≡ some c
      → sdk.name i ≡ lookup (codes "name") info
      → sdk.version i ≡ lookup (codes "version") info
      → on_call_tool sdk d amb (mapping fields) params g
        ≡ on_call_tool sdk d amb (model (parsed c) (parsed i)) params g
  unfolding on_call_tool supports_url_elicitation client_name meta_value named
  on_call_tool-forms d amb fields capabilities info c i params g a b v n w = rw (a, b, v, n, w) refl
