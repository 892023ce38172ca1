-- ===== src/Server.antt =====
-- proxy/server.py: what the handlers read of a request's `_meta`, and how they call the gateway. The
-- SDK's models are parameters: what the source reads of them, and their validation.
pub mod Asking
pub mod Tools
pub mod Samples
mod Tests
use mcp_gatekeeper.Prelude.{
  ℕ, List, [], ◌++◌, Bool, true, false, not, ◌||◌, Option, none, some, if◌then◌else◌, Text, codes,
  truthy, text_eq, is_some,
}
use mcp_gatekeeper.Json.{
  Value, null, boolean, number, string, array, object, nil, cons, Fields, end, field, lookup,
}
use mcp_gatekeeper.Registry.{Tool}
use mcp_gatekeeper.Gateway.{GatewayDeps, Gateway, Ambient}
use mcp_gatekeeper.Gateway.Calls.{Answer, Request}
use mcp_gatekeeper.Gateway.Dispatch.{call_tool, list_tools}

-- What `_meta_value` returns: None, a plain value, or a model of the SDK.
pub data Read {ℓ} (M : Type ℓ) : Type ℓ where
  nothing : Read M
  plain : Value → Read M
  parsed : M → Read M

-- `_meta`: absent, the raw mapping, or the parsed model with its two attributes.
pub data Meta (C I : Type 0) : Type 0 where
  absent : Meta C I
  mapping : Fields → Meta C I
  model : Read C → Read I → Meta C I

abbrev pub read_plain {ℓ} : {M : Type ℓ} → Option Value → Read M
read_plain none = nothing
read_plain (some null) = nothing
read_plain (some v) = plain v

-- `_meta_value`, where the attribute is the one that the third argument reads off the model.
unfoldable pub meta_value : {C I M : Type 0} → Meta C I → Text → (Read C → Read I → Read M) → Read M
unfolding lookup
meta_value absent key attribute = nothing
meta_value (mapping fields) key attribute = read_plain (lookup key fields)
meta_value (model capabilities info) key attribute = attribute capabilities info

abbrev pub capabilities_key : Text
capabilities_key = codes "io.modelcontextprotocol/clientCapabilities"

abbrev pub info_key : Text
info_key = codes "io.modelcontextprotocol/clientInfo"

-- The text that `str` gives to a number that is false.
abbrev pub is_zero : Text → Bool
is_zero s = text_eq s (codes "0") || text_eq s (codes "0.0") || text_eq s (codes "-0.0")

-- `bool(value)`.
unfoldable pub is_true : Value → Bool
unfolding text_eq
is_true null = false
is_true (boolean b) = b
is_true (number s) = not (is_zero s)
is_true (string s) = truthy s
is_true (array nil) = false
is_true (array (cons v items)) = true
is_true (object end) = false
is_true (object (field k v fields)) = true

-- `str(value)`, where `repr` is Python's on a list or a mapping.
unfoldable pub text_of : (Value → Text) → Value → Text
text_of repr null = codes "None"
text_of repr (boolean true) = codes "True"
text_of repr (boolean false) = codes "False"
text_of repr (number s) = s
text_of repr (string s) = s
text_of repr (array items) = repr (array items)
text_of repr (object fields) = repr (object fields)

abbrev pub or_null : Option Value → Value
or_null none = null
or_null (some v) = v

-- The end of `client_name`: the name and the version as they were read, None where they are missing.
unfoldable pub full_name : (Value → Text) → Value → Value → Option Text
unfolding is_true text_of
full_name repr name version =
    if not (is_true name)
    then none
    else if is_true version
    then some (text_of repr name ++ (codes " " ++ text_of repr version))
    else some (text_of repr name)

-- CallToolRequestParams. Of the input responses the gateway only asks whether they are there.
pub record CallParams : Type 0 where
  pub name : Text
  pub arguments : Option Fields
  pub request_state : Option Text
  pub input_responses : Option Fields

-- ListToolsResult.
pub record ToolList : Type 0 where
  pub tools : List Tool
  pub ttl_ms : ℕ
  pub cache_scope : Text

-- What the source uses of the SDK's models: the validation of the capabilities, none where it raises, the
-- attributes of the capabilities and of the client's description; and `repr` of a list or a mapping.
pub record Sdk (C E I : Type 0) : Type 0 where
  pub validate : Fields → Option C
  pub elicitation : C → Option E
  pub url : E → Option Value
  pub name : I → Option Value
  pub version : I → Option Value
  pub repr : Value → Text

module _ {C E I : Type 0} (sdk : Sdk C E I) where
  -- `elicitation is not None and elicitation.url is not None`.
  abbrev pub has_url : Option E → Bool
  has_url none = false
  has_url (some e) = is_some (sdk.url e)

  abbrev pub validated : Option C → Bool
  validated none = false
  validated (some c) = has_url (sdk.elicitation c)

  -- A plain value that is no mapping has no attribute `elicitation`.
  abbrev pub advertises : Read C → Bool
  advertises nothing = false
  advertises (plain (object fields)) = validated (sdk.validate fields)
  advertises (plain _) = false
  advertises (parsed c) = has_url (sdk.elicitation c)

  unfoldable pub supports_url_elicitation : Meta C I → Bool
  unfolding meta_value
  supports_url_elicitation meta = advertises (meta_value meta capabilities_key (λ c i. c))

  abbrev pub named : Read I → Option Text
  unfolding lookup full_name
  named nothing = none
  named (plain (object fields)) =
      full_name sdk.repr (or_null (lookup (codes "name") fields))
        (or_null (lookup (codes "version") fields))
  named (plain _) = none
  named (parsed i) = full_name sdk.repr (or_null (sdk.name i)) (or_null (sdk.version i))

  unfoldable pub client_name : Meta C I → Option Text
  unfolding meta_value named
  client_name meta = named (meta_value meta info_key (λ c i. i))

  abbrev pub request_of : Meta C I → CallParams → Request
  unfolding client_name supports_url_elicitation
  request_of meta params = record {
    name = params.name;
    arguments = params.arguments;
    client_name = client_name meta;
    supports_url_elicitation = supports_url_elicitation meta;
    request_state = params.request_state;
    has_input_responses = is_some params.input_responses;
  }

  module _ (d : GatewayDeps) where
    unfoldable pub on_call_tool : Ambient → Meta C I → CallParams → Gateway → Answer × Gateway
    unfolding call_tool request_of
    on_call_tool amb meta params g = call_tool d amb (request_of meta params) g

unfoldable pub on_list_tools : List (Text × Option (List Tool)) → Gateway → ToolList × Gateway
unfolding list_tools
on_list_tools answers g =
    let (tools, g') = list_tools answers g in
    (record { tools = tools; ttl_ms = 5000; cache_scope = codes "private" }, g')
