-- ===== src/Server/Samples.antt =====
-- A client that advertises an elicitation with a URL, and its call (proxy/server.py).
use mcp_gatekeeper.Prelude.{[], Option, none, some, codes}
use mcp_gatekeeper.Json.{Value, object, Fields, end, field, lookup}
use mcp_gatekeeper.Server.{Sdk, Meta, mapping, CallParams}

-- Here the SDK's models are the mappings themselves.
abbrev pub url_of : Fields → Option Value
unfolding lookup
url_of fields = lookup (codes "url") fields

abbrev pub elicitation_of : Fields → Option Fields
unfolding lookup
elicitation_of fields = elim (lookup (codes "elicitation") fields) [
  | none ↦ none
  | some (object fs) ↦ some fs
  | some v ↦ none
]

abbrev pub sdk : Sdk Fields Fields Fields
sdk = record {
  validate = some;
  elicitation = elicitation_of;
  url = url_of;
  name = λ i. none;
  version = λ i. none;
  repr = λ v. [];
}

abbrev pub advertising : Meta Fields Fields
advertising = mapping (
    field (codes "io.modelcontextprotocol/clientCapabilities")
      (object (field (codes "elicitation") (object (field (codes "url") (object end) end)) end))
      end)

abbrev pub write_params : CallParams
write_params = record {
  name = codes "fs__write";
  arguments = none;
  request_state = none;
  input_responses = none;
}
