-- ===== src/Audit/Tests.antt =====
-- A redacted call, and the theorems on redaction at concrete inputs.
use mcp_gatekeeper.Prelude.{List, [], ◌∷◌, true, some, Text, text_eq, codes, map, ◌≡◌, refl}
use mcp_gatekeeper.Json.{string, object, array, nil, cons, Fields, end, field, lookup}
use mcp_gatekeeper.Audit.Redact.{decimal, translate, is_masked}
use mcp_gatekeeper.Audit.Masking.{Step, key, index, at_path, is_open}
use mcp_gatekeeper.Glob.{match_path}
use mcp_gatekeeper.Prelude.{none}
use mcp_gatekeeper.Audit.Samples.{written}
use mcp_gatekeeper.Prelude.Results.{ok}
use mcp_gatekeeper.Prelude.Columns.{Clock, ReadsBack}
use mcp_gatekeeper.Json.Dumps.{sort_fields}
use mcp_gatekeeper.Json.Encodable.{encodable, fields_encodable}
use mcp_gatekeeper.Audit.Columns.{event_row, row_to_event, row_to_event-event_row}
use mcp_gatekeeper.Audit.Samples.{written}
use mcp_gatekeeper.Policy.{Action, Source, Decision}
use mcp_gatekeeper.Audit.{Extra}

-- {"auth": {"token": "s3cret"}, "to": ["ann"]}
abbrev login : Fields
login =
    field (codes "auth") (object (field (codes "token") (string (codes "s3cret")) end))
      (field (codes "to") (array (cons (string (codes "ann")) nil)) end)

abbrev tokens : List Text
tokens = codes "**.token" ∷ []

abbrev to_token : List Step
to_token = key (codes "auth") ∷ key (codes "token") ∷ []

abbrev to_name : List Step
to_name = key (codes "to") ∷ index 0 ∷ []

name_open : is_open (map translate tokens) to_name [] ≡ true
unfolding is_masked translate match_path decimal
name_open = refl

name_found : at_path to_name (some (object login)) ≡ some (string (codes "ann"))
unfolding lookup text_eq
name_found = refl

abbrev allowing : Decision
allowing = record {
  action = Action.allow;
  source = Source.default;
  reason = none;
  rule_index = none;
}

abbrev plain_extra : Extra
plain_extra = record {
  approval_id = none;
  approver = none;
  latency = some 5;
  result_status = none;
  client_name = none;
  error = none;
}

-- A clock that writes a moment as one character.
abbrev tally : Clock
tally = record {
  isoformat = λ t. t ∷ [];
  fromisoformat = λ s. elim s [ [] ↦ none | t ∷ rest ↦ some t ];
}

tally_reads : ReadsBack tally
tally_reads = record { moment = λ t. refl; empty = refl }

written_encodable : fields_encodable written.arguments ≡ true
unfolding encodable
written_encodable = refl

row_to_event-event_row_example :
    row_to_event tally (event_row tally written)
    ≡ ok (record written { arguments = sort_fields written.arguments })
row_to_event-event_row_example = row_to_event-event_row tally written tally_reads written_encodable
