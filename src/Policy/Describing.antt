-- ===== src/Policy/Describing.antt =====
-- `Decision.describe` of policy/models.py.
use mcp_gatekeeper.Prelude.{
  ℕ, [], ◌++◌, Option, none, some, if◌then◌else◌, Text, codes, truthy, or_text,
}
use mcp_gatekeeper.Policy.{Decision, Source, action_value}
use mcp_gatekeeper.Audit.Redact.{decimal}

abbrev pub index_text : Option ℕ → Text
unfolding decimal
index_text none = codes "None"
index_text (some n) = decimal n

abbrev pub where_text : Decision → Text
unfolding index_text
where_text d = elim d.source [
  | Source.rule ↦ codes "rule #" ++ index_text d.rule_index
  | Source.default ↦ codes "default policy"
]

unfoldable pub describe : Decision → Text
unfolding where_text
describe d =
    let head = action_value d.action ++ (codes " (" ++ (where_text d ++ codes ")")) in
    if truthy (or_text d.reason []) then head ++ (codes ": " ++ or_text d.reason []) else head
