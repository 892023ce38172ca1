-- ===== src/Json/Tests.antt =====
-- A value with nesting, an escape, a character beyond the first plane and keys out of order.
use mcp_gatekeeper.Prelude.{[], ◌∷◌, true, codes, text_lt, ◌≡◌, refl}
use mcp_gatekeeper.Json.{Value, boolean, number, string, array, object, nil, cons, end, field}
use mcp_gatekeeper.Json.Dumps.{dumps}
use mcp_gatekeeper.Json.Encodable.{encodable}

abbrev sample : Value
sample = object (
    field (codes "to") (array (cons (number (codes "-1.5e3")) (cons (boolean true) nil)))
      (field (codes "at") (string (b'a' ∷ 10 ∷ 0x1F600 ∷ 233 ∷ [])) end))

sample_text : dumps sample ≡ codes "{\"at\": \"a\\n\\ud83d\\ude00\\u00e9\", \"to\": [-1.5e3, true]}"
unfolding dumps text_lt
sample_text = refl

sample-encodable : encodable sample ≡ true
unfolding encodable
sample-encodable = refl
