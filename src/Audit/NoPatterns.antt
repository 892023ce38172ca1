-- ===== src/Audit/NoPatterns.antt =====
-- `redact_arguments` (audit/models.py) with no pattern.
use mcp_gatekeeper.Prelude.{ℕ, ◌+◌, [], Text, map, ◌≡◌, refl, sym, ap, arith}
use mcp_gatekeeper.Json.{
  Value, null, boolean, number, string, array, object, Items, nil, cons, Fields, end, field,
}
use mcp_gatekeeper.Audit.Redact.{
  translate, key_path, index_path, redact, redact_items, redact_fields, as_fields, redact_arguments,
}
use mcp_gatekeeper.Audit.Masking.{no_patterns}

-- With no pattern the walk changes nothing, so the early return of `redact_arguments` is only faster.
mutual
  unfolding redact

  redact_none : (v : Value) (prefix : Text) → redact [] v prefix ≡ v
  redact_none null prefix = rw (no_patterns prefix)
  redact_none (boolean b) prefix = rw (no_patterns prefix)
  redact_none (number s) prefix = rw (no_patterns prefix)
  redact_none (string s) prefix = rw (no_patterns prefix)
  redact_none (array xs) prefix = rw (no_patterns prefix) (ap array (redact_items_none xs prefix 0))
  redact_none (object fs) prefix =
      rw (no_patterns prefix) (ap object (redact_fields_none fs prefix))

  redact_items_none : (xs : Items) (prefix : Text) (n : ℕ) → redact_items [] xs prefix n ≡ xs
  redact_items_none nil prefix n = refl
  redact_items_none (cons x xs) prefix n =
      ground (arith, redact_none x (index_path prefix n), redact_items_none xs prefix (n + 1))

  redact_fields_none : (fs : Fields) (prefix : Text) → redact_fields [] fs prefix ≡ fs
  redact_fields_none end prefix = refl
  redact_fields_none (field k v fs) prefix =
      ground (arith, redact_none v (key_path prefix k), redact_fields_none fs prefix)

-- The early return for an empty list of patterns gives what the walk with no pattern would give.
pub redact_arguments-nil :
    (arguments : Fields)
    → redact_arguments arguments [] ≡ as_fields (redact (map translate []) (object arguments) [])
unfolding redact_arguments
redact_arguments-nil arguments = sym (ap as_fields (redact_none (object arguments) []))
