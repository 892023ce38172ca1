-- ===== src/Audit/Jsonl.antt =====
-- The JSON lines of the audit trail: `to_json` and `to_jsonl` of audit/models.py, `export_jsonl` of
-- audit/store.py, and the line breaks that ui/app.py and cli.py put behind each line.
use mcp_gatekeeper.Prelude.{
  ℕ, List, [], ◌∷◌, ◌++◌, true, ◌==◌, Option, none, some, if◌then◌else◌, Text, codes, map, ◌≡◌,
  refl, ap, ◌∙◌, inl, inr, Bool-cases, arith, All, sort_by, All-sort_by, zero, suc, ◌+◌, ◌/◌, ◌%◌,
  ltb, all-append,
}
use mcp_gatekeeper.Json.{Value, null, number, string, object, Fields, end, field}
use mcp_gatekeeper.Json.Dumps.{is_printable, dumps}
use mcp_gatekeeper.Json.Printable.{is_printable_text, numbers_print, dumps-printable}
use mcp_gatekeeper.Policy.{action_value, source_value}
use mcp_gatekeeper.Audit.{
  AuditEvent, Outcome, forwarded, denied_by_policy, denied_by_approver, dismissed_by_client,
  timed_out, awaiting_approval, unknown_tool, ResultStatus, ok,
}
use mcp_gatekeeper.Audit.Redact.{decimal, decimal_from}
use mcp_gatekeeper.Audit.Store.{Log, oldest_first, export_order}

-- How Python writes a moment and a count of microseconds in milliseconds.
pub record Rendering : Type 0 where
  pub isoformat : ℕ → Text
  pub milliseconds : ℕ → Text

abbrev pub outcome_value : Outcome → Text
outcome_value forwarded = codes "forwarded"
outcome_value denied_by_policy = codes "denied_by_policy"
outcome_value denied_by_approver = codes "denied_by_approver"
outcome_value dismissed_by_client = codes "dismissed_by_client"
outcome_value timed_out = codes "timed_out"
outcome_value awaiting_approval = codes "awaiting_approval"
outcome_value Outcome.error = codes "error"
outcome_value unknown_tool = codes "unknown_tool"

abbrev pub status_value : ResultStatus → Text
status_value ok = codes "ok"
status_value ResultStatus.error = codes "error"

abbrev pub or_null {ℓ} : {A : Type ℓ} → (A → Value) → Option A → Value
or_null f none = null
or_null f (some a) = f a

unfoldable pub to_json : Rendering → AuditEvent → Fields
unfolding decimal
to_json r e = field (codes "event_id") (string e.event_id) (
    field (codes "timestamp") (string (r.isoformat e.created_at)) (
      field (codes "tool") (string e.tool) (
        field (codes "upstream") (string e.upstream) (
          field (codes "arguments") (object e.arguments) (
            field (codes "action") (string (action_value e.action)) (
              field (codes "decision")
                (object (
                  field (codes "source") (string (source_value e.decision_source)) (
                    field (codes "reason") (or_null string e.decision_reason) (
                      field (codes "rule_index") (or_null (λ n. number (decimal n)) e.rule_index)
                        end))))
                (field (codes "outcome") (string (outcome_value e.outcome)) (
                  field (codes "approval")
                    (object (
                      field (codes "id") (or_null string e.approval_id)
                        (field (codes "approver") (or_null string e.approver) end)))
                    (field (codes "latency_ms") (or_null (λ n. number (r.milliseconds n)) e.latency)
                      (field (codes "result_status")
                        (or_null (λ s. string (status_value s)) e.result_status)
                        (field (codes "client") (or_null string e.client_name)
                          (field (codes "error") (or_null string e.error) end))))))))))))

unfoldable pub to_jsonl : Rendering → AuditEvent → Text
unfolding to_json dumps
to_jsonl r e = dumps (object (to_json r e))

unfoldable pub export_jsonl : Rendering → Log → List Text
unfolding to_jsonl export_order
export_jsonl r log = map (to_jsonl r) (export_order log)

-- `line + "\n"` of every line.
abbrev pub with_breaks : List Text → Text
with_breaks [] = []
with_breaks (line ∷ lines) = line ++ (10 ∷ with_breaks lines)

abbrev pub onto_first : ℕ → List Text → List Text
onto_first c [] = (c ∷ []) ∷ []
onto_first c (line ∷ lines) = (c ∷ line) ∷ lines

-- The lines of a text each of which ends in a line break.
unfoldable pub read_lines : Text → List Text
read_lines [] = []
read_lines (c ∷ s) = if c == 10 then [] ∷ read_lines s else onto_first c (read_lines s)

read_lines-line :
    (line rest : Text)
    → is_printable_text line ≡ true
    → read_lines (line ++ 10 ∷ rest) ≡ line ∷ read_lines rest
unfolding read_lines
read_lines-line [] rest h = refl
read_lines-line (c ∷ line) rest h = ground (arith, read_lines-line line rest)

digits-printable : (fuel n : ℕ) → is_printable_text (decimal_from fuel n) ≡ true
unfolding decimal_from
digits-printable zero n = refl
digits-printable (suc fuel) n = elim (Bool-cases (ltb n 10)) [
  | inl h ↦ rw h (ground arith)
  | inr h ↦ rw h (
      all-append is_printable (decimal_from fuel (n / 10)) ((n % 10 + 48) ∷ [])
        (digits-printable fuel (n / 10)) (ground arith))
]

pub decimal-printable : (n : ℕ) → is_printable_text (decimal n) ≡ true
unfolding decimal
decimal-printable n = digits-printable (suc n) n

or_null-print :
    {A : Type 0} (f : A → Value) (o : Option A)
    → ((a : A) → numbers_print (f a) ≡ true)
    → numbers_print (or_null f o) ≡ true
unfolding numbers_print
or_null-print f none h = refl
or_null-print f (some a) h = h a

-- The numbers of the event are written in printable characters.
abbrev pub NumbersPrint : AuditEvent → Type 0
NumbersPrint e = numbers_print (object e.arguments) ≡ true

module _ (r : Rendering) (latencies : (n : ℕ) → is_printable_text (r.milliseconds n) ≡ true) where
  to_json-print : (e : AuditEvent) → NumbersPrint e → numbers_print (object (to_json r e)) ≡ true
  unfolding to_json numbers_print
  to_json-print e h = rw (
    h,
    or_null-print string e.decision_reason (λ _. refl),
    or_null-print (λ n. number (decimal n)) e.rule_index decimal-printable,
    or_null-print string e.approval_id (λ _. refl),
    or_null-print string e.approver (λ _. refl),
    or_null-print (λ n. number (r.milliseconds n)) e.latency latencies,
    or_null-print (λ s. string (status_value s)) e.result_status (λ _. refl),
    or_null-print string e.client_name (λ _. refl),
    or_null-print string e.error (λ _. refl),
  )

  to_jsonl-printable : (e : AuditEvent) → NumbersPrint e → is_printable_text (to_jsonl r e) ≡ true
  unfolding to_jsonl
  to_jsonl-printable e h = dumps-printable (object (to_json r e)) (to_json-print e h)

  lines-with_breaks :
      (log : Log)
      → All NumbersPrint log
      → read_lines (with_breaks (map (to_jsonl r) log)) ≡ map (to_jsonl r) log
  unfolding read_lines
  lines-with_breaks [] h = refl
  lines-with_breaks (e ∷ log) h =
      read_lines-line (to_jsonl r e) (with_breaks (map (to_jsonl r) log)) (to_jsonl-printable e h.0)
      ∙ ap (λ lines. to_jsonl r e ∷ lines) (lines-with_breaks log h.1)

  -- A reader that splits an export at its line breaks gets back one line for each recorded event, the
  -- oldest first: no text in an event can break or join lines. The numbers in the arguments and the
  -- latencies are taken to be written in printable characters, as Python writes them.
  pub export_jsonl-read_lines :
      (log : Log)
      → All NumbersPrint log
      → read_lines (with_breaks (export_jsonl r log)) ≡ map (to_jsonl r) (sort_by oldest_first log)
  unfolding export_jsonl
  export_jsonl-read_lines log h =
      lines-with_breaks (sort_by oldest_first log) (All-sort_by oldest_first NumbersPrint log h)
