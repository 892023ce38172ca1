-- ===== src/Audit/Store.antt =====
-- audit/store.py: the table `audit_events` in the order of its row ids, which AUTOINCREMENT gives.
use mcp_gatekeeper.Prelude.{sort_by, Bool, ℕ, List, [], ◌∷◌, ◌++◌, not, leb, text_eq, length, keep}
use mcp_gatekeeper.Audit.{AuditEvent}

abbrev pub Log : Type 0
Log = List AuditEvent

-- INSERT OR REPLACE: a row of the same `event_id` is deleted, and the new row comes last.
unfoldable pub record_event : AuditEvent → Log → Log
record_event e log = keep (λ f. not (text_eq f.event_id e.event_id)) log ++ e ∷ []

-- The configured store: the table, or the one that drops everything.
pub data AuditStore : Type 0 where
  null_store : AuditStore
  sqlite_store : Log → AuditStore

unfoldable pub record_in : AuditEvent → AuditStore → AuditStore
unfolding record_event
record_in e null_store = null_store
record_in e (sqlite_store log) = sqlite_store (record_event e log)

unfoldable pub count : AuditStore → ℕ
count null_store = 0
count (sqlite_store log) = length log

-- ORDER BY created_at ASC, id ASC: events of one moment keep the order of their row ids.
abbrev pub oldest_first : AuditEvent → AuditEvent → Bool
oldest_first e f = leb e.created_at f.created_at

-- The events in the order in which `export_jsonl` yields them.
unfoldable pub export_order : Log → Log
unfolding sort_by
export_order log = sort_by oldest_first log
