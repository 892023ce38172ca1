-- ===== src/Database/Trail.antt =====
-- The audit store on its database (audit/store.py over db.py).
use mcp_gatekeeper.Prelude.{ℕ, ℤ, Option, Text, length, ◌≡◌, refl}
use mcp_gatekeeper.Prelude.Results.{Result, ok}
use mcp_gatekeeper.Policy.{Action}
use mcp_gatekeeper.Audit.{AuditEvent}
use mcp_gatekeeper.Audit.Store.{
  Log, AuditStore, sqlite_store, record_event, record_in, count, export_order,
}
use mcp_gatekeeper.Audit.Recent.{recent_rows, recent}
use mcp_gatekeeper.Database.{File, Database, idle, Failure, execute, fetch}

abbrev pub with_events : File → Log → File
with_events f log = record f { events = log }

-- INSERT OR REPLACE INTO audit_events.
unfoldable pub record_through : AuditEvent → Database → Result Failure (Unit {0}) × Database
unfolding execute record_event
record_through e db = execute (λ f. ok (with_events f (record_event e f.events))) db

unfoldable pub recent_through :
    ℤ → ℤ → Option Text → Option Action → Database → Result Failure Log × Database
unfolding fetch recent_rows
recent_through limit offset tool action db =
    fetch (λ f. recent_rows limit offset tool action f.events) db

unfoldable pub count_through : Database → Result Failure ℕ × Database
unfolding fetch
count_through db = fetch (λ f. length f.events) db

unfoldable pub export_through : Database → Result Failure Log × Database
unfolding fetch export_order
export_through db = fetch (λ f. export_order f.events) db

abbrev idle_with : File → Database
idle_with f = record { disk = f; link = idle }

abbrev store_of : File → AuditStore
store_of f = sqlite_store f.events

-- On an open connection with no transaction, recording commits the log that `record_in` leaves, and reading
-- back at once gives what `recent` and `count` give of that log and commits nothing.
pub record_through-recent_through :
    (e : AuditEvent) (limit offset : ℤ) (tool : Option Text) (action : Option Action) (f : File)
    → let db = (record_through e (idle_with f)).1 in
      (store_of db.disk ≡ record_in e (store_of f))
      × (recent_through limit offset tool action db
          ≡ (ok (recent limit offset tool action (record_in e (store_of f))), db))
      × (count_through db ≡ (ok (count (record_in e (store_of f))), db))
unfolding record_through recent_through count_through record_in recent count
record_through-recent_through e limit offset tool action f = (refl, refl, refl)
