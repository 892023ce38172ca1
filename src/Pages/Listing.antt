-- ===== src/Pages/Listing.antt =====
-- How many events the audit page of ui/app.py shows.
use mathlib.Core.List.{Perm}
use mcp_gatekeeper.Prelude.{
  [], ◌∷◌, ◌++◌, Sorted, ap, ℕ, zero, suc, ◌≤◌, ◌&&◌, ltb, if◌then◌else◌, pos, negsuc, pos_part,
  drop, keep, length, length-take, ◌≡◌, refl, arith,
}
use mcp_gatekeeper.Audit.Store.{Log, AuditStore, null_store, sqlite_store}
use mcp_gatekeeper.Audit.Recent.{
  tool_fits, action_fits, newest_first, recent-all, newest, recent_rows, recent,
}
use mcp_gatekeeper.Pages.{Query, parse_action, audit_log}

-- A page whose limit is not negative shows at most that many events and at most 500.
pub audit_log-bounded :
    (q : Query) (audit : AuditStore) (n : ℕ)
    → q.limit ≡ pos n
    → (length (audit_log q audit).events ≤ n) × (length (audit_log q audit).events ≤ 500)
unfolding audit_log recent recent_rows
audit_log-bounded q null_store n h = (omega arith, omega arith)
audit_log-bounded q (sqlite_store log) n h =
    let rows =
      drop (pos_part q.offset)
        (newest (keep (λ e. tool_fits q.tool e && action_fits (parse_action q.action) e) log)) in
    let bound = length-take (if ltb 500 n then 500 else n) rows in
    rw h (ground (arith, bound), ground (arith, bound))

drop-Split :
    (k : ℕ) (log : Log) → (skipped : Log) × (length skipped ≤ k) × (skipped ++ drop k log ≡ log)
drop-Split zero log = ([], omega arith, refl)
drop-Split (suc k) [] = ([], omega arith, refl)
drop-Split (suc k) (e ∷ log) =
    let (skipped, short, same) = drop-Split k log in
    (e ∷ skipped, omega arith, ap (λ rest. e ∷ rest) same)

-- A negative limit lifts the cap: the page then lacks, of the recorded events that pass the two filters, at
-- most as many as its offset says, and these are the newest; all others it shows, each as often as it was
-- recorded and the newest first, however many they are.
pub audit_log-unbounded :
    (q : Query) (log : Log) (n : ℕ)
    → q.limit ≡ negsuc n
    → (skipped : Log) × (length skipped ≤ pos_part q.offset)
      × Perm
          (skipped ++ (audit_log q (sqlite_store log)).events)
          (keep (λ e. tool_fits q.tool e && action_fits (parse_action q.action) e) log)
      × Sorted newest_first (skipped ++ (audit_log q (sqlite_store log)).events)
unfolding audit_log recent recent_rows
audit_log-unbounded q log n h =
    let (perm, sorted) = recent-all q.tool (parse_action q.action) n log in
    let (skipped, short, same) =
      drop-Split (pos_part q.offset)
        (recent (negsuc n) (pos 0) q.tool (parse_action q.action) (sqlite_store log)) in
    rw h (skipped, short, rw same perm, rw same sorted)
