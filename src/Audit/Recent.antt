-- ===== src/Audit/Recent.antt =====
-- `recent` of audit/store.py: the newest events that a filter lets through, a page at a time.
use mathlib.Core.List.{Perm, reverse, reverse_perm}
use mathlib.Core.List.Perm
use mcp_gatekeeper.Prelude.{
  ℕ, ◌+◌, [], ◌∷◌, ◌++◌, Bool, true, false, ◌&&◌, Option, none, some, leb, Text, ℤ, pos, negsuc,
  pos_part, take, drop, take-drop, drop-drop, keep, sort_by, Sorted, sort_by-perm, sort_by-Sorted,
  ◌≡◌, refl, sym, ap, ◌∙◌, arith,
}
use mcp_gatekeeper.Policy.{Action, allow, deny, require_approval}
use mcp_gatekeeper.Audit.{AuditEvent}
use mcp_gatekeeper.Audit.Like.{like, around}
use mcp_gatekeeper.Audit.Store.{Log, AuditStore, null_store, sqlite_store}

abbrev pub same_action : Action → Action → Bool
same_action allow allow = true
same_action deny deny = true
same_action require_approval require_approval = true
same_action _ _ = false

-- The two clauses of WHERE, each of which is left out where its filter is empty.
abbrev pub tool_fits : Option Text → AuditEvent → Bool
tool_fits none e = true
tool_fits (some []) e = true
tool_fits (some (c ∷ t)) e = like (around (c ∷ t)) e.tool

abbrev pub action_fits : Option Action → AuditEvent → Bool
action_fits none e = true
action_fits (some a) e = same_action e.action a

abbrev pub newest_first : AuditEvent → AuditEvent → Bool
newest_first e f = leb f.created_at e.created_at

-- ORDER BY created_at DESC, id DESC: of one moment, the later row comes first.
unfoldable pub newest : Log → Log
unfolding sort_by
newest log = sort_by newest_first (reverse log)

-- LIMIT: a negative one is no limit.
abbrev pub limited : ℤ → Log → Log
limited (pos n) log = take n log
limited (negsuc n) log = log

unfoldable pub recent_rows : ℤ → ℤ → Option Text → Option Action → Log → Log
unfolding newest like
recent_rows limit offset tool action log =
    limited limit
      (drop (pos_part offset) (newest (keep (λ e. tool_fits tool e && action_fits action e) log)))

-- `recent` of both stores.
unfoldable pub recent : ℤ → ℤ → Option Text → Option Action → AuditStore → Log
unfolding recent_rows
recent limit offset tool action null_store = []
recent limit offset tool action (sqlite_store log) = recent_rows limit offset tool action log

newest_total : (e f : AuditEvent) → newest_first e f ≡ false → newest_first f e ≡ true
newest_total e f h = ground arith

-- Two pages, the second of which begins where the first ends, are one longer page: no event between
-- them is left out and none is shown twice.
pub recent-pages :
    (tool : Option Text) (action : Option Action) (n m k : ℕ) (s : AuditStore)
    → recent (pos n) (pos k) tool action s ++ recent (pos m) (pos (k + n)) tool action s
      ≡ recent (pos (n + m)) (pos k) tool action s
unfolding recent
recent-pages tool action n m k null_store = refl
recent-pages tool action n m k (sqlite_store log) =
    let rows = newest (keep (λ e. tool_fits tool e && action_fits action e) log) in
    ap (λ r. take n (drop k rows) ++ take m r) (sym (drop-drop k n rows))
    ∙ take-drop n m (drop k rows)

-- Without a limit and from the start, the listing holds exactly the recorded events that the filters
-- let through, each as often as it is there, the newest first.
pub recent-all :
    (tool : Option Text) (action : Option Action) (n : ℕ) (log : Log)
    → let events = recent (negsuc n) (pos 0) tool action (sqlite_store log) in
      Perm events (keep (λ e. tool_fits tool e && action_fits action e) log)
      × Sorted newest_first events
unfolding recent newest
recent-all tool action n log =
    let kept = keep (λ e. tool_fits tool e && action_fits action e) log in
    (
      Perm.trans (sort_by-perm newest_first (reverse kept)) (reverse_perm kept),
      sort_by-Sorted newest_first newest_total (reverse kept),
    )
