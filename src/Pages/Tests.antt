-- ===== src/Pages/Tests.antt =====
-- A form posted on a request of the queue, and a query of the audit page.
use mathlib.Core.List.{Perm}
use mcp_gatekeeper.Prelude.{
  ◌≤◌, ◌∷◌, ◌++◌, Sorted, [], true, ◌&&◌, none, some, codes, text_eq, length, keep, pos, negsuc,
  ◌≡◌, refl,
}
use mcp_gatekeeper.Approvals.{is_pending}
use mcp_gatekeeper.Approvals.Store
use mcp_gatekeeper.Approvals.Samples.{first_id, parked_row, denying}
use mcp_gatekeeper.Audit.Samples.{written}
use mcp_gatekeeper.Audit.Store.{Log, sqlite_store}
use mcp_gatekeeper.Audit.Recent.{tool_fits, action_fits, newest_first}
use mcp_gatekeeper.Pages.{Form, Query, parse_action, audit_log}
use mcp_gatekeeper.Pages.Listing.{audit_log-bounded, audit_log-unbounded}

abbrev nameless : Form
nameless = record {
  decision = codes "approve";
  approver = codes "  ";
  note = [];
  redirect_to = codes "https://example.org/";
}

abbrev rejecting : Form
rejecting = record nameless { decision = codes "deny"; approver = codes "bob" }

row_found : Store.get first_id denying.store ≡ some parked_row
unfolding Store.get text_eq
row_found = refl

row_pending : is_pending parked_row.status ≡ true
row_pending = refl

abbrev long_page : Query
long_page = record { tool = none; action = none; limit = pos 900; offset = pos 2 }

abbrev whole_log : Query
whole_log = record long_page { limit = negsuc 0 }

audit_log-bounded_example :
    (length (audit_log long_page (sqlite_store [])).events ≤ 900)
    × (length (audit_log long_page (sqlite_store [])).events ≤ 500)
audit_log-bounded_example = audit_log-bounded long_page (sqlite_store []) 900 refl

-- Three recorded calls.
abbrev three : Log
three =
    written
    ∷ record written { event_id = codes "e2"; created_at = 12 }
    ∷ record written { event_id = codes "e3"; created_at = 11 }
    ∷ []

audit_log-unbounded_example :
    (skipped : Log) × (length skipped ≤ 2)
    × Perm
        (skipped ++ (audit_log whole_log (sqlite_store three)).events)
        (keep (λ e. tool_fits none e && action_fits (parse_action none) e) three)
    × Sorted newest_first (skipped ++ (audit_log whole_log (sqlite_store three)).events)
audit_log-unbounded_example = audit_log-unbounded whole_log three 0 refl
