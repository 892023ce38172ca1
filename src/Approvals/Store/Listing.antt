-- ===== src/Approvals/Store/Listing.antt =====
-- The lists that the approval page reads (approvals/store.py).
use mathlib.Core.List.{Perm}
use mcp_gatekeeper.Prelude.{
  ◌≡◌, true, false, Sorted, sort_by-perm, sort_by-Sorted, ◌≤◌, [], ◌∷◌, arith, keep,
}
use mcp_gatekeeper.Approvals.{is_pending, ApprovalRequest}
use mcp_gatekeeper.Approvals.Store.{Table, older, pending_rows}

-- Oldest first.
abbrev pub OldestFirst : Table → Type 0
OldestFirst [] = Unit
OldestFirst (r ∷ []) = Unit
OldestFirst (r ∷ s ∷ rows) = (r.created_at ≤ s.created_at) × OldestFirst (s ∷ rows)

Sorted-OldestFirst : (rows : Table) → Sorted older rows → OldestFirst rows
Sorted-OldestFirst [] o = tt
Sorted-OldestFirst (r ∷ []) o = tt
Sorted-OldestFirst (r ∷ s ∷ rows) o = (ground (arith, o.0), Sorted-OldestFirst (s ∷ rows) o.1)

older_total : (r s : ApprovalRequest) → older r s ≡ false → older s r ≡ true
older_total r s h = ground arith

-- The queue shows exactly the pending rows, each as often as it is there, the oldest first.
pub pending_rows_lem :
    (rows : Table)
    → Perm (pending_rows rows) (keep (λ r. is_pending r.status) rows)
      × OldestFirst (pending_rows rows)
unfolding pending_rows
pending_rows_lem rows = (
  sort_by-perm older (keep (λ r. is_pending r.status) rows),
  Sorted-OldestFirst (pending_rows rows)
      (sort_by-Sorted older older_total (keep (λ r. is_pending r.status) rows)),
)
