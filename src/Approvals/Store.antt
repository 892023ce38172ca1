-- ===== src/Approvals/Store.antt =====
-- approvals/store.py: the table `approvals`. A row is the request that `_row_to_request` reads back
-- from it; each function is the effect of the SQL that the method runs in one transaction.
pub mod Rows
pub mod History
pub mod Listing
pub mod Columns
use mcp_gatekeeper.Prelude.{
  sort_by, ℕ, zero, suc, ◌+◌, List, [], ◌∷◌, ◌++◌, Bool, true, false, ◌&&◌, Option, none, some,
  if◌then◌else◌, leb, Text, text_eq, keep, take, length,
}
use mcp_gatekeeper.Approvals.{
  ApprovalStatus, pending, approved, denied, expired, is_pending, ApprovalRequest, timeout_approver,
}

abbrev pub Table : Type 0
Table = List ApprovalRequest

-- SELECT ... WHERE id = ?
unfoldable pub get : Text → Table → Option ApprovalRequest
get id [] = none
get id (r ∷ rows) = if text_eq r.id id then some r else get id rows

-- The row that `create` inserts: the columns of the decision are NULL whatever the request holds.
abbrev pub inserted : ApprovalRequest → ApprovalRequest
inserted r = record r { decided_at = none; approver = none; note = none }

-- INSERT; none is the IntegrityError of a primary key that is taken.
unfoldable pub create : ApprovalRequest → Table → Option Table
unfolding get
create r rows = elim (get r.id rows) [ none ↦ some (rows ++ inserted r ∷ []) | some _ ↦ none ]

-- UPDATE ... SET ... WHERE ...
unfoldable pub update_where :
    (ApprovalRequest → Bool) → (ApprovalRequest → ApprovalRequest) → Table → Table
update_where test change [] = []
update_where test change (r ∷ rows) =
    (if test r then change r else r) ∷ update_where test change rows

pub record Verdict : Type 0 where
  pub granted : Bool
  pub approver : Text
  pub note : Option Text
  pub decided_at : ℕ

abbrev pub decided : Verdict → ApprovalRequest → ApprovalRequest
decided v r = record r {
  status = if v.granted then approved else denied;
  decided_at = some v.decided_at;
  approver = some v.approver;
  note = v.note;
}

abbrev pub claims : Text → ApprovalRequest → Bool
claims id r = text_eq r.id id && is_pending r.status

-- `resolve`: the first decision on a pending row is written; any other reads the row as it is.
unfoldable pub resolve : Text → Verdict → Table → Table × Option ApprovalRequest
unfolding get update_where
resolve id v rows = elim (get id rows) [
  | none ↦ (rows, none)
  | some current ↦
      let rows' = update_where (claims id) (decided v) rows in
      if is_pending current.status then (rows', get id rows') else (rows, some current)
]

abbrev pub overdue : ℕ → ApprovalRequest → Bool
overdue now r = is_pending r.status && leb r.expires_at now

abbrev pub timed_out : ℕ → ApprovalRequest → ApprovalRequest
timed_out now r = record r {
  status = expired;
  decided_at = some now;
  approver = some timeout_approver;
}

-- `expire_overdue` with the cursor's `rowcount`.
unfoldable pub expire_overdue : ℕ → Table → Table × ℕ
unfolding update_where
expire_overdue now rows =
    (update_where (overdue now) (timed_out now) rows, length (keep (overdue now) rows))

-- ORDER BY created_at: rows of one moment keep the order of their insertion.
abbrev pub older : ApprovalRequest → ApprovalRequest → Bool
older r s = leb r.created_at s.created_at

abbrev pub newer : ApprovalRequest → ApprovalRequest → Bool
newer r s = leb s.created_at r.created_at

unfoldable pub pending_rows : Table → Table
unfolding sort_by
pending_rows rows = sort_by older (keep (λ r. is_pending r.status) rows)

unfoldable pub recent : ℕ → Table → Table
unfolding sort_by
recent limit rows = take limit (sort_by newer rows)
