-- ===== src/Approvals/Store/Rows.antt =====
-- What one operation of the table does to the row of each id (approvals/store.py).
use mcp_gatekeeper.Prelude.{
  ℕ, [], ◌∷◌, true, false, Option, none, some, if◌then◌else◌, Text, text_eq, text_eq_iff,
  text_eq_self, arith, ◌≡◌, refl, ◌∙◌, inl, inr, Bool-cases, Option-cases,
}
use mcp_gatekeeper.Approvals.{is_pending, ApprovalRequest}
use mcp_gatekeeper.Approvals.Store.{
  Table, get, update_where, Verdict, decided, claims, resolve, overdue, timed_out, expire_overdue,
}

-- The row of an id after a decision: written if it was pending, and else kept.
abbrev pub settle : Verdict → ApprovalRequest → ApprovalRequest
settle v r = if is_pending r.status then decided v r else r

abbrev pub map_row :
    (ApprovalRequest → ApprovalRequest) → Option ApprovalRequest → Option ApprovalRequest
map_row f none = none
map_row f (some r) = some (f r)

get-update :
    (id j : Text) (v : Verdict) (rows : Table)
    → get j (update_where (claims id) (decided v) rows)
      ≡ (if text_eq id j then map_row (settle v) (get j rows) else get j rows)
unfolding get update_where
get-update id j v [] = ground arith
get-update id j v (r ∷ rows) =
    ground
      (arith, text_eq_iff r.id id, text_eq_iff r.id j, text_eq_iff id j, get-update id j v rows)

get-update_self :
    (id : Text) (v : Verdict) (rows : Table)
    → get id (update_where (claims id) (decided v) rows) ≡ map_row (settle v) (get id rows)
get-update_self id v rows = rw (get-update id id v rows) (rw (text_eq_self id))

pub decided-settled : (v : Verdict) (r : ApprovalRequest) → is_pending (decided v r).status ≡ false
decided-settled v r = ground arith

settle-settled : (v w : Verdict) (r : ApprovalRequest) → settle w (settle v r) ≡ settle v r
settle-settled v w r = ground (arith, decided-settled v r)

settle-id : (v : Verdict) (r : ApprovalRequest) → is_pending r.status ≡ false → settle v r ≡ r
settle-id v r h = rw h

pub resolve-none :
    (id : Text) (v : Verdict) (rows : Table) → get id rows ≡ none → resolve id v rows ≡ (rows, none)
resolve-none id v rows h = unfold resolve in rw (h, resolve)

pub resolve-settled :
    (id : Text) (v : Verdict) (rows : Table) (r : ApprovalRequest)
    → get id rows ≡ some r
    → is_pending r.status ≡ false
    → resolve id v rows ≡ (rows, some r)
resolve-settled id v rows r h k = unfold resolve in rw (h, k, resolve)

pub resolve-pending :
    (id : Text) (v : Verdict) (rows : Table) (r : ApprovalRequest)
    → get id rows ≡ some r
    → is_pending r.status ≡ true
    → resolve id v rows ≡ (
      update_where (claims id) (decided v) rows,
      get id (update_where (claims id) (decided v) rows),
    )
resolve-pending id v rows r h k = unfold resolve in rw (h, k, resolve)

-- A decision writes the row of its id, if that row is there and pending, and changes the row of no
-- other id; what it returns is the row of its id as it then stands, none where there is no row.
pub get-resolve :
    (id j : Text) (v : Verdict) (rows : Table)
    → (get j (resolve id v rows).0
        ≡ (if text_eq id j then map_row (settle v) (get j rows) else get j rows))
      × ((resolve id v rows).1 ≡ map_row (settle v) (get id rows))
get-resolve id j v rows = elim (Option-cases (get id rows)) [
  | inl h ↦ rw (resolve-none id v rows h) (ground (arith, text_eq_iff id j), ground arith)
  | inr (r, h) ↦ elim (Bool-cases (is_pending r.status)) [
    | inl k ↦
        rw (resolve-pending id v rows r h k) (get-update id j v rows, get-update_self id v rows)
    | inr k ↦
        rw (resolve-settled id v rows r h k)
          (ground (arith, text_eq_iff id j, settle-id v r), ground (arith, settle-id v r))
  ]
]

-- Of two decisions on one request the first wins: the second changes nothing, and returns what the
-- first returned.
pub resolve-resolve :
    (id : Text) (v w : Verdict) (rows : Table)
    → resolve id w (resolve id v rows).0 ≡ resolve id v rows
resolve-resolve id v w rows = elim (Option-cases (get id rows)) [
  | inl h ↦ rw (resolve-none id v rows h) (resolve-none id w rows h)
  | inr (r, h) ↦ elim (Bool-cases (is_pending r.status)) [
    | inl k ↦
        let rows' = update_where (claims id) (decided v) rows in
        let now_settled : get id rows' ≡ some (decided v r) =
          get-update_self id v rows ∙ ground (arith, h, k) in
        rw (resolve-pending id v rows r h k) (
          rw now_settled
            (resolve-settled id w rows' (decided v r) now_settled (decided-settled v r)))
    | inr k ↦ rw (resolve-settled id v rows r h k) (resolve-settled id w rows r h k)
  ]
]

abbrev pub lapse : ℕ → ApprovalRequest → ApprovalRequest
lapse now r = if overdue now r then timed_out now r else r

-- Expiry turns every pending row whose deadline has come into an expired one, and changes no other.
pub get-expire :
    (now : ℕ) (j : Text) (rows : Table)
    → get j (expire_overdue now rows).0 ≡ map_row (lapse now) (get j rows)
unfolding expire_overdue get
get-expire now j [] = refl
get-expire now j (r ∷ rows) = ground (arith, get-expire now j rows)

timed_out-settled : (now t : ℕ) (r : ApprovalRequest) → overdue t (timed_out now r) ≡ false
timed_out-settled now t r = refl

-- A second expiry at the same moment finds nothing to do.
pub expire-expire :
    (now : ℕ) (rows : Table)
    → expire_overdue now (expire_overdue now rows).0 ≡ ((expire_overdue now rows).0, 0)
unfolding expire_overdue update_where
expire-expire now [] = refl
expire-expire now (r ∷ rows) = ground (arith, expire-expire now rows)
