-- ===== src/Approvals/Store/History/Valid.antt =====
-- What holds of every row of the table `approvals` (approvals/store.py) after any writes.
use mcp_gatekeeper.Prelude.{
  ℕ, [], ◌∷◌, ◌++◌, Bool, true, false, not, ◌&&◌, Option, none, some, Text, text_eq, text_eq_iff,
  arith, ◌≡◌, refl, ap, ◌∙◌, ◌⊎◌, inl, inr, Bool-cases, Option-cases, is_some, All,
}
use mcp_gatekeeper.Approvals.{is_pending, ApprovalRequest}
use mcp_gatekeeper.Approvals.Store.{
  Table, get, create, inserted, update_where, Verdict, decided, claims, resolve, overdue, timed_out,
  expire_overdue,
}
use mcp_gatekeeper.Approvals.Store.Rows.{
  resolve-none, resolve-settled, resolve-pending, decided-settled,
}
use mcp_gatekeeper.Approvals.Store.History.{
  Write, created, resolved, lapsed, Writes, here, next, create_inv,
}

-- A pending row has no decision, and a settled one has a moment and an actor.
pub record IsRow (r : ApprovalRequest) : Type 0 where
  pub undecided :
      is_pending r.status ≡ true → (r.decided_at ≡ none) × (r.approver ≡ none) × (r.note ≡ none)
  pub decided :
      is_pending r.status ≡ false → (is_some r.decided_at ≡ true) × (is_some r.approver ≡ true)

-- No row of the table has this id.
abbrev pub absent : Text → Table → Bool
absent id [] = true
absent id (r ∷ rows) = not (text_eq r.id id) && absent id rows

abbrev pub distinct : Table → Bool
distinct [] = true
distinct (r ∷ rows) = absent r.id rows && distinct rows

pub record IsTable (rows : Table) : Type 0 where
  pub ids : distinct rows ≡ true
  pub rows_ok : All IsRow rows

-- The two updates keep the id of a row and what holds of it.
IsRow-decided : (v : Verdict) (r : ApprovalRequest) → IsRow (decided v r)
IsRow-decided v r = record {
  undecided = λ h. ground (arith, decided-settled v r);
  decided = λ h. (refl, refl);
}

IsRow-timed_out :
    (now : ℕ) (r : ApprovalRequest) → IsRow r → is_pending r.status ≡ true → IsRow (timed_out now r)
IsRow-timed_out now r v p = record { undecided = λ h. ground arith; decided = λ h. (refl, refl) }

IsRow-inserted : (r : ApprovalRequest) → is_pending r.status ≡ true → IsRow (inserted r)
IsRow-inserted r p = record { undecided = λ h. (refl, refl, refl); decided = λ h. ground arith }

module _ (test : ApprovalRequest → Bool) (change : ApprovalRequest → ApprovalRequest) where
  absent-update :
      ((r : ApprovalRequest) → (change r).id ≡ r.id)
      → (id : Text) (rows : Table) → absent id (update_where test change rows) ≡ absent id rows
  unfolding update_where
  absent-update same id [] = refl
  absent-update same id (r ∷ rows) = ground (arith, same r, absent-update same id rows)

  distinct-update :
      ((r : ApprovalRequest) → (change r).id ≡ r.id)
      → (rows : Table) → distinct (update_where test change rows) ≡ distinct rows
  unfolding update_where
  distinct-update same [] = refl
  distinct-update same (r ∷ rows) =
      ground (arith, same r, absent-update same r.id rows, distinct-update same rows)

  All-update :
      ((r : ApprovalRequest) → test r ≡ true → IsRow r → IsRow (change r))
      → (rows : Table) → All IsRow rows
      → All IsRow (update_where test change rows)
  unfolding update_where
  All-update keeps [] h = tt
  All-update keeps (r ∷ rows) h = elim (Bool-cases (test r)) [
    | inl e ↦ rw e (keeps r e h.0, All-update keeps rows h.1)
    | inr e ↦ rw e (h.0, All-update keeps rows h.1)
  ]

absent-insert :
    (id : Text) (x : ApprovalRequest) (rows : Table)
    → absent id (rows ++ x ∷ []) ≡ (absent id rows && not (text_eq x.id id))
absent-insert id x [] = ground arith
absent-insert id x (r ∷ rows) = ground (arith, absent-insert id x rows)

distinct-insert :
    (x : ApprovalRequest) (rows : Table)
    → get x.id rows ≡ none
    → distinct rows ≡ true
    → distinct (rows ++ x ∷ []) ≡ true
unfolding get
distinct-insert x [] g h = refl
distinct-insert x (r ∷ rows) g h = ground (
  arith,
  distinct-insert x rows,
  absent-insert r.id x rows,
  text_eq_iff r.id x.id,
  text_eq_iff x.id r.id,
)

All-insert :
    (x : ApprovalRequest) (rows : Table) → IsRow x → All IsRow rows → All IsRow (rows ++ x ∷ [])
All-insert x [] v h = (v, tt)
All-insert x (r ∷ rows) v h = (h.0, All-insert x rows v h.1)

-- A decision rewrites the pending rows of its id or nothing.
resolve-rows :
    (id : Text) (v : Verdict) (rows : Table)
    → ((resolve id v rows).0 ≡ rows)
      ⊎ ((resolve id v rows).0 ≡ update_where (claims id) (decided v) rows)
resolve-rows id v rows = elim (Option-cases (get id rows)) [
  | inl h ↦ inl (ap (λ (p : Table × Option ApprovalRequest). p.0) (resolve-none id v rows h))
  | inr (r, h) ↦ elim (Bool-cases (is_pending r.status)) [
    | inl k ↦
        inr (ap (λ (p : Table × Option ApprovalRequest). p.0) (resolve-pending id v rows r h k))
    | inr k ↦
        inl (ap (λ (p : Table × Option ApprovalRequest). p.0) (resolve-settled id v rows r h k))
  ]
]

update-IsTable :
    (test : ApprovalRequest → Bool) (change : ApprovalRequest → ApprovalRequest) (rows : Table)
    → ((r : ApprovalRequest) → (change r).id ≡ r.id)
    → ((r : ApprovalRequest) → test r ≡ true → IsRow r → IsRow (change r))
    → IsTable rows
    → IsTable (update_where test change rows)
update-IsTable test change rows same keeps t = record {
  ids = distinct-update test change same rows ∙ t.ids;
  rows_ok = All-update test change keeps rows t.rows_ok;
}

resolve-IsTable :
    (id : Text) (v : Verdict) (rows : Table) → IsTable rows → IsTable (resolve id v rows).0
resolve-IsTable id v rows t = elim (resolve-rows id v rows) [
  | inl e ↦ rw e t
  | inr e ↦
      rw e (update-IsTable (claims id) (decided v) rows (λ r. refl) (λ r h k. IsRow-decided v r) t)
]

expire-IsTable : (now : ℕ) (rows : Table) → IsTable rows → IsTable (expire_overdue now rows).0
unfolding expire_overdue
expire-IsTable now rows t =
    update-IsTable (overdue now) (timed_out now) rows (λ r. refl)
      (λ r h k. IsRow-timed_out now r k (ground arith)) t

create-IsTable :
    (x : ApprovalRequest) (rows rows' : Table)
    → is_pending x.status ≡ true
    → create x rows ≡ some rows'
    → IsTable rows
    → IsTable rows'
create-IsTable x rows rows' p h t =
    let (fresh, e) = create_inv x rows rows' h in
    rw e (record {
      ids = distinct-insert (inserted x) rows fresh t.ids;
      rows_ok = All-insert (inserted x) rows (IsRow-inserted x p) t.rows_ok;
    })

-- One write keeps the table well formed.
Write-IsTable : {rows rows' : Table} → Write rows rows' → IsTable rows → IsTable rows'
Write-IsTable {rows} {rows'} (created x p e) t = create-IsTable x rows rows' p e t
Write-IsTable {rows} (resolved id v e) t = rw (← e) (resolve-IsTable id v rows t)
Write-IsTable {rows} (lapsed now e) t = rw (← e) (expire-IsTable now rows t)

-- After any writes to the empty table, no two rows share an id, a pending row shows no decision, and
-- every settled row shows when and by whom it was settled.
pub Writes-IsTable : {rows : Table} → Writes [] rows → IsTable rows
Writes-IsTable here = record { ids = refl; rows_ok = tt }
Writes-IsTable (next ws w) = Write-IsTable w (Writes-IsTable ws)
