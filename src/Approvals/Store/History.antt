-- ===== src/Approvals/Store/History.antt =====
-- Any sequence of writes to the table `approvals` (approvals/store.py): what holds of every row, and
-- that a decision is never revised.
pub mod Valid
pub mod Life
use mcp_gatekeeper.Prelude.{
  ℕ, List, [], ◌∷◌, ◌++◌, Bool, true, false, not, ◌&&◌, Option, none, some, if◌then◌else◌, leb,
  Text, text_eq, text_eq_iff, text_eq_self, arith, ◌≡◌, ◌≢◌, refl, sym, ap, ◌∙◌, inl, inr,
  Bool-cases, Option-cases, is_some, All, any,
}
use mcp_gatekeeper.Approvals.{
  ApprovalStatus, pending, approved, denied, expired, is_pending, is_resolved, ApprovalRequest,
}
use mcp_gatekeeper.Approvals.Store.{
  Table, get, create, inserted, update_where, Verdict, decided, claims, resolve, overdue, timed_out,
  expire_overdue,
}
use mcp_gatekeeper.Approvals.Store.Rows.{map_row, settle, lapse, get-resolve, get-expire}

-- One write of the table, by whichever caller.
pub data Write : Table → Table → Type 0 where
  created :
      {rows rows' : Table} (r : ApprovalRequest)
      → is_pending r.status ≡ true
      → create r rows ≡ some rows'
      → Write rows rows'
  resolved :
      {rows rows' : Table} (id : Text) (v : Verdict)
      → (resolve id v rows).0 ≡ rows'
      → Write rows rows'
  lapsed : {rows rows' : Table} (now : ℕ) → (expire_overdue now rows).0 ≡ rows' → Write rows rows'

pub data Writes (start : Table) : Table → Type 0 where
  here : Writes start start
  next : {t u : Table} → Writes start t → Write t u → Writes start u

get-insert :
    (id : Text) (r x : ApprovalRequest) (rows : Table)
    → get id rows ≡ some r
    → get id (rows ++ x ∷ []) ≡ some r
unfolding get
get-insert id r x [] h = cc
get-insert id r x (s ∷ rows) h = ground (arith, get-insert id r x rows)

pub create_inv :
    (x : ApprovalRequest) (rows rows' : Table)
    → create x rows ≡ some rows'
    → (get x.id rows ≡ none) × (rows' ≡ rows ++ inserted x ∷ [])
unfolding create
create_inv x rows rows' h = elim (Option-cases (get x.id rows)) [
  | inl e ↦ (e, ground (arith, e))
  | inr (r, e) ↦ absurd (ground (arith, e))
]

pub get-append_fresh :
    (id : Text) (x : ApprovalRequest) (rows : Table)
    → get id rows ≡ none
    → get id (rows ++ x ∷ []) ≡ get id (x ∷ [])
unfolding get
get-append_fresh id x [] h = refl
get-append_fresh id x (r ∷ rows) h = ground (arith, get-append_fresh id x rows)

-- The row that was created is the one its id finds.
pub get-create :
    (x : ApprovalRequest) (rows rows' : Table)
    → create x rows ≡ some rows'
    → get x.id rows' ≡ some (inserted x)
unfolding get
get-create x rows rows' h =
    let (fresh, e) = create_inv x rows rows' h in
    rw e (get-append_fresh x.id (inserted x) rows fresh ∙ (rw (text_eq_self x.id) refl))

pub create-keeps :
    (id : Text) (r x : ApprovalRequest) (rows rows' : Table)
    → create x rows ≡ some rows'
    → get id rows ≡ some r
    → get id rows' ≡ some r
create-keeps id r x rows rows' h k =
    rw ((create_inv x rows rows' h).1) (get-insert id r (inserted x) rows k)

-- One write leaves the row of a settled request as it is.
Write-settled :
    {rows rows' : Table} (id : Text) (r : ApprovalRequest)
    → Write rows rows'
    → get id rows ≡ some r
    → is_pending r.status ≡ false
    → get id rows' ≡ some r
Write-settled {rows} {rows'} id r (created x p e) h k = create-keeps id r x rows rows' e h
Write-settled {rows} id r (resolved j v e) h k = ground (arith, (get-resolve j id v rows).0, e)
Write-settled {rows} id r (lapsed now e) h k = ground (arith, get-expire now id rows, e)

-- Once a request is settled, no later writes change its row in any column.
pub Writes-settled :
    {rows rows' : Table} (id : Text) (r : ApprovalRequest)
    → Writes rows rows'
    → get id rows ≡ some r
    → is_pending r.status ≡ false
    → get id rows' ≡ some r
Writes-settled id r here h k = h
Writes-settled id r (next ws w) h k = Write-settled id r w (Writes-settled id r ws h k) k

pub Writes-trans : {a b c : Table} → Writes a b → Writes b c → Writes a c
Writes-trans ws here = ws
Writes-trans ws (next vs w) = next (Writes-trans ws vs) w

Write-deadline :
    {rows rows' : Table} (id : Text) (r : ApprovalRequest)
    → Write rows rows'
    → get id rows ≡ some r
    → (r' : ApprovalRequest) × (get id rows' ≡ some r') × (r'.expires_at ≡ r.expires_at)
Write-deadline {rows} {rows'} id r (created x p e) h = (r, create-keeps id r x rows rows' e h, refl)
Write-deadline {rows} id r (resolved j v e) h = (
  if text_eq j id then settle v r else r,
  ground (arith, (get-resolve j id v rows).0),
  ground arith,
)
Write-deadline {rows} id r (lapsed now e) h =
    (lapse now r, ground (arith, get-expire now id rows), ground arith)

-- No writes remove a request or move its deadline.
pub Writes-deadline :
    {rows rows' : Table} (id : Text) (r : ApprovalRequest)
    → Writes rows rows'
    → get id rows ≡ some r
    → (r' : ApprovalRequest) × (get id rows' ≡ some r') × (r'.expires_at ≡ r.expires_at)
Writes-deadline id r here h = (r, h, refl)
Writes-deadline id r (next ws w) h =
    let (s, g, e) = Writes-deadline id r ws h in
    let (t, g', e') = Write-deadline id s w g in (t, g', e' ∙ e)
