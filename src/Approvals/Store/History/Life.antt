-- ===== src/Approvals/Store/History/Life.antt =====
-- The life cycle of one request, and that the table implements it (approvals/models.py, approvals/store.py).
use mcp_gatekeeper.Prelude.{
  ℕ, Bool, true, false, ◌&&◌, Option, none, some, if◌then◌else◌, leb, Text, text_eq, arith, ◌≡◌,
  refl, sym, inl, inr, Bool-cases, Option-cases,
}
use mcp_gatekeeper.Approvals.{
  ApprovalStatus, pending, approved, denied, expired, is_pending, ApprovalRequest,
}
use mcp_gatekeeper.Approvals.Store.{Table, get, create, inserted, Verdict}
use mcp_gatekeeper.Approvals.Store.Rows.{map_row, settle, lapse, get-resolve, get-expire}
use mcp_gatekeeper.Approvals.Store.History.{
  Write, created, resolved, lapsed, Writes, here, next, create_inv, create-keeps, get-append_fresh,
}

-- What the queue promises of an id: it is unknown, or its request waits or has come to one of three ends.
pub data Life : Type 0 where
  unknown waiting granted refused overslept : Life

-- A request is opened once, and it is granted, refused or left to its deadline once.
pub data Event : Life → Life → Type 0 where
  opens : Event unknown waiting
  grants : Event waiting granted
  refuses : Event waiting refused
  oversleeps : Event waiting overslept

pub data Course (start : Life) : Life → Type 0 where
  stays : Course start start
  followed : {l m : Life} → Course start l → Event l m → Course start m

abbrev pub life_status : ApprovalStatus → Life
life_status pending = waiting
life_status approved = granted
life_status denied = refused
life_status expired = overslept

-- The life of what an id finds.
abbrev pub life_of : Option ApprovalRequest → Life
life_of none = unknown
life_of (some r) = life_status r.status

one : {l m : Life} → Event l m → Course l m
one e = followed stays e

same : {l m : Life} → l ≡ m → Course l m
same {l} e = rw (sym e) stays

Course-trans : {l m n : Life} → Course l m → Course m n → Course l n
Course-trans c stays = c
Course-trans c (followed d e) = followed (Course-trans c d) e

verdict-Course :
    (s : ApprovalStatus) (b : Bool)
    → Course
        (life_status s)
        (life_status (if is_pending s then (if b then approved else denied) else s))
verdict-Course pending true = one grants
verdict-Course pending false = one refuses
verdict-Course approved b = stays
verdict-Course denied b = stays
verdict-Course expired b = stays

lapse_Course :
    (s : ApprovalStatus) (late : Bool)
    → Course (life_status s) (life_status (if is_pending s && late then expired else s))
lapse_Course pending true = one oversleeps
lapse_Course pending false = stays
lapse_Course approved late = stays
lapse_Course denied late = stays
lapse_Course expired late = stays

settle-status :
    (v : Verdict) (r : ApprovalRequest)
    → (settle v r).status
      ≡ (if is_pending r.status then (if v.granted then approved else denied) else r.status)
settle-status v r = ground arith

lapse-status :
    (now : ℕ) (r : ApprovalRequest)
    → (lapse now r).status
      ≡ (if is_pending r.status && leb r.expires_at now then expired else r.status)
lapse-status now r = ground arith

settle-Course :
    (v : Verdict) (o : Option ApprovalRequest) → Course (life_of o) (life_of (map_row (settle v) o))
settle-Course v none = stays
settle-Course v (some r) = rw (settle-status v r) (verdict-Course r.status v.granted)

lapse-Course :
    (now : ℕ) (o : Option ApprovalRequest) → Course (life_of o) (life_of (map_row (lapse now) o))
lapse-Course now none = stays
lapse-Course now (some r) = rw (lapse-status now r) (lapse_Course r.status (leb r.expires_at now))

waiting_status : (s : ApprovalStatus) → is_pending s ≡ true → life_status s ≡ waiting
waiting_status pending h = refl
waiting_status approved h = ground (arith, h)
waiting_status denied h = ground (arith, h)
waiting_status expired h = ground (arith, h)

created-Course :
    (id : Text) (x : ApprovalRequest) (rows rows' : Table)
    → is_pending x.status ≡ true
    → create x rows ≡ some rows'
    → Course (life_of (get id rows)) (life_of (get id rows'))
unfolding get
created-Course id x rows rows' p e =
    let (fresh, grown) = create_inv x rows rows' e in
    elim (Option-cases (get id rows)) [
      | inr (r, h) ↦ rw (create-keeps id r x rows rows' e h, h) stays
      | inl h ↦ elim (Bool-cases (text_eq x.id id)) [
        | inl k ↦
            rw (grown, get-append_fresh id (inserted x) rows h, h, k)
              (rw (waiting_status x.status p) (one opens))
        | inr k ↦ rw (grown, get-append_fresh id (inserted x) rows h, h, k) stays
      ]
    ]

Write-Course :
    {rows rows' : Table} (id : Text)
    → Write rows rows'
    → Course (life_of (get id rows)) (life_of (get id rows'))
Write-Course {rows} {rows'} id (created x p e) = created-Course id x rows rows' p e
Write-Course {rows} id (resolved j v e) = elim (Bool-cases (text_eq j id)) [
  | inl k ↦ rw (sym e) (rw ((get-resolve j id v rows).0, k) (settle-Course v (get id rows)))
  | inr k ↦ rw (sym e) (rw ((get-resolve j id v rows).0, k) stays)
]
Write-Course {rows} id (lapsed now e) =
    rw (sym e) (rw (get-expire now id rows) (lapse-Course now (get id rows)))

-- Whatever is written to the table, by whichever callers, each id goes along the life cycle: from unknown
-- to waiting, and from waiting to one of granted, refused and overslept, and no further.
pub Writes-Course :
    {rows rows' : Table} (id : Text)
    → Writes rows rows'
    → Course (life_of (get id rows)) (life_of (get id rows'))
Writes-Course id here = stays
Writes-Course id (next ws w) = Course-trans (Writes-Course id ws) (Write-Course id w)
