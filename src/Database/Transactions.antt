-- ===== src/Database/Transactions.antt =====
-- Transactions are all or nothing (`transact` of db.py).
use mcp_gatekeeper.Prelude.{Bool, true, false, if◌then◌else◌, ◌≡◌, refl, ◌∙◌, inl, inr, arith}
use mcp_gatekeeper.Prelude.Results.{Result, ok, err, Result-cases}
use mcp_gatekeeper.Database.{
  File, Link, closed, idle, within, Database, Failure, nested, view, is_within, Work, done, raises,
  begins, reads, writes, perform, settle, required, transact,
}

-- What a function does to the contents alone, without commit and rollback: it returns its value with the
-- new contents, or it raises. The Boolean is whether it has begun.
unfoldable pub outcome : {A : Type 0} → Work A → Bool → File → Result Failure (A × File)
outcome (done a) started f = ok (a, f)
outcome (raises e) started f = err e
outcome (begins w) started f = let rest = outcome w true f in if started then err nested else rest
outcome (reads w) started f = outcome (w f) started f
outcome (writes change w) started f = elim (change f) [
  | err e ↦ err e
  | ok (f', n) ↦ outcome (w n) true f'
]

-- A returned outcome replaces the contents, a raised one leaves what was committed.
abbrev pub finish : {A : Type 0} → File → Result Failure (A × File) → Result Failure A × Database
finish disk (ok (a, f)) = (ok a, record { disk = f; link = idle })
finish disk (err e) = (err e, record { disk = disk; link = idle })

abbrev database_of : File → Link → Database
database_of disk link = record { disk = disk; link = link }

settle-perform :
    {A : Type 0} (w : Work A) (disk : File) (link : Link)
    → let db = database_of disk link in
      settle (perform w db) ≡ finish disk (outcome w (is_within link) (view db))
unfolding perform outcome
settle-perform (done a) disk link = refl
settle-perform (raises e) disk link = refl
settle-perform (begins w) disk closed = settle-perform w disk (within disk)
settle-perform (begins w) disk idle = settle-perform w disk (within disk)
settle-perform (begins w) disk (within f) = refl
settle-perform (reads w) disk link = settle-perform (w (view (database_of disk link))) disk link
settle-perform (writes change w) disk link =
    elim (Result-cases (change (view (database_of disk link)))) [
      | inl ((f, n), e) ↦ rw e (settle-perform (w n) disk (within f))
      | inr (m, e) ↦ rw e refl
    ]

abbrev pub is_open : Link → Bool
is_open closed = false
is_open _ = true

required-open :
    {A : Type 0} (step : Database → Result Failure A × Database) (disk : File) (link : Link)
    → is_open link ≡ true
    → required step (database_of disk link) ≡ step (database_of disk link)
required-open step disk closed h = ground (arith, h)
required-open step disk idle h = refl
required-open step disk (within f) h = refl

-- On an open connection a transaction is all or nothing, and none stays open: a function that returns leaves
-- exactly the contents that it made, from those that it found; one that raises, at whatever step, leaves
-- what was committed before, also where a transaction was already open.
pub transact-outcome :
    {A : Type 0} (w : Work A) (db : Database)
    → is_open db.link ≡ true
    → transact w db ≡ finish db.disk (outcome w (is_within db.link) (view db))
unfolding transact
transact-outcome w db h =
    required-open (λ db. settle (perform w db)) db.disk db.link h ∙ settle-perform w db.disk db.link
