-- ===== src/Database.antt =====
-- db.py: the file, the one connection to it, and the transactions on that connection. The lock makes each
-- method one step. A statement acts as SQLite and Python's sqlite3 have it: a SELECT opens no transaction,
-- a writing statement opens one where none is open, and it stays open until `commit` or `rollback`.
pub mod Transactions
pub mod Queue
pub mod Trail
pub mod Schema
mod Tests
use mcp_gatekeeper.Prelude.{
  ℕ, List, [], ◌∷◌, ◌++◌, Bool, true, false, if◌then◌else◌, Text, codes, any, text_eq,
}
use mcp_gatekeeper.Prelude.Results.{Result, ok, err}
use mcp_gatekeeper.Approvals.Store.{Table}
use mcp_gatekeeper.Audit.Store.{Log}

-- What is in the database: the names of its tables and indexes, and the rows of the two tables.
pub record File : Type 0 where
  pub schema : List Text
  pub approvals : Table
  pub events : Log

-- `_connection`: None, one without an open transaction, or one with the state in its transaction.
pub data Link : Type 0 where
  closed idle : Link
  within : File → Link

-- What is committed, and the connection.
pub record Database : Type 0 where
  pub disk : File
  pub link : Link

-- RuntimeError of `_require`; OperationalError of a BEGIN within a transaction; IntegrityError.
pub data Failure : Type 0 where
  not_open nested integrity : Failure

abbrev pub view : Database → File
view db = elim db.link [ closed ↦ db.disk | idle ↦ db.disk | within f ↦ f ]

abbrev pub is_within : Link → Bool
is_within (within f) = true
is_within _ = false

abbrev pub begun : Database → File → Database
begun db f = record db { link = within f }

-- `commit` and `rollback` of the connection.
abbrev pub commit : Database → Database
commit db = record { disk = view db; link = idle }

abbrev pub rollback : Database → Database
rollback db = record db { link = idle }

-- The functions that `transact` runs: a function returns, raises, or runs BEGIN IMMEDIATE, a SELECT, or a
-- writing statement with its `rowcount`, and goes on.
pub data Work (A : Type 0) : Type 0 where
  done : A → Work A
  raises : Failure → Work A
  begins : Work A → Work A
  reads : (File → Work A) → Work A
  writes : (File → Result Failure (File × ℕ)) → (ℕ → Work A) → Work A

unfoldable pub perform : {A : Type 0} → Work A → Database → Result Failure A × Database
perform (done a) db = (ok a, db)
perform (raises e) db = (err e, db)
perform (begins w) db =
    let rest = perform w (begun db db.disk) in if is_within db.link then (err nested, db) else rest
perform (reads w) db = perform (w (view db)) db
perform (writes change w) db = elim (change (view db)) [
  | err e ↦ (err e, begun db (view db))
  | ok (f, n) ↦ perform (w n) (begun db f)
]

-- How `transact` ends: roll back and raise, or commit.
abbrev pub settle : {A : Type 0} → Result Failure A × Database → Result Failure A × Database
settle (ok a, db) = (ok a, commit db)
settle (err e, db) = (err e, rollback db)

-- `_require`, before a step of the connection.
abbrev pub required :
    {A : Type 0} → (Database → Result Failure A × Database) → Database → Result Failure A × Database
required step db = elim db.link [
  | closed ↦ (err not_open, db)
  | idle ↦ step db
  | within f ↦ step db
]

unfoldable pub transact : {A : Type 0} → Work A → Database → Result Failure A × Database
unfolding perform
transact w db = required (λ db. settle (perform w db)) db

-- `connection.execute(sql, parameters)` and then `commit`, which an exception skips.
abbrev pub execute_open :
    (File → Result Failure File) → Database → Result Failure (Unit {0}) × Database
execute_open change db = elim (change (view db)) [
  | ok f ↦ (ok tt, commit (begun db f))
  | err e ↦ (err e, begun db (view db))
]

unfoldable pub execute :
    (File → Result Failure File) → Database → Result Failure (Unit {0}) × Database
execute change db = required (execute_open change) db

-- `fetch_all`, `fetch_one` and `iterate`.
unfoldable pub fetch : {A : Type 0} → (File → A) → Database → Result Failure A × Database
fetch select db = required (λ db. (ok (select (view db)), db)) db

-- CREATE ... IF NOT EXISTS.
abbrev pub create_if_missing : Text → List Text → List Text
create_if_missing name schema = if any (text_eq name) schema then schema else schema ++ name ∷ []

unfoldable pub migrate : List Text → List Text → List Text
unfolding text_eq
migrate [] schema = schema
migrate (name ∷ names) schema = migrate names (create_if_missing name schema)

-- MIGRATIONS: what each statement creates.
abbrev pub migrations : List Text
migrations =
    codes "audit_events"
    ∷ codes "idx_audit_created_at"
    ∷ codes "idx_audit_tool"
    ∷ codes "approvals"
    ∷ codes "idx_approvals_status"
    ∷ []

-- `_connect`: a new connection sees what is committed.
unfoldable pub connect : Database → Database
unfolding migrate
connect db = record {
  disk = record db.disk { schema = migrate migrations db.disk.schema };
  link = idle;
}

-- `_close`: closing a connection rolls its transaction back.
unfoldable pub close : Database → Database
close db = record db { link = closed }
