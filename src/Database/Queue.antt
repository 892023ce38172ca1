-- ===== src/Database/Queue.antt =====
-- The approval store on its database (approvals/store.py over db.py): the transactions of its methods, and
-- that they do what the functions of Approvals/Store.antt say.
use mcp_gatekeeper.Prelude.{
  ℕ, Bool, if◌then◌else◌, Option, none, some, Text, length, keep, ◌≡◌, refl, ◌∙◌, inl, inr,
  Bool-cases, Option-cases,
}
use mcp_gatekeeper.Prelude.Results.{Result, ok, err}
use mcp_gatekeeper.Approvals.{ApprovalRequest, is_pending}
use mcp_gatekeeper.Approvals.Store
use mcp_gatekeeper.Approvals.Store.{
  Table, Verdict, create, resolve, expire_overdue, update_where, claims, decided, overdue,
  timed_out, pending_rows,
}
use mcp_gatekeeper.Database.{
  File, idle, within, Database, Failure, nested, integrity, Work, done, begins, reads, writes,
  execute, fetch, transact, perform,
}
use mcp_gatekeeper.Database.Transactions.{transact-outcome, outcome}

-- The rows of the table `approvals` in place of those that the file holds.
abbrev pub with_rows : File → Table → File
with_rows f rows = record f { approvals = rows }

-- INSERT INTO approvals.
abbrev pub insertion : ApprovalRequest → File → Result Failure File
unfolding create
insertion r f = elim (create r f.approvals) [
  | none ↦ err integrity
  | some rows ↦ ok (with_rows f rows)
]

unfoldable pub create_through : ApprovalRequest → Database → Result Failure (Unit {0}) × Database
unfolding execute insertion
create_through r db = execute (insertion r) db

unfoldable pub get_through : Text → Database → Result Failure (Option ApprovalRequest) × Database
unfolding fetch Store.get
get_through id db = fetch (λ f. Store.get id f.approvals) db

unfoldable pub pending_through : Database → Result Failure Table × Database
unfolding fetch pending_rows
pending_through db = fetch (λ f. pending_rows f.approvals) db

-- UPDATE approvals, with its `rowcount`.
abbrev pub updated :
    (ApprovalRequest → Bool)
    → (ApprovalRequest → ApprovalRequest)
    → File
    → Result Failure (File × ℕ)
unfolding update_where
updated test change f =
    ok (with_rows f (update_where test change f.approvals), length (keep test f.approvals))

-- `work` of `resolve`.
unfoldable pub resolve_work : Text → Verdict → Work (Option ApprovalRequest)
unfolding Store.get updated
resolve_work id v = begins (
    reads λ f. elim (Store.get id f.approvals) [
      | none ↦ done none
      | some current ↦
          if is_pending current.status
          then writes (updated (claims id) (decided v))
              (λ n. reads λ f. done (Store.get id f.approvals))
          else done (some current)
    ])

unfoldable pub resolve_through :
    Text → Verdict → Database → Result Failure (Option ApprovalRequest) × Database
unfolding transact resolve_work
resolve_through id v db = transact (resolve_work id v) db

-- `work` of `expire_overdue`.
unfoldable pub expire_work : ℕ → Work ℕ
unfolding updated
expire_work now = writes (updated (overdue now) (timed_out now)) done

unfoldable pub expire_through : ℕ → Database → Result Failure ℕ × Database
unfolding transact expire_work
expire_through now db = transact (expire_work now) db

abbrev pub idle_with : File → Database
idle_with f = record { disk = f; link = idle }

-- With the connection open and no transaction on it, a decision runs as one step of the queue: it returns
-- what `resolve` returns for the committed rows, commits the rows that `resolve` leaves, touches nothing
-- else of the file, and leaves no transaction open.
pub resolve_through-resolve :
    (id : Text) (v : Verdict) (f : File)
    → resolve_through id v (idle_with f)
      ≡ (ok (resolve id v f.approvals).1, idle_with (with_rows f (resolve id v f.approvals).0))
unfolding resolve_through resolve outcome resolve_work
resolve_through-resolve id v f =
    transact-outcome (resolve_work id v) (idle_with f) refl
    ∙ elim (Option-cases (Store.get id f.approvals)) [
      | inl e ↦ rw (e, resolve) refl
      | inr (current, e) ↦ elim (Bool-cases (is_pending current.status)) [
        | inl p ↦ rw (e, p, resolve) refl
        | inr p ↦ rw (e, p, resolve) refl
      ]
    ]

-- The expiry too runs as one step: it returns how many rows `expire_overdue` expires and commits the rows
-- that it leaves.
pub expire_through-expire_overdue :
    (now : ℕ) (f : File)
    → expire_through now (idle_with f) ≡ (
      ok (expire_overdue now f.approvals).1,
      idle_with (with_rows f (expire_overdue now f.approvals).0),
    )
unfolding expire_through expire_work outcome expire_overdue
expire_through-expire_overdue now f = transact-outcome (expire_work now) (idle_with f) refl

-- A request whose id is new is committed.
pub create_through-create :
    (r : ApprovalRequest) (rows : Table) (f : File)
    → create r f.approvals ≡ some rows
    → create_through r (idle_with f) ≡ (ok tt, idle_with (with_rows f rows))
unfolding create_through execute
create_through-create r rows f e = rw e refl

create_through-taken :
    (r : ApprovalRequest) (f : File)
    → create r f.approvals ≡ none
    → create_through r (idle_with f) ≡ (err integrity, record { disk = f; link = within f })
unfolding create_through execute
create_through-taken r f e = rw e refl

-- A request whose id is taken is refused and leaves its transaction open, so that the next decision, on
-- whatever request, is refused as well: it raises, and no row is changed.
pub create_through-resolve_through :
    (r : ApprovalRequest) (id : Text) (v : Verdict) (f : File)
    → create r f.approvals ≡ none
    → ((create_through r (idle_with f)).0 ≡ err integrity)
      × (resolve_through id v (create_through r (idle_with f)).1 ≡ (err nested, idle_with f))
unfolding resolve_through transact resolve_work perform
create_through-resolve_through r id v f e = rw (create_through-taken r f e) (refl, refl)
