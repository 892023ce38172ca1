-- ===== src/Database/Tests.antt =====
-- A database that holds one request.
use mcp_gatekeeper.Prelude.{[], none, codes, text_eq, ◌≡◌, refl}
use mcp_gatekeeper.Prelude.Results.{ok, err}
use mcp_gatekeeper.Approvals.Store
use mcp_gatekeeper.Approvals.Store.{create, resolve}
use mcp_gatekeeper.Approvals.Samples.{parked_row, one_row, grant}
use mcp_gatekeeper.Database.{File, Database, within, nested, integrity, is_within, view, transact}
use mcp_gatekeeper.Database.Transactions.{outcome, finish, transact-outcome}
use mcp_gatekeeper.Database.Queue.{
  with_rows, create_through, resolve_work, resolve_through, idle_with, resolve_through-resolve,
  create_through-resolve_through,
}

abbrev filed : File
filed = record { schema = []; approvals = one_row; events = [] }

-- A transaction is open on the connection.
abbrev stuck : Database
stuck = record { disk = filed; link = within filed }

transact-outcome_example :
    transact (resolve_work (codes "a1") grant) stuck
    ≡ finish filed (outcome (resolve_work (codes "a1") grant) (is_within stuck.link) (view stuck))
transact-outcome_example = transact-outcome (resolve_work (codes "a1") grant) stuck refl

resolve_through-resolve_example : resolve_through (codes "a1") grant (idle_with filed) ≡ (
  ok (resolve (codes "a1") grant one_row).1,
  idle_with (with_rows filed (resolve (codes "a1") grant one_row).0),
)
resolve_through-resolve_example = resolve_through-resolve (codes "a1") grant filed

id_taken : create parked_row one_row ≡ none
unfolding create Store.get text_eq
id_taken = refl

create_through-resolve_through_example :
    ((create_through parked_row (idle_with filed)).0 ≡ err integrity)
    × (resolve_through (codes "a1") grant (create_through parked_row (idle_with filed)).1
        ≡ (err nested, idle_with filed))
create_through-resolve_through_example =
    create_through-resolve_through parked_row (codes "a1") grant filed id_taken
