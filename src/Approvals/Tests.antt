-- ===== src/Approvals/Tests.antt =====
-- One request through the queue, and the theorems on approvals at concrete inputs.
use mcp_gatekeeper.Prelude.{[], ◌∷◌, true, false, some, text_eq, ◌≡◌, ◌≢◌, refl, sym, ◌∙◌, arith}
use mcp_gatekeeper.Approvals.{is_granted, is_expired_at, ApprovalRequest}
use mcp_gatekeeper.Approvals.Store
use mcp_gatekeeper.Approvals.Store.{
  Table, Verdict, create, decided, resolve, timed_out, expire_overdue, pending_rows,
}
use mcp_gatekeeper.Approvals.Store.Rows.{resolve-resolve}
use mcp_gatekeeper.Approvals.Store.History.{here, next, created, resolved}
use mcp_gatekeeper.Approvals.Store.History.Valid.{IsTable, Writes-IsTable}
use mcp_gatekeeper.Approvals.Service.{waiting, returned, settle_timeout, get, wait}
use mcp_gatekeeper.Approvals.Service.Consent.{granted, wait-consent}
use mcp_gatekeeper.Approvals.Service.Ending.{reaches, wait-ends}
use mcp_gatekeeper.Approvals.Service.Timeout.{get-settle_timeout}
use mcp_gatekeeper.Approvals.Samples.{
  first_id, parked_row, one_row, grant, rejection, denying, approving, read_round,
}
use mcp_gatekeeper.Prelude.{ℕ, true, none, some, ◌≡◌, refl}
use mcp_gatekeeper.Prelude.Results.{ok}
use mcp_gatekeeper.Prelude.Columns.{Clock}
use mcp_gatekeeper.Json.Encodable.{encodable, fields_encodable}
use mcp_gatekeeper.Approvals.Samples.{parked_row}
use mcp_gatekeeper.Approvals.Store.{Verdict, inserted, decided, timed_out}
use mcp_gatekeeper.Approvals.Store.Columns.{
  in_order, insert_columns, decision_columns, expiry_columns, row_to_request,
  row_to_request-insert_columns,
}
use mcp_gatekeeper.Prelude.{codes}
use mcp_gatekeeper.Approvals.{approved, expired}

created_row : create parked_row [] ≡ some one_row
unfolding create Store.get
created_row = refl

resolved_row : (resolve first_id grant one_row).0 ≡ decided grant parked_row ∷ []
unfolding resolve text_eq
resolved_row = refl

decided_row : Store.get first_id (decided grant parked_row ∷ []) ≡ some (decided grant parked_row)
unfolding Store.get text_eq
decided_row = refl

found_row : Store.get first_id one_row ≡ some parked_row
unfolding Store.get text_eq
found_row = refl

overdue_row : is_expired_at parked_row 40 ≡ true
unfolding is_expired_at
overdue_row = refl

run_out :
    (wait first_id 39 1 [] (read_round ∷ []) denying).1 ≡ returned (some (timed_out 42 parked_row))
unfolding wait text_eq
run_out = refl

resolve-resolve_example :
    resolve first_id rejection (resolve first_id grant one_row).0 ≡ resolve first_id grant one_row
resolve-resolve_example = resolve-resolve first_id grant rejection one_row

Writes-IsTable_example : IsTable (decided grant parked_row ∷ [])
Writes-IsTable_example =
    Writes-IsTable (
      next (next here (created parked_row refl created_row)) (resolved first_id grant resolved_row))

not_granted : granted first_id one_row ≡ false
unfolding Store.get text_eq is_granted
not_granted = refl

deadline_read :
    (r : ApprovalRequest)
    → Store.get first_id one_row ≡ some r
    → reaches r.expires_at 39 (read_round ∷ []) ≡ true
deadline_read r e = ground (arith, sym found_row ∙ e)

wait-consent_example : is_granted (timed_out 42 parked_row).status ≡ false
wait-consent_example =
    wait-consent first_id 39 1 [] (read_round ∷ []) denying (timed_out 42 parked_row) refl
      not_granted refl (refl, tt) run_out

wait-ends_example : (wait first_id 39 1 [] (read_round ∷ []) denying).1 ≢ waiting
wait-ends_example = wait-ends first_id 39 1 [] (read_round ∷ []) denying deadline_read

get-settle_timeout_example :
    ((settle_timeout first_id 41 approving).1
      ≡ some (record parked_row {
        status = approved;
        decided_at = some 41;
        approver = some (codes "system:timeout");
        note = some (codes "auto-approved on timeout");
      }))
    × ((get first_id 40 1 approving).1
        ≡ some (record parked_row {
          status = expired;
          decided_at = some 41;
          approver = some (codes "system:timeout");
        }))
get-settle_timeout_example =
    get-settle_timeout first_id 40 1 approving parked_row refl found_row overdue_row

-- A clock that writes a moment as one character.
abbrev tally : Clock
tally = record {
  isoformat = λ t. t ∷ [];
  fromisoformat = λ s. elim s [ [] ↦ none | t ∷ rest ↦ some t ];
}

nothing_to_encode : fields_encodable parked_row.arguments ≡ true
unfolding encodable
nothing_to_encode = refl

row_to_request-insert_columns_example :
    let row = insert_columns tally parked_row in
    (row_to_request tally row ≡ ok (in_order (inserted parked_row)))
    × ((v : Verdict)
        → row_to_request tally (decision_columns tally v row)
          ≡ ok (in_order (decided v (inserted parked_row))))
    × ((now : ℕ)
        → row_to_request tally (expiry_columns tally now row)
          ≡ ok (in_order (timed_out now (inserted parked_row))))
row_to_request-insert_columns_example =
    row_to_request-insert_columns tally parked_row (record { moment = λ t. refl; empty = refl })
      nothing_to_encode
