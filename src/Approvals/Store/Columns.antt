-- ===== src/Approvals/Store/Columns.antt =====
-- The columns of the table `approvals`: what the methods write and what `_row_to_request` reads
-- (approvals/store.py).
use mcp_gatekeeper.Prelude.{
  ℕ, List, [], ◌∷◌, true, Option, none, some, Text, codes, if◌then◌else◌, text_eq, ◌≡◌, refl,
}
use mcp_gatekeeper.Prelude.Results.{Result, ok, ◌>>=◌}
use mcp_gatekeeper.Prelude.Columns.{Unreadable, value_error, member, Clock, ReadsBack, or_raise}
use mcp_gatekeeper.Json.{object}
use mcp_gatekeeper.Json.Dumps.{dumps, sort_fields}
use mcp_gatekeeper.Json.Encodable.{fields_encodable}
use mcp_gatekeeper.Audit.Columns.{read_arguments, read_arguments-dumps}
use mcp_gatekeeper.Approvals.{
  ApprovalStatus, pending, approved, denied, expired, ApprovalRequest, timeout_approver,
}
use mcp_gatekeeper.Approvals.Store.{Verdict, inserted, decided, timed_out}

pub record Row : Type 0 where
  pub id : Text
  pub created_at : Text
  pub expires_at : Text
  pub status : Text
  pub tool : Text
  pub upstream : Text
  pub arguments : Text
  pub reason : Option Text
  pub client_name : Option Text
  pub decided_at : Option Text
  pub approver : Option Text
  pub note : Option Text

abbrev pub approval_status_value : ApprovalStatus → Text
approval_status_value pending = codes "pending"
approval_status_value approved = codes "approved"
approval_status_value denied = codes "denied"
approval_status_value expired = codes "expired"

abbrev pub approval_statuses : List ApprovalStatus
approval_statuses = pending ∷ approved ∷ denied ∷ expired ∷ []

-- The request, with the keys of its arguments in order.
abbrev pub in_order : ApprovalRequest → ApprovalRequest
in_order r = record r { arguments = sort_fields r.arguments }

module _ (clock : Clock) where
  -- The parameters of `create`.
  unfoldable pub insert_columns : ApprovalRequest → Row
  unfolding dumps
  insert_columns r = record {
    id = r.id;
    created_at = clock.isoformat r.created_at;
    expires_at = clock.isoformat r.expires_at;
    status = approval_status_value r.status;
    tool = r.tool;
    upstream = r.upstream;
    arguments = dumps (object r.arguments);
    reason = r.reason;
    client_name = r.client_name;
    decided_at = none;
    approver = none;
    note = none;
  }

  -- UPDATE ... SET of `resolve`.
  unfoldable pub decision_columns : Verdict → Row → Row
  decision_columns v row = record row {
    status = approval_status_value (if v.granted then approved else denied);
    decided_at = some (clock.isoformat v.decided_at);
    approver = some v.approver;
    note = v.note;
  }

  -- UPDATE ... SET of `expire_overdue`.
  unfoldable pub expiry_columns : ℕ → Row → Row
  expiry_columns now row = record row {
    status = approval_status_value expired;
    decided_at = some (clock.isoformat now);
    approver = some timeout_approver;
  }

  -- `datetime.fromisoformat(decided) if decided else None`.
  abbrev pub read_decided : Option Text → Result Unreadable (Option ℕ)
  read_decided none = ok none
  read_decided (some []) = ok none
  read_decided (some (c ∷ s)) =
      or_raise value_error (clock.fromisoformat (c ∷ s)) >>= λ moment. ok (some moment)

  unfoldable pub row_to_request : Row → Result Unreadable ApprovalRequest
  unfolding member read_arguments
  row_to_request row = do
    created_at ← or_raise value_error (clock.fromisoformat row.created_at)
    expires_at ← or_raise value_error (clock.fromisoformat row.expires_at)
    status ← member approval_status_value approval_statuses row.status
    arguments ← read_arguments row.arguments
    decided_at ← read_decided row.decided_at
    ok (record {
      id = row.id;
      created_at = created_at;
      expires_at = expires_at;
      status = status;
      tool = row.tool;
      upstream = row.upstream;
      arguments = arguments;
      reason = row.reason;
      client_name = row.client_name;
      decided_at = decided_at;
      approver = row.approver;
      note = row.note;
    })

  member-status :
      (s : ApprovalStatus)
      → member approval_status_value approval_statuses (approval_status_value s) ≡ ok s
  unfolding member text_eq
  member-status pending = refl
  member-status approved = refl
  member-status denied = refl
  member-status expired = refl

  read_decided-isoformat :
      (t : ℕ) → ReadsBack clock → read_decided (some (clock.isoformat t)) ≡ ok (some t)
  read_decided-isoformat t back = go (clock.isoformat t) (back.moment t)
    where
      go : (s : Text) → clock.fromisoformat s ≡ some t → read_decided (some s) ≡ ok (some t)
      go [] e = absurd (clash back.empty e)
        where
          clash : {o : Option ℕ} → o ≡ none → o ≡ some t → ⊥
          clash p q = cc
      go (c ∷ s) e = rw e refl

  -- What is read back from the rows that the methods write is what the table of the store holds, with the
  -- keys of the arguments in order, where the texts in the arguments hold no surrogates and the numbers are
  -- finite: from the row that `create` inserts the request with no decision; from that row after the update
  -- of a decision or of an expiry the request so decided or expired.
  pub row_to_request-insert_columns :
      (r : ApprovalRequest)
      → ReadsBack clock
      → fields_encodable r.arguments ≡ true
      → let row = insert_columns r in
        (row_to_request row ≡ ok (in_order (inserted r)))
        × ((v : Verdict)
            → row_to_request (decision_columns v row) ≡ ok (in_order (decided v (inserted r))))
        × ((now : ℕ)
            → row_to_request (expiry_columns now row) ≡ ok (in_order (timed_out now (inserted r))))
  unfolding row_to_request insert_columns decision_columns expiry_columns
  row_to_request-insert_columns r back h = (
    rw
        (
          back.moment r.created_at,
          back.moment r.expires_at,
          member-status r.status,
          read_arguments-dumps r.arguments h,
        )
        refl,
    λ v.
        rw
          (
            back.moment r.created_at,
            back.moment r.expires_at,
            member-status (if v.granted then approved else denied),
            read_arguments-dumps r.arguments h,
            read_decided-isoformat v.decided_at back,
          )
          refl,
    λ now.
        rw
          (
            back.moment r.created_at,
            back.moment r.expires_at,
            read_arguments-dumps r.arguments h,
            read_decided-isoformat now back,
          )
          refl,
  )
