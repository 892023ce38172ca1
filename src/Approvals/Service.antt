-- ===== src/Approvals/Service.antt =====
-- approvals/service.py: the queue with its wake-up events. Each method takes the moments that it
-- reads from the clock. A wait is the sequence of its rounds: in each, other tasks call the service
-- and then time has passed.
pub mod Effects
pub mod Results
pub mod Consent
pub mod Timeout
pub mod Ending
pub mod Lives
pub mod Acts
use mcp_gatekeeper.Prelude.{
  ℕ, zero, suc, ◌+◌, List, [], ◌∷◌, ◌++◌, Bool, true, false, ◌&&◌, Option, none, some,
  if◌then◌else◌, leb, Text, text_eq, codes, is_some,
}
use mcp_gatekeeper.Json.{Fields}
use mcp_gatekeeper.Approvals.{
  ApprovalStatus, pending, approved, denied, expired, is_resolved, is_expired_at, ApprovalRequest,
  timeout_approver, client_approver,
}
use mcp_gatekeeper.Approvals.Store
use mcp_gatekeeper.Approvals.Store.{Table, Verdict, create, resolve, expire_overdue, pending_rows}

-- `_events`: the event of each id, with whether it has been set.
abbrev pub Events : Type 0
Events = List (Text × Bool)

pub record Service : Type 0 where
  pub store : Table
  pub timeout : ℕ
  pub approve_on_timeout : Bool
  pub events : Events

unfoldable pub pop_event : Text → Events → Events
pop_event id [] = []
pop_event id ((j, b) ∷ events) =
    let rest = pop_event id events in if text_eq j id then rest else (j, b) ∷ rest

-- `event.set()` on the event of the id, where there is one.
unfoldable pub set_event : Text → Events → Events
set_event id [] = []
set_event id ((j, b) ∷ events) = (j, if text_eq j id then true else b) ∷ set_event id events

unfoldable pub find_event : Text → Events → Option Bool
find_event id [] = none
find_event id ((j, b) ∷ events) = if text_eq j id then some b else find_event id events

-- `setdefault(id, Event())`.
unfoldable pub default_event : Text → Events → Events
unfolding find_event
default_event id events = if is_some (find_event id events) then events else (id, false) ∷ events

pub record Call : Type 0 where
  pub tool : Text
  pub upstream : Text
  pub arguments : Fields
  pub reason : Option Text
  pub client_name : Option Text

abbrev pub parked : Text → ℕ → ℕ → Call → ApprovalRequest
parked id now timeout c = record {
  id = id;
  created_at = now;
  expires_at = now + timeout;
  status = pending;
  tool = c.tool;
  upstream = c.upstream;
  arguments = c.arguments;
  reason = c.reason;
  client_name = c.client_name;
  decided_at = none;
  approver = none;
  note = none;
}

-- `open`, with the id that `new_approval_id` drew; none is the error of an id that is taken.
unfoldable pub open_request : Text → ℕ → Call → Service → Option (Service × ApprovalRequest)
unfolding create pop_event
open_request id now c s = elim (create (parked id now s.timeout c) s.store) [
  | none ↦ none
  | some rows ↦ some (
    record s { store = rows; events = (id, false) ∷ pop_event id s.events },
    parked id now s.timeout c,
  )
]

unfoldable pub decide : Text → Verdict → Service → Service × Option ApprovalRequest
unfolding resolve set_event
decide id v s =
    let (rows, r) = resolve id v s.store in
    (record s { store = rows; events = set_event id s.events }, r)

abbrev pub dismissal : Option Text → ℕ → Verdict
dismissal remark now = record {
  granted = false;
  approver = client_approver;
  note = remark;
  decided_at = now;
}

unfoldable pub dismiss : Text → Option Text → ℕ → Service → Service × Option ApprovalRequest
unfolding resolve pop_event
dismiss id remark now s =
    let (rows, r) = resolve id (dismissal remark now) s.store in
    (record s { store = rows; events = pop_event id s.events }, r)

-- `get`: the deadline is tested at `now`, and the expiry is run `delay` later; no other task is taken to
-- run in between.
unfoldable pub get : Text → ℕ → ℕ → Service → Service × Option ApprovalRequest
unfolding Store.get expire_overdue is_expired_at
get id now delay s = elim (Store.get id s.store) [
  | none ↦ (s, none)
  | some r ↦
      let rows = (expire_overdue (now + delay) s.store).0 in
      if is_expired_at r now then (record s { store = rows }, Store.get id rows) else (s, some r)
]

abbrev pub timeout_grant : ℕ → Verdict
timeout_grant now = record {
  granted = true;
  approver = timeout_approver;
  note = some (codes "auto-approved on timeout");
  decided_at = now;
}

unfoldable pub settle_timeout : Text → ℕ → Service → Service × Option ApprovalRequest
unfolding Store.get resolve expire_overdue pop_event
settle_timeout id now s =
    let events = pop_event id s.events in
    let (granted_rows, granted) = resolve id (timeout_grant now) s.store in
    let rows = (expire_overdue now s.store).0 in
    if s.approve_on_timeout
    then (record s { store = granted_rows; events = events }, granted)
    else (record s { store = rows; events = events }, Store.get id rows)

-- `pending`.
unfoldable pub list_pending : ℕ → Service → Service × Table
unfolding expire_overdue pending_rows
list_pending now s =
    let rows = (expire_overdue now s.store).0 in (record s { store = rows }, pending_rows rows)

-- A call that another task makes while a wait sleeps.
pub data Op : Type 0 where
  opens : Text → ℕ → Call → Op
  decides : Text → Verdict → Op
  dismisses : Text → Option Text → ℕ → Op
  reads : Text → ℕ → ℕ → Op
  lists : ℕ → Op
  settles : Text → ℕ → Op

abbrev pub after_open : Service → Option (Service × ApprovalRequest) → Service
after_open s none = s
after_open s (some (s', r)) = s'

unfoldable pub run_op : Op → Service → Service
unfolding open_request decide dismiss get settle_timeout list_pending
run_op (opens id now c) s = after_open s (open_request id now c s)
run_op (decides id v) s = (decide id v s).0
run_op (dismisses id remark now) s = (dismiss id remark now s).0
run_op (reads id now delay) s = (get id now delay s).0
run_op (lists now) s = (list_pending now s).0
run_op (settles id now) s = (settle_timeout id now s).0

unfoldable pub run_ops : List Op → Service → Service
unfolding run_op
run_ops [] s = s
run_ops (op ∷ ops) s = run_ops ops (run_op op s)

-- One round of the loop: what the others did until the sleep ended, and the clock at the next round.
pub record Round : Type 0 where
  pub others : List Op
  pub clock : ℕ

-- `waiting` where the rounds given have not ended the wait.
pub data Waited : Type 0 where
  waiting : Waited
  returned : Option ApprovalRequest → Waited

abbrev pub settled_wait : Service × Option ApprovalRequest → Service × Waited
settled_wait (s, r) = (s, returned r)

-- The time-out, once the calls that came before its transaction have run.
unfoldable pub late_settle : Text → ℕ → List Op → Service → Service × Waited
unfolding settle_timeout run_ops
late_settle id now late s = settled_wait (settle_timeout id now (run_ops late s))

-- The loop of `wait`, from the clock that it reads; the time-out is settled `delay` later, behind
-- the calls `late`.
unfoldable pub wait_loop : Text → ℕ → ℕ → List Op → ℕ → List Round → Service → Service × Waited
unfolding Store.get late_settle run_ops pop_event is_resolved
wait_loop id deadline delay late now [] s =
    if leb deadline now then late_settle id (now + delay) late s else (s, waiting)
wait_loop id deadline delay late now (round ∷ rounds) s =
    let s' = run_ops round.others s in
    let again = wait_loop id deadline delay late round.clock rounds s' in
    if leb deadline now then late_settle id (now + delay) late s else elim (Store.get id s'.store) [
      | none ↦ (s', returned none)
      | some r ↦
          if is_resolved r.status
          then (record s' { events = pop_event id s'.events }, returned (some r))
          else again
    ]

unfoldable pub wait : Text → ℕ → ℕ → List Op → List Round → Service → Service × Waited
unfolding wait_loop default_event
wait id now delay late rounds s = elim (Store.get id s.store) [
  | none ↦ (s, returned none)
  | some r ↦
      let s' = record s { events = default_event id s.events } in
      let waited = wait_loop id r.expires_at delay late now rounds s' in
      if is_resolved r.status then (s, returned (some r)) else waited
]
