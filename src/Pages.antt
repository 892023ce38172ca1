-- ===== src/Pages.antt =====
-- ui/app.py: the handlers of the approval and audit pages. Each takes what FastAPI parsed of the request and
-- the moments that it reads from the clock, and returns what it hands to its template or its redirect.
pub mod Deciding
pub mod Listing
mod Tests
use mcp_gatekeeper.Prelude.{
  ℕ, List, [], ◌∷◌, ◌++◌, Bool, true, false, ◌&&◌, ◌||◌, ◌==◌, Option, none, some, if◌then◌else◌,
  leb, Text, codes, truthy, or_text, text_eq, is_some, not, pos_part, ℤ, pos, negsuc, min_ℕ,
}
use mcp_gatekeeper.Policy.{Action, allow, deny, require_approval, action_value}
use mcp_gatekeeper.Approvals.{ApprovalRequest}
use mcp_gatekeeper.Approvals.Store.{Table, Verdict}
use mcp_gatekeeper.Approvals.Service
use mcp_gatekeeper.Approvals.Service.{Service, list_pending}
use mcp_gatekeeper.Audit.Store.{Log, AuditStore, sqlite_store, count}
use mcp_gatekeeper.Audit.Recent.{recent}
use mcp_gatekeeper.Audit.Jsonl.{Rendering, export_jsonl, with_breaks}

-- Whether `strip()` takes the character away: Python's white space.
abbrev pub is_space : ℕ → Bool
is_space c =
    (leb 9 c && leb c 13)
    || (leb 28 c && leb c 32)
    || (c == 133)
    || (c == 160)
    || (c == 5760)
    || (leb 8192 c && leb c 8202)
    || (c == 8232)
    || (c == 8233)
    || (c == 8239)
    || (c == 8287)
    || (c == 12288)

unfoldable pub lstrip : Text → Text
lstrip [] = []
lstrip (c ∷ s) = let rest = lstrip s in if is_space c then rest else c ∷ s

unfoldable pub rstrip : Text → Text
rstrip [] = []
rstrip (c ∷ s) = let rest = rstrip s in if is_space c && not (truthy rest) then [] else c ∷ rest

unfoldable pub strip : Text → Text
unfolding lstrip rstrip
strip s = rstrip (lstrip s)

abbrev pub anonymous : Text
anonymous = codes "anonymous"

-- What the dashboard shows: the queue and the newest events.
unfoldable pub dashboard : ℕ → Service → AuditStore → Service × Table × Log
unfolding list_pending recent
dashboard now s audit =
    let (s', rows) = list_pending now s in (s', rows, recent (pos 20) (pos 0) none none audit)

unfoldable pub pending_fragment : ℕ → Service → Service × Table
unfolding list_pending
pending_fragment now s = list_pending now s

-- The page of one approval with its status code.
unfoldable pub approval_detail : Text → ℕ → ℕ → Service → Service × ℕ × Option ApprovalRequest
unfolding Service.get
approval_detail id now delay s =
    let (s', approval) = Service.get id now delay s in
    (s', if is_some approval then 200 else 404, approval)

-- The form that an approver posts, and the answer.
pub record Form : Type 0 where
  pub decision : Text
  pub approver : Text
  pub note : Text
  pub redirect_to : Text

pub record Redirect : Type 0 where
  pub target : Text
  pub status_code : ℕ

abbrev pub or_none : Text → Option Text
or_none [] = none
or_none (c ∷ s) = some (c ∷ s)

unfoldable pub verdict_of : Form → ℕ → Verdict
unfolding strip text_eq
verdict_of form now = record {
  granted = text_eq form.decision (codes "approve");
  approver = or_text (some (strip form.approver)) anonymous;
  note = or_none (strip form.note);
  decided_at = now;
}

unfoldable pub redirect_of : Text → Form → Redirect
unfolding text_eq
redirect_of id form = record {
  target = if text_eq form.redirect_to (codes "/") then codes "/" else codes "/approvals/" ++ id;
  status_code = 303;
}

unfoldable pub decide : Text → Form → ℕ → Service → Service × Redirect
unfolding Service.decide verdict_of redirect_of
decide id form now s = ((Service.decide id (verdict_of form now) s).0, redirect_of id form)

-- The query of the audit page, and what its template is given.
pub record Query : Type 0 where
  pub tool : Option Text
  pub action : Option Text
  pub limit : ℤ
  pub offset : ℤ

pub record AuditPage : Type 0 where
  pub events : Log
  pub total : ℕ
  pub tool : Text
  pub action : Text
  pub limit : ℤ
  pub offset : ℤ
  pub actions : List Text

abbrev pub actions : List Text
actions = action_value allow ∷ action_value deny ∷ action_value require_approval ∷ []

-- `Action(action) if action in {...} else None`.
unfoldable pub parse_action : Option Text → Option Action
unfolding text_eq
parse_action none = none
parse_action (some t) =
    if text_eq t (action_value allow)
    then some allow
    else if text_eq t (action_value deny)
    then some deny
    else if text_eq t (action_value require_approval)
    then some require_approval
    else none

unfoldable pub audit_log : Query → AuditStore → AuditPage
unfolding recent count parse_action
audit_log q audit = record {
  events =
      recent (min_ℕ q.limit 500) (pos (pos_part q.offset)) q.tool (parse_action q.action) audit;
  total = count audit;
  tool = or_text q.tool [];
  action = or_text q.action [];
  limit = q.limit;
  offset = q.offset;
  actions = actions;
}

-- The body of `/audit/export.jsonl`.
unfoldable pub export_body : Rendering → Log → Text
unfolding export_jsonl
export_body r log = with_breaks (export_jsonl r log)
