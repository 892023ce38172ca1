-- ===== src/Pages/Deciding.antt =====
-- What a posted decision does, and what the page of an approval reports (ui/app.py).
use mcp_gatekeeper.Prelude.{
  ℕ, ◌+◌, [], ◌∷◌, Bool, true, false, not, ◌&&◌, ◌==◌, Option, none, some, if◌then◌else◌, Text,
  codes, truthy, or_text, text_eq, text_eq_self, is_some, ◌≡◌, refl, ap, ◌∙◌, inl, inr, Bool-cases,
  Option-cases,
}
use mcp_gatekeeper.Approvals.{ApprovalRequest, approved, denied, is_pending, is_expired_at}
use mcp_gatekeeper.Approvals.Store
use mcp_gatekeeper.Approvals.Store.{decided, expire_overdue}
use mcp_gatekeeper.Approvals.Store.Rows.{get-resolve, resolve-resolve, get-expire}
use mcp_gatekeeper.Approvals.Service
use mcp_gatekeeper.Approvals.Service.{Service}
use mcp_gatekeeper.Pages.{
  Form, strip, or_none, anonymous, verdict_of, redirect_of, decide, approval_detail,
}

or_text-truthy : (o : Option Text) (d : Text) → truthy d ≡ true → truthy (or_text o d) ≡ true
or_text-truthy none d h = h
or_text-truthy (some []) d h = h
or_text-truthy (some (c ∷ s)) d h = refl

-- A form posted on a pending request decides it: the request is approved exactly when the decision reads
-- `approve` and denied otherwise, at the moment of the post, by an approver whose name is not empty.
pub decide-decided :
    (id : Text) (form : Form) (now : ℕ) (s : Service) (r : ApprovalRequest)
    → Store.get id s.store ≡ some r
    → is_pending r.status ≡ true
    → (approver : Text) × (truthy approver ≡ true)
      × (Store.get id (decide id form now s).0.store
          ≡ some (record r {
            status = if text_eq form.decision (codes "approve") then approved else denied;
            decided_at = some now;
            approver = some approver;
            note = or_none (strip form.note);
          }))
unfolding decide Service.decide verdict_of
decide-decided id form now s r e p = (
  or_text (some (strip form.approver)) anonymous,
  or_text-truthy (some (strip form.approver)) anonymous refl,
  (get-resolve id id (verdict_of form now) s.store).0 ∙ rw (text_eq_self id, e, p) refl,
)

-- The first decision stands: whatever form is posted after it leaves every row as it is.
pub decide-decide :
    (id : Text) (first second : Form) (t u : ℕ) (s : Service)
    → (decide id second u (decide id first t s).0).0.store ≡ (decide id first t s).0.store
unfolding decide Service.decide
decide-decide id first second t u s =
    ap (λ x. x.0) (resolve-resolve id (verdict_of first t) (verdict_of second u) s.store)

-- A path on this server: it begins with one slash.
unfoldable pub is_local : Text → Bool
is_local [] = false
is_local (c ∷ []) = c == b'/'
is_local (c ∷ d ∷ s) = (c == b'/') && not (d == b'/') && not (d == b'\\')

-- No form sends the approver to another site: the redirect after a decision is a path on this server, and
-- it is a 303, so that a reload does not post again.
pub redirect_of-is_local :
    (id : Text) (form : Form)
    → (is_local (redirect_of id form).target ≡ true) × ((redirect_of id form).status_code ≡ 303)
unfolding redirect_of is_local
redirect_of-is_local id form = elim (Bool-cases (text_eq form.redirect_to (codes "/"))) [
  | inl h ↦ rw h (refl, refl)
  | inr h ↦ rw h (refl, refl)
]

is_some-get :
    (id : Text) (now delay : ℕ) (s : Service)
    → is_some (Service.get id now delay s).1 ≡ is_some (Store.get id s.store)
unfolding Service.get
is_some-get id now delay s = elim (Option-cases (Store.get id s.store)) [
  | inl e ↦ rw (e, Service.get) refl
  | inr (r, e) ↦ elim (Bool-cases (is_expired_at r now)) [
    | inl h ↦ rw (e, h, Service.get) (ap is_some (get-expire (now + delay) id s.store) ∙ rw e refl)
    | inr h ↦ rw (e, h, Service.get) refl
  ]
]

-- The page of an approval answers 200 exactly when the queue holds the id, and 404 otherwise, also where
-- reading it expires the request.
pub approval_detail-status :
    (id : Text) (now delay : ℕ) (s : Service)
    → (approval_detail id now delay s).1 ≡ (if is_some (Store.get id s.store) then 200 else 404)
unfolding approval_detail
approval_detail-status id now delay s = rw (is_some-get id now delay s) refl
