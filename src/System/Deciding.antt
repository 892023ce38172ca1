-- ===== src/System/Deciding.antt =====
-- What a decision on the approval page does to the calls that come back for it (proxy/server.py, ui/app.py,
-- proxy/gateway.py).
use mcp_gatekeeper.Prelude.{
  ℕ, List, [], ◌∷◌, ◌++◌, true, false, ◌&&◌, none, some, Text, text_eq, codes, truthy,
  if◌then◌else◌, ◌≡◌, refl, ap, ◌∙◌, inl, inr, arith,
}
use mcp_gatekeeper.Json.{Fields}
use mcp_gatekeeper.Registry.{NamespacedTool, find}
use mcp_gatekeeper.Approvals.{
  ApprovalRequest, approved, denied, is_pending, is_resolved, is_granted,
}
use mcp_gatekeeper.Approvals.Store
use mcp_gatekeeper.Approvals.Store.History.{Writes, Writes-trans, Writes-settled}
use mcp_gatekeeper.Approvals.Service.Consent.{granted}
use mcp_gatekeeper.Approvals.Service.{parked}
use mcp_gatekeeper.Policy.Engine.{evaluate}
use mcp_gatekeeper.Upstream.{wire, is_connected}
use mcp_gatekeeper.Gateway.{GatewayDeps, Gateway, registry_of, Ambient}
use mcp_gatekeeper.Gateway.Asking.{asked_for, call_tool-elicits}
use mcp_gatekeeper.Gateway.Calls.{or_empty}
use mcp_gatekeeper.Gateway.Dispatch.{call_of, request_for, resumes, call_tool}
use mcp_gatekeeper.Gateway.Forwarding.{Licensed, call_tool-sent}
use mcp_gatekeeper.Gateway.Resume.{resume-forwards}
use mcp_gatekeeper.Server.{Sdk, Meta, CallParams, request_of, on_call_tool}
use mcp_gatekeeper.Pages.{Form, or_none, strip}
use mcp_gatekeeper.Pages.Deciding.{decide-decided}
use mcp_gatekeeper.System.{Step, calls, posts, run_step, run_steps}
use mcp_gatekeeper.System.Moving.{run_steps-Writes}

-- The retry that answers an elicitation: the call of before, with the state that the answer named.
abbrev pub retried : Text → Fields → CallParams → CallParams
retried id responses params = record params {
  request_state = some id;
  input_responses = some responses;
}

settled_pending : (r : ApprovalRequest) → is_resolved r.status ≡ true → is_pending r.status ≡ false
unfolding is_resolved
settled_pending r h = ground arith

ungranted :
    (id : Text) (r : ApprovalRequest) (rows : Store.Table)
    → Store.get id rows ≡ some r
    → is_granted r.status ≡ false
    → granted id rows ≡ true
    → ⊥
ungranted id r rows e h k = ground (arith, e)

resumes-some :
    (id : Text) → truthy id ≡ true → (if truthy id && true then some id else none) ≡ some id
resumes-some id h = rw h refl

module _ {C E I : Type 0} (sdk : Sdk C E I) (d : GatewayDeps) where
  one-Writes :
      (step : Step C I) (g : Gateway)
      → Writes g.approvals.store (run_step sdk d step g).approvals.store
  unfolding run_steps
  one-Writes step g = run_steps-Writes sdk d (step ∷ []) g

  -- A refusal is final: once a request is denied or expired, a call that resumes it sends nothing, whatever
  -- the clients and the approvers did in between.
  pub run_steps-refused :
      (id : Text) (r : ApprovalRequest) (steps : List (Step C I)) (amb : Ambient) (meta : Meta C I)
      (params : CallParams) (g : Gateway)
      → Store.get id g.approvals.store ≡ some r
      → is_resolved r.status ≡ true
      → is_granted r.status ≡ false
      → resumes (request_of sdk meta params) ≡ some id
      → let g' = run_steps sdk d steps g in (on_call_tool sdk d amb meta params g').1.sent ≡ g'.sent
  unfolding on_call_tool run_step Licensed
  run_steps-refused id r steps amb meta params g e h n o =
      let g' = run_steps sdk d steps g in
      let ends = one-Writes (calls amb meta params) g' in
      let row =
        Writes-settled id r (Writes-trans (run_steps-Writes sdk d steps g) ends) e
          (settled_pending r h) in
      elim (call_tool-sent d amb (request_of sdk meta params) g') [
        | inl same ↦ same
        | inr (entry, f, sends, licensed) ↦ absurd (
            ungranted id r (on_call_tool sdk d amb meta params g').1.approvals.store row n
              (rw o at licensed))
      ]

  -- The row that an elicitation leaves.
  pub parked-row :
      (id : Text) (amb : Ambient) (meta : Meta C I) (params : CallParams) (g : Gateway)
      → asked_for (on_call_tool sdk d amb meta params g).0 ≡ some id
      → let g' = (on_call_tool sdk d amb meta params g).1 in
        (r : ApprovalRequest) × (Store.get id g'.approvals.store ≡ some r)
        × (is_pending r.status ≡ true)
        × (g'.sent ≡ g.sent)
  unfolding on_call_tool
  parked-row id amb meta params g a =
      let q = request_of sdk meta params in
      let (entry, _, _, _, same, _, (_, row, quiet)) = call_tool-elicits d amb q g id a in
      let rows = (call_tool d amb q g).1.approvals.store in
      let request = request_for q entry in
      (
        parked amb.approval_id amb.now g.approvals.timeout
            (call_of entry request (evaluate request d.policy) q.client_name),
        ap (λ i. Store.get i rows) same ∙ row,
        refl,
        quiet,
      )

  -- The row that an approval leaves.
  approved-row :
      (id : Text) (form : Form) (now : ℕ) (r : ApprovalRequest) (g : Gateway)
      → text_eq form.decision (codes "approve") ≡ true
      → Store.get id g.approvals.store ≡ some r
      → is_pending r.status ≡ true
      → (r' : ApprovalRequest) × (Store.get id
            (run_step sdk d (posts id form now) g).approvals.store
          ≡ some r')
        × (is_granted r'.status ≡ true)
        × (is_pending r'.status ≡ false)
  unfolding run_step
  approved-row id form now r g v e p =
      let (approver, _, row) = decide-decided id form now g.approvals r e p in
      (
        record r {
          status = if text_eq form.decision (codes "approve") then approved else denied;
          decided_at = some now;
          approver = some approver;
          note = or_none (strip form.note);
        },
        row,
        rw v refl,
        rw v refl,
      )

  -- An approval comes back as the call it was given for: where a call was answered with an approval page
  -- of an id that is not empty, an approver posts `approve` on it while it is undecided, and the client
  -- retries the call with the state it was given, while the tool is registered and its upstream is connected,
  -- that call goes out once, to that upstream and with its arguments, and leaves the queue as it was; nothing
  -- had gone out with the first answer; however long it took and whatever else happened before the decision
  -- and between the decision and the retry.
  pub run_steps-approved :
      (id : Text) (form : Form) (now : ℕ) (before after : List (Step C I)) (amb amb' : Ambient)
      (meta meta' : Meta C I) (params : CallParams) (responses : Fields) (entry : NamespacedTool)
      (r : ApprovalRequest) (g : Gateway)
      → asked_for (on_call_tool sdk d amb meta params g).0 ≡ some id
      → truthy id ≡ true
      → text_eq form.decision (codes "approve") ≡ true
      → let g₁ = (on_call_tool sdk d amb meta params g).1 in
        let g₂ = run_steps sdk d before g₁ in
        let g₃ = run_steps sdk d (posts id form now ∷ after) g₂ in
        let g₄ = (on_call_tool sdk d amb' meta' (retried id responses params) g₃).1 in
        Store.get id g₂.approvals.store ≡ some r
        → is_pending r.status ≡ true
        → find params.name (registry_of d g₃) ≡ some entry
        → is_connected entry.upstream d.connections ≡ true
        → (g₁.sent ≡ g.sent)
          × (g₄.sent
              ≡ g₃.sent ++ wire entry.upstream entry.remote_name (or_empty params.arguments) ∷ [])
          × (g₄.approvals ≡ g₃.approvals)
  unfolding on_call_tool run_step run_steps
  run_steps-approved id form now before after amb amb' meta meta' params responses entry r g a t v
        row p f c =
      let (_, _, _, quiet) = parked-row id amb meta params g a in
      let g₂ = run_steps sdk d before (on_call_tool sdk d amb meta params g).1 in
      let (r', row', h, k) = approved-row id form now r g₂ v row p in
      let posted = run_step sdk d (posts id form now) g₂ in
      let kept = Writes-settled id r' (run_steps-Writes sdk d after posted) row' k in
      let (still, sends) =
        resume-forwards d amb' (request_of sdk meta' (retried id responses params))
          (run_steps sdk d after posted) id r' entry (resumes-some id t) kept h f c in
      (quiet, sends.1, still)
