-- ===== src/System/Traffic.antt =====
-- What leaves the running program for the upstream servers, and on whose word (proxy/server.py, ui/app.py,
-- proxy/gateway.py).
use mcp_gatekeeper.Prelude.{
  List, [], ◌∷◌, ◌++◌, append-nil, append_assoc, Bool, true, false, Option, none, some, Text, any,
  any-all, ◌≡◌, refl, sym, ◌∙◌, ap, ◌⊎◌, inl, inr, Bool-cases, arith,
}
use mcp_gatekeeper.Policy.{Action, allow, deny, require_approval}
use mcp_gatekeeper.Policy.Engine.{evaluate}
use mcp_gatekeeper.Registry.{NamespacedTool, find}
use mcp_gatekeeper.Approvals.Service.{Op}
use mcp_gatekeeper.Approvals.Service.Acts.{decides_one, no_consent, Acts-Kept}
use mcp_gatekeeper.Approvals.Service.Consent.{granted, consents, Kept}
use mcp_gatekeeper.Upstream.{Sent, wire, is_connected}
use mcp_gatekeeper.Gateway.{GatewayDeps, Gateway, registry_of, Ambient}
use mcp_gatekeeper.Gateway.Calls.{or_empty}
use mcp_gatekeeper.Gateway.Dispatch.{list_tools, refresh_registry, request_for, resumes}
use mcp_gatekeeper.Gateway.Forwarding.{Licensed, call_tool-sent}
use mcp_gatekeeper.Server.{Sdk, Meta, CallParams, request_of, on_call_tool, on_list_tools}
use mcp_gatekeeper.System.{Step, calls, lists, posts, shows, polls, opens, run_step, run_steps}
use mcp_gatekeeper.System.Moving.{ops_of, run_step-Acts, run_step-auto}

-- Whether an approver approves the request of the id in the step: by a posted form, or while a call is held.
abbrev pub approves : {C I : Type 0} → Text → Step C I → Bool
approves id step = any (consents id) (ops_of step)

own_kept : (id : Text) (op : Op) → decides_one op ≡ false → no_consent id op ≡ true
own_kept id (Op.decides i v) h = ground arith
own_kept id (Op.opens i now c) h = refl
own_kept id (Op.dismisses i remark now) h = refl
own_kept id (Op.reads i now delay) h = refl
own_kept id (Op.lists now) h = refl
own_kept id (Op.settles i now) h = refl

module _ {C E I : Type 0} (sdk : Sdk C E I) (d : GatewayDeps) where
  pub run_step-Kept :
      (id : Text) (step : Step C I) (g : Gateway)
      → g.approvals.approve_on_timeout ≡ false
      → approves id step ≡ false
      → Kept id g.approvals (run_step sdk d step g).approvals
  run_step-Kept id step g h k =
      Acts-Kept id
        (run_step-Acts sdk d (no_consent id) (own_kept id) step g
          (any-all (consents id) (ops_of step) k))
        h

  -- The request of the id was approved before the run or in one of its steps so far.
  abbrev pub Approved : Gateway → List (Step C I) → Text → Type 0
  Approved start past id =
      (granted id start.approvals.store ≡ true) ⊎ (any (approves id) past ≡ true)

  -- What a call needs to go out: the approval that it resumes; otherwise the policy allows it, or it asks
  -- for approval and the request opened for the call is approved.
  unfoldable pub Warrant : Gateway → List (Step C I) → Text → Option Text → Action → Type 0
  Warrant start past fresh (some id) action = Approved start past id
  Warrant start past fresh none allow = Unit
  Warrant start past fresh none deny = ⊥
  Warrant start past fresh none require_approval = Approved start past fresh

  -- The calls that the steps send from a state on, in their order: each is sent once, by the step of a
  -- client that called a registered tool of a connected upstream with those arguments, with a warrant at
  -- the end of that step.
  pub data Traffic (start : Gateway)
      : List (Step C I) → Gateway → List (Step C I) → List Sent → Type 0 where
    over : {past : List (Step C I)} {g : Gateway} → Traffic start past g [] []
    silent :
        {past : List (Step C I)} {g : Gateway} {steps : List (Step C I)} {new : List Sent}
        (step : Step C I)
        → Traffic start (step ∷ past) (run_step sdk d step g) steps new
        → Traffic start past g (step ∷ steps) new
    sends :
        {past : List (Step C I)} {g : Gateway} {steps : List (Step C I)} {new : List Sent}
        (amb : Ambient) (meta : Meta C I) (params : CallParams) (entry : NamespacedTool)
        → find params.name (registry_of d g) ≡ some entry
        → is_connected entry.upstream d.connections ≡ true
        → Warrant start
            (calls amb meta params ∷ past)
            amb.approval_id
            (resumes (request_of sdk meta params))
            (evaluate (request_for (request_of sdk meta params) entry) d.policy).action
        → Traffic start
            (calls amb meta params ∷ past)
            (run_step sdk d (calls amb meta params) g)
            steps
            new
        → Traffic start past g
            (calls amb meta params ∷ steps)
            (wire entry.upstream entry.remote_name (or_empty params.arguments) ∷ new)

  -- What is known of the queue after the past steps.
  abbrev Known : Gateway → List (Step C I) → Gateway → Type 0
  Known start past g =
      (g.approvals.approve_on_timeout ≡ false)
      × ((id : Text) → granted id g.approvals.store ≡ true → Approved start past id)

  earlier :
      (start : Gateway) (past : List (Step C I)) (step : Step C I) (id : Text)
      → approves id step ≡ false
      → Approved start past id
      → Approved start (step ∷ past) id
  earlier start past step id h (inl k) = inl k
  earlier start past step id h (inr k) = inr (ground arith)

  step-Known :
      (start : Gateway) (past : List (Step C I)) (step : Step C I) (g : Gateway)
      → Known start past g
      → Known start (step ∷ past) (run_step sdk d step g)
  step-Known start past step g (auto, known) = (run_step-auto sdk d step g ∙ auto, go)
    where
      go :
          (id : Text)
          → granted id (run_step sdk d step g).approvals.store ≡ true
          → Approved start (step ∷ past) id
      go id h = elim (Bool-cases (approves id step)) [
        | inl k ↦ inr (ground arith)
        | inr k ↦
            earlier start past step id k (known id (sym ((run_step-Kept id step g auto k).0) ∙ h))
      ]

  warranted :
      (start : Gateway) (past : List (Step C I)) (amb : Ambient) (resumed : Option Text)
      (action : Action) (g : Gateway)
      → Known start past g
      → Licensed amb resumed action g
      → Warrant start past amb.approval_id resumed action
  unfolding Licensed Warrant
  warranted start past amb (some id) action g (auto, known) h = known id h
  warranted start past amb none allow g known h = h
  warranted start past amb none deny g known h = h
  warranted start past amb none require_approval g (auto, known) h = known amb.approval_id h

  -- What a list of steps sends, with its traffic.
  abbrev Explained : Gateway → List (Step C I) → Gateway → List (Step C I) → Type 0
  Explained start past g steps =
      (new : List Sent) × ((run_steps sdk d steps g).sent ≡ g.sent ++ new)
      × Traffic start past g steps new

  quietly :
      (start : Gateway) (past : List (Step C I)) (step : Step C I) (steps : List (Step C I))
      (g : Gateway)
      → (run_step sdk d step g).sent ≡ g.sent
      → Explained start (step ∷ past) (run_step sdk d step g) steps
      → Explained start past g (step ∷ steps)
  unfolding run_steps
  quietly start past step steps g h (new, e, t) = (new, e ∙ ap (λ s. s ++ new) h, silent step t)

  -- What a client's step sends.
  Sending : Ambient → Meta C I → CallParams → Gateway → Type 0
  Sending amb meta params g =
      let g' = run_step sdk d (calls amb meta params) g in
      let q = request_of sdk meta params in
      (entry : NamespacedTool) × (find params.name (registry_of d g) ≡ some entry)
      × (is_connected entry.upstream d.connections ≡ true)
      × (g'.sent ≡ g.sent ++ wire entry.upstream entry.remote_name (or_empty params.arguments) ∷ [])
      × Licensed amb (resumes q) (evaluate (request_for q entry) d.policy).action g'

  step-sent :
      (amb : Ambient) (meta : Meta C I) (params : CallParams) (g : Gateway)
      → ((run_step sdk d (calls amb meta params) g).sent ≡ g.sent) ⊎ Sending amb meta params g
  unfolding run_step on_call_tool Sending
  step-sent amb meta params g = elim (call_tool-sent d amb (request_of sdk meta params) g) [
    | inl h ↦ inl h
    | inr (entry, found, (connected, sent), licensed) ↦
        inr (entry, found, connected, sent, licensed)
  ]

  noisily :
      (start : Gateway) (past : List (Step C I)) (amb : Ambient) (meta : Meta C I)
      (params : CallParams) (steps : List (Step C I)) (g : Gateway)
      → let step : Step C I = calls amb meta params in
        Known start (step ∷ past) (run_step sdk d step g)
        → Sending amb meta params g
        → Explained start (step ∷ past) (run_step sdk d step g) steps
        → Explained start past g (step ∷ steps)
  unfolding run_steps Sending
  noisily start past amb meta params steps g known (entry, found, connected, sent, licensed)
        (new, e, t) =
      let step : Step C I = calls amb meta params in
      let q = request_of sdk meta params in
      let w = wire entry.upstream entry.remote_name (or_empty params.arguments) in
      let warrant =
        warranted start (step ∷ past) amb (resumes q)
          (evaluate (request_for q entry) d.policy).action (run_step sdk d step g) known licensed in
      (
        w ∷ new,
        e ∙ ap (λ s. s ++ new) sent ∙ append_assoc g.sent (w ∷ []) new,
        sends amb meta params entry found connected warrant t,
      )

  explain :
      (start : Gateway) (steps : List (Step C I)) (past : List (Step C I)) (g : Gateway)
      → Known start past g
      → Explained start past g steps
  unfolding run_step on_list_tools list_tools refresh_registry
  explain start [] past g known = ([], unfold run_steps in sym (append-nil g.sent), over)
  explain start (step ∷ steps) past g known =
      let known' = step-Known start past step g known in
      let rest = explain start steps (step ∷ past) (run_step sdk d step g) known' in
      go step known' rest
    where
      go :
          (step : Step C I)
          → Known start (step ∷ past) (run_step sdk d step g)
          → Explained start (step ∷ past) (run_step sdk d step g) steps
          → Explained start past g (step ∷ steps)
      go (calls amb meta params) known' rest = elim (step-sent amb meta params g) [
        | inl h ↦ quietly start past (calls amb meta params) steps g h rest
        | inr h ↦ noisily start past amb meta params steps g known' h rest
      ]
      go (lists answers) known' rest = quietly start past (lists answers) steps g refl rest
      go (posts id form now) known' rest = quietly start past (posts id form now) steps g refl rest
      go (shows id now delay) known' rest =
          quietly start past (shows id now delay) steps g refl rest
      go (polls now) known' rest = quietly start past (polls now) steps g refl rest
      go (opens now) known' rest = quietly start past (opens now) steps g refl rest

  -- Nothing leaves the program without a word for it. Where time-outs are denials, whatever the clients and
  -- the approvers do, in whatever order, the calls that went out at the end are those from before and, in
  -- order, one for each of some of the clients' calls, sent as it came in to the connected upstream of its
  -- tool: a call that resumes an approval only where that request was approved at the start or by an
  -- approver in the steps up to this one; any other only where the policy allows it, or where it asks for
  -- approval and the request opened for the call was approved in these ways.
  pub run_steps-Traffic :
      (steps : List (Step C I)) (g : Gateway)
      → g.approvals.approve_on_timeout ≡ false
      → (new : List Sent) × ((run_steps sdk d steps g).sent ≡ g.sent ++ new)
        × Traffic g [] g steps new
  run_steps-Traffic steps g h = explain g steps [] g (h, λ id k. inl k)
