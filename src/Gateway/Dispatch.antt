-- ===== src/Gateway/Dispatch.antt =====
-- `call_tool` of proxy/gateway.py with its approval paths, and the tool list.
use mcp_gatekeeper.Prelude.{
  ◌+◌, List, [], ◌∷◌, ◌++◌, Bool, true, false, ◌&&◌, Option, none, some, if◌then◌else◌, Text, codes,
  truthy,
}
use mcp_gatekeeper.Policy.{Action, allow, deny, require_approval, Decision, PolicyRequest}
use mcp_gatekeeper.Policy.Engine.{evaluate}
use mcp_gatekeeper.Registry.{NamespacedTool, find, annotation_view}
use mcp_gatekeeper.Approvals.{ApprovalRequest, is_resolved}
use mcp_gatekeeper.Approvals.Service
use mcp_gatekeeper.Approvals.Service.{
  Call, open_request, dismiss, wait, Waited, waiting, returned, run_ops,
}
use mcp_gatekeeper.Audit.{dismissed_by_client, awaiting_approval}
use mcp_gatekeeper.Gateway.{
  auto, elicit, block, GatewayDeps, Gateway, registry_of, Ambient, record_call,
}
use mcp_gatekeeper.Registry.{Tool, ToolRegistry, build, listing}
use mcp_gatekeeper.Gateway.Calls.{
  Answer, text_result, input_required, holding, aborted, Request, or_empty, rstrip_slash,
  answer_unknown, forward, refuse, apply_approval, entry_for,
}

abbrev pub first_of_two : Option ApprovalRequest → ApprovalRequest → ApprovalRequest
first_of_two none s = s
first_of_two (some r) s = r

abbrev pub reason_suffix : Option Text → Text
reason_suffix none = []
reason_suffix (some []) = []
reason_suffix (some (c ∷ s)) = codes ": " ++ (c ∷ s)

abbrev pub call_of : NamespacedTool → PolicyRequest → Decision → Option Text → Call
call_of entry request decision client = record {
  tool = request.tool;
  upstream = entry.upstream;
  arguments = request.arguments;
  reason = decision.reason;
  client_name = client;
}

abbrev pub request_for : Request → NamespacedTool → PolicyRequest
request_for q entry = record {
  tool = q.name;
  upstream = entry.upstream;
  arguments = or_empty q.arguments;
  annotations = annotation_view entry.tool;
}

-- `request_state and input_responses is not None`.
abbrev pub resumes : Request → Option Text
resumes q = elim q.request_state [
  | none ↦ none
  | some s ↦ if truthy s && q.has_input_responses then some s else none
]

module _ (d : GatewayDeps) (amb : Ambient) where
  -- `_resume`; the calls of `between` come in between the reading and the dismissal.
  unfoldable pub resume :
      NamespacedTool → PolicyRequest → Decision → Text → Option Text → Gateway → Answer × Gateway
  unfolding Service.get dismiss apply_approval is_resolved run_ops
  resume entry request decision state client g =
      let (queue, found) = Service.get state amb.now amb.delay g.approvals in
      let g' = record g { approvals = queue } in
      elim found [
        | none ↦ (
          text_result
              (codes "This approval request is no longer on file; the call was not forwarded.")
              true,
          g',
        )
        | some settled ↦
            let (queue', dismissed) =
              dismiss state (some (codes "client retried with no decision on file"))
                (amb.now + amb.delay) (run_ops amb.between queue) in
            if is_resolved settled.status
            then apply_approval d amb entry request decision (some settled) client none none g'
            else apply_approval d amb entry request decision (some (first_of_two dismissed settled))
                client (some dismissed_by_client)
                (some (
                  codes
                    "No approver decided this request; the call was not forwarded. Approve it in the gatekeeper UI and try again."))
                (record g { approvals = queue' })
      ]

  abbrev pub use_elicitation : Bool → Bool
  use_elicitation supports = elim d.approval_mode [
    | elicit ↦ true
    | block ↦ false
    | auto ↦ supports
  ]

  abbrev pub approval_url : Text → Text
  approval_url id = rstrip_slash d.ui_base_url ++ (codes "/approvals/" ++ id)

  -- The answer once the wait has ended.
  abbrev pub after_wait :
      NamespacedTool
      → PolicyRequest
      → Decision
      → Option Text
      → Gateway
      → Service.Service × Waited
      → Answer × Gateway
  after_wait entry request decision client g (queue, waiting) =
      (holding, record g { approvals = queue })
  after_wait entry request decision client g (queue, returned settled) =
      apply_approval d amb entry request decision settled client none none
        (record g { approvals = queue })

  -- `_require_approval`.
  unfoldable pub ask_approval :
      NamespacedTool → PolicyRequest → Decision → Option Text → Bool → Gateway → Answer × Gateway
  unfolding open_request wait apply_approval record_call rstrip_slash
  ask_approval entry request decision client supports g =
      elim (open_request amb.approval_id amb.now (call_of entry request decision client)
        g.approvals) [
          | none ↦ (aborted, g)
          | some (queue, a) ↦
              let g' = record g { approvals = queue } in
              if use_elicitation supports
              then (
                input_required
                    (request.tool ++ (codes " needs approval" ++ reason_suffix decision.reason))
                    (approval_url a.id) a.id,
                record_call d amb
                    (record (entry_for entry request decision awaiting_approval client (some a)) {
                      result_status = none;
                    })
                    g',
              )
              else after_wait entry request decision client g
                  (wait a.id amb.now amb.delay amb.late amb.rounds queue)
        ]

  abbrev pub by_action :
      Action
      → NamespacedTool
      → PolicyRequest
      → Decision
      → Option Text
      → Bool
      → Gateway
      → Answer × Gateway
  by_action allow entry request decision client supports g =
      forward d amb entry request decision none client g
  by_action deny entry request decision client supports g =
      refuse d amb entry request decision client g
  by_action require_approval entry request decision client supports g =
      ask_approval entry request decision client supports g

  unfoldable pub call_tool : Request → Gateway → Answer × Gateway
  unfolding find evaluate annotation_view answer_unknown forward refuse ask_approval resume
  call_tool q g = elim (find q.name (registry_of d g)) [
    | none ↦ answer_unknown d amb q.name (or_empty q.arguments) q.client_name g
    | some entry ↦
        let request = request_for q entry in
        let decision = evaluate request d.policy in
        elim (resumes q) [
          | some state ↦ resume entry request decision state q.client_name g
          | none ↦
              by_action decision.action entry request decision q.client_name
                q.supports_url_elicitation g
        ]
  ]

-- What each connection answers to a request for its tools: none where it failed.
abbrev pub collect : List (Text × Option (List Tool)) → List (Text × List Tool)
collect [] = []
collect ((name, none) ∷ rest) = (name, []) ∷ collect rest
collect ((name, some tools) ∷ rest) = (name, tools) ∷ collect rest

unfoldable pub refresh_registry :
    List (Text × Option (List Tool)) → Gateway → ToolRegistry × Gateway
unfolding build
refresh_registry answers g = let r = build (collect answers) in (r, record g { refreshed = some r })

unfoldable pub list_tools : List (Text × Option (List Tool)) → Gateway → List Tool × Gateway
unfolding refresh_registry listing
list_tools answers g = let (r, g') = refresh_registry answers g in (listing r, g')
