-- ===== src/System/Tests.antt =====
-- Runs of a gateway whose policy asks for approval of everything: one client, one approver.
use mcp_gatekeeper.Prelude.{none, List, [], ◌∷◌, ◌++◌, some, codes, text_eq, ◌≡◌, refl}
use mcp_gatekeeper.Json.{Fields, end, lookup}
use mcp_gatekeeper.Registry.{find}
use mcp_gatekeeper.Approvals.Service.{parked}
use mcp_gatekeeper.Approvals.{ApprovalRequest, denied, is_granted, is_resolved}
use mcp_gatekeeper.Approvals.Store
use mcp_gatekeeper.Approvals.Store.History.Life.{Course, life_of}
use mcp_gatekeeper.Audit.Store.{Log, sqlite_store}
use mcp_gatekeeper.Upstream.{Sent, wire, is_connected}
use mcp_gatekeeper.Gateway.{Ambient}
use mcp_gatekeeper.Gateway.Asking.{asked_for}
use mcp_gatekeeper.Gateway.Dispatch.{call_tool}
use mcp_gatekeeper.Gateway.Samples.{asks, quiet, approval_in, write_entry, granted_row}
use mcp_gatekeeper.Server.{CallParams, on_call_tool, supports_url_elicitation, meta_value}
use mcp_gatekeeper.Server.Samples.{sdk, advertising, write_params}
use mcp_gatekeeper.Pages.{Form}
use mcp_gatekeeper.System.{Step, calls, posts, polls, run_step, run_steps}
use mcp_gatekeeper.System.Moving.{run_steps-Course}
use mcp_gatekeeper.System.Traffic.{Traffic, run_steps-Traffic}
use mcp_gatekeeper.System.Deciding.{retried, run_steps-refused, run_steps-approved}
use mcp_gatekeeper.System.Ledger.{Fresh, Ledger, run_steps-Ledger}

abbrev approval : Form
approval = record {
  decision = codes "approve";
  approver = codes "ann";
  note = [];
  redirect_to = codes "/";
}

abbrev again : CallParams
again = retried (codes "a2") end write_params

abbrev second : Ambient
second = record quiet { event_id = codes "e2"; approval_id = codes "a3"; now = 90 }

abbrev day : List (Step Fields Fields)
day =
    calls quiet advertising write_params
    ∷ posts (codes "a2") approval 12
    ∷ polls 60
    ∷ calls second advertising again
    ∷ []

run_steps-Course_example :
    Course
      (life_of (Store.get (codes "a2") []))
      (life_of (Store.get (codes "a2") (run_steps sdk asks day (approval_in [])).approvals.store))
run_steps-Course_example = run_steps-Course sdk asks (codes "a2") day (approval_in [])

run_steps-Traffic_example :
    (new : List Sent) × ((run_steps sdk asks day (approval_in [])).sent ≡ [] ++ new)
    × Traffic sdk asks (approval_in []) [] (approval_in []) day new
run_steps-Traffic_example = run_steps-Traffic sdk asks day (approval_in []) refl

day-Fresh : Fresh sdk asks [] day
unfolding Fresh text_eq
day-Fresh = (refl, (refl, tt))

run_steps-Ledger_example :
    let g' = run_steps sdk asks day (approval_in []) in
    (events : Log) × (new : List Sent) × (g'.audit ≡ sqlite_store ([] ++ events))
    × (g'.sent ≡ [] ++ new)
    × Ledger sdk asks day events new
run_steps-Ledger_example = run_steps-Ledger sdk asks day [] (approval_in []) refl day-Fresh

page_asked :
    asked_for (on_call_tool sdk asks quiet advertising write_params (approval_in [])).0
    ≡ some (codes "a2")
unfolding on_call_tool call_tool supports_url_elicitation meta_value lookup text_eq
page_asked = refl

run_steps-refused_example :
    let g' = run_steps sdk asks day (approval_in (record granted_row { status = denied } ∷ [])) in
    (on_call_tool sdk asks second advertising (retried (codes "a1") end write_params) g').1.sent
    ≡ g'.sent
unfolding text_eq is_granted is_resolved Store.get on_call_tool
run_steps-refused_example =
    run_steps-refused sdk asks (codes "a1") (record granted_row { status = denied }) day second
      advertising (retried (codes "a1") end write_params)
      (approval_in (record granted_row { status = denied } ∷ [])) refl refl refl refl

-- The request is on file and undecided while the page is polled.
abbrev parked_again : ApprovalRequest
parked_again = parked (codes "a2") 10 30 (record {
  tool = codes "fs__write";
  upstream = codes "fs";
  arguments = end;
  reason = none;
  client_name = none;
})

still_parked :
    Store.get
      (codes "a2")
      (run_steps sdk asks
        (polls 11 ∷ [])
        (on_call_tool sdk asks quiet advertising write_params (approval_in [])).1).approvals.store
    ≡ some parked_again
unfolding run_steps run_step on_call_tool call_tool supports_url_elicitation meta_value lookup
    text_eq Store.get
still_parked = refl

run_steps-approved_example :
    let g₁ = (on_call_tool sdk asks quiet advertising write_params (approval_in [])).1 in
    let g₂ = run_steps sdk asks (polls 11 ∷ []) g₁ in
    let g₃ = run_steps sdk asks (posts (codes "a2") approval 12 ∷ polls 60 ∷ []) g₂ in
    let g₄ = (on_call_tool sdk asks second advertising again g₃).1 in
    (g₁.sent ≡ [])
    × (g₄.sent ≡ g₃.sent ++ wire (codes "fs") (codes "write") end ∷ [])
    × (g₄.approvals ≡ g₃.approvals)
unfolding text_eq find is_connected run_steps run_step
run_steps-approved_example =
    run_steps-approved sdk asks (codes "a2") approval 12 (polls 11 ∷ []) (polls 60 ∷ []) quiet
      second advertising advertising write_params end write_entry parked_again (approval_in [])
      page_asked refl refl still_parked refl refl refl

-- The day sends the call once, with what it was asked for.
day_sends :
    (run_steps sdk asks day (approval_in [])).sent ≡ wire (codes "fs") (codes "write") end ∷ []
unfolding run_steps run_step on_call_tool call_tool supports_url_elicitation meta_value lookup
    text_eq
day_sends = refl
