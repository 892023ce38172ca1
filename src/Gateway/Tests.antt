-- ===== src/Gateway/Tests.antt =====
-- One gateway with one upstream, and the theorems on its calls at concrete inputs.
use mcp_gatekeeper.Prelude.{[], ◌∷◌, ◌++◌, true, false, none, some, text_eq, codes, ◌≡◌, ◌⊎◌, refl}
use mcp_gatekeeper.Policy.Engine.{evaluate}
use mcp_gatekeeper.Registry.{NamespacedTool, find}
use mcp_gatekeeper.Approvals.{is_granted}
use mcp_gatekeeper.Approvals.Store
use mcp_gatekeeper.Approvals.Service.Consent.{granted}
use mcp_gatekeeper.Audit.Store.{record_in}
use mcp_gatekeeper.Upstream.{Sent, is_connected}
use mcp_gatekeeper.Gateway.{Entry, event_of, registry_of}
use mcp_gatekeeper.Gateway.Calls.{or_empty}
use mcp_gatekeeper.Gateway.Dispatch.{call_tool, request_for, resumes}
use mcp_gatekeeper.Gateway.Handlers.{Sends, may_send}
use mcp_gatekeeper.Gateway.Carried.{call_tool-carries}
use mcp_gatekeeper.Gateway.Forwarding.{Licensed, Shows, call_tool-sent, call_tool-Recorded}
use mcp_gatekeeper.Gateway.Resume.{resume-pending, resume-forwards}
use mcp_gatekeeper.Gateway.Samples.{
  write_entry, asks, denies, quiet, approval_in, granted_row, pending_row, retry,
}

tool_found : find (codes "fs__write") asks.registry ≡ some write_entry
unfolding find text_eq
tool_found = refl

row_found : Store.get (codes "a1") (granted_row ∷ []) ≡ some granted_row
unfolding Store.get text_eq
row_found = refl

not_granted : granted (codes "a1") (pending_row ∷ []) ≡ false
unfolding Store.get text_eq is_granted
not_granted = refl

no_row : Store.get (codes "a2") [] ≡ none
unfolding Store.get
no_row = refl

row_granted : is_granted granted_row.status ≡ true
unfolding is_granted
row_granted = refl

fs_connected : is_connected (codes "fs") (codes "fs" ∷ []) ≡ true
unfolding is_connected text_eq
fs_connected = refl

call_tool-sent_example :
    let g = approval_in (granted_row ∷ []) in
    let g' = (call_tool asks quiet retry g).1 in
    (g'.sent ≡ g.sent)
    ⊎ ((entry : NamespacedTool) × (find retry.name (registry_of asks g) ≡ some entry)
        × Sends asks quiet entry (or_empty retry.arguments) g g'
        × Licensed quiet (resumes retry) (evaluate (request_for retry entry) asks.policy).action g')
call_tool-sent_example = call_tool-sent asks quiet retry (approval_in (granted_row ∷ []))

call_tool-carries_example :
    let g = approval_in (granted_row ∷ []) in
    let g' = (call_tool asks quiet retry g).1 in
    (g'.sent ≡ g.sent)
    ⊎ ((entry : NamespacedTool) × (s : Sent) × (find retry.name (registry_of asks g) ≡ some entry)
        × (g'.sent ≡ g.sent ++ s ∷ [])
        × (s.upstream ≡ entry.upstream)
        × (s.name ≡ entry.remote_name)
        × (or_empty s.arguments ≡ or_empty retry.arguments))
call_tool-carries_example = call_tool-carries asks quiet retry (approval_in (granted_row ∷ []))

call_tool-Recorded_example :
    let g = approval_in (granted_row ∷ []) in
    let g' = (call_tool asks quiet retry g).1 in
    ((g'.audit ≡ g.audit) × (g'.sent ≡ g.sent))
    ⊎ ((e : Entry) × (g'.audit ≡ record_in (event_of asks quiet e) g.audit)
        × Shows asks quiet retry.name (or_empty retry.arguments) (event_of asks quiet e)
        × ((may_send (event_of asks quiet e).outcome ≡ true) ⊎ (g'.sent ≡ g.sent)))
call_tool-Recorded_example = call_tool-Recorded asks quiet retry (approval_in (granted_row ∷ []))

resume-pending_example : (call_tool asks quiet retry (approval_in (pending_row ∷ []))).1.sent ≡ []
resume-pending_example =
    resume-pending asks quiet retry (approval_in (pending_row ∷ [])) (codes "a1") refl refl
      not_granted refl

resume-forwards_example :
    let g = approval_in (granted_row ∷ []) in
    let g' = (call_tool denies quiet retry g).1 in
    (g'.approvals ≡ g.approvals) × Sends denies quiet write_entry (or_empty retry.arguments) g g'
resume-forwards_example =
    resume-forwards denies quiet retry (approval_in (granted_row ∷ [])) (codes "a1") granted_row
      write_entry refl row_found row_granted tool_found fs_connected
