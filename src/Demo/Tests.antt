-- ===== src/Demo/Tests.antt =====
-- The demonstration client in front of the gateway of Gateway/Samples.
use mcp_gatekeeper.Prelude.{
  ℕ, zero, suc, ◌<◌, [], ◌∷◌, ◌++◌, false, true, Option, none, some, Text, codes, text_eq, ◌≡◌,
  refl,
}
use mcp_gatekeeper.Json.{end, lookup}
use mcp_gatekeeper.Registry.{find}
use mcp_gatekeeper.Upstream.{wire, is_connected}
use mcp_gatekeeper.Gateway.Calls.{input_required}
use mcp_gatekeeper.Gateway.Dispatch.{approval_url, call_tool}
use mcp_gatekeeper.Gateway.Samples.{asks, quiet, approval_in, write_entry}
use mcp_gatekeeper.Server.{on_call_tool, supports_url_elicitation, meta_value}
use mcp_gatekeeper.Server.Samples.{sdk, advertising, write_params}
use mcp_gatekeeper.System.{posts, run_step}
use mcp_gatekeeper.System.Deciding.{retried}
use mcp_gatekeeper.Demo.{approval_status, wait_for_human, contains, elicit, accept, approve_form}
use mcp_gatekeeper.Demo.Consent.{elicit-approved, elicit-forwards}

-- The page shows a pending request twice, and then an approved one.
abbrev pages : ℕ → Option Text
pages zero = some (codes "<span class=\"pill pending\">")
pages (suc zero) = none
pages (suc (suc n)) = some (codes "<span class=\"pill approved\">")

waits_twice : wait_for_human pages 3 ≡ (codes "   still waiting.\n", codes "approved")
unfolding wait_for_human contains text_eq
waits_twice = refl

elicit-approved_example :
    let out =
      elicit (λ s. s) false (codes "ann") 303 pages (codes "http://localhost/approvals/a2") in
    (out.posted ≡ none)
    × (out.action ≡ accept
        → (k : ℕ) × (k < 280) × (approval_status (pages k) ≡ some (codes "approved")))
elicit-approved_example =
    elicit-approved (λ s. s) (codes "ann") 303 pages (codes "http://localhost/approvals/a2")

abbrev message : Text
message = codes "fs__write needs approval"

page_asked :
    (on_call_tool sdk asks quiet advertising write_params (approval_in [])).0
    ≡ input_required message (approval_url asks quiet (codes "a2")) (codes "a2")
unfolding on_call_tool call_tool supports_url_elicitation meta_value lookup text_eq
page_asked = refl

elicit-forwards_example :
    let url = approval_url asks quiet (codes "a2") in
    let out = elicit (λ s. s) true (codes "ann") 303 pages url in
    let g₁ = (on_call_tool sdk asks quiet advertising write_params (approval_in [])).1 in
    let g₂ = run_step sdk asks (posts (codes "a2") (approve_form (codes "ann")) 12) g₁ in
    let g₃ =
      (on_call_tool sdk asks quiet advertising (retried (codes "a2") end write_params) g₂).1 in
    (out.posted ≡ some (codes "a2", approve_form (codes "ann")))
    × (out.action ≡ accept)
    × (g₃.sent ≡ g₂.sent ++ wire (codes "fs") (codes "write") end ∷ [])
unfolding find text_eq is_connected run_step
elicit-forwards_example =
    elicit-forwards sdk asks (λ s. s) (codes "a2") (codes "ann") message 303 12 pages quiet quiet
      advertising advertising write_params end write_entry (approval_in []) page_asked refl refl
      refl refl
