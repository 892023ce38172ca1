-- ===== src/Demo/Consent.antt =====
-- The demonstration client does not approve for its user, and with `--auto` its approval reaches the call
-- (examples/try_it.py with proxy/gateway.py and ui/app.py).
use mcp_gatekeeper.Prelude.{
  ℕ, zero, suc, ◌+◌, ◌<◌, [], ◌∷◌, ◌++◌, append_assoc, any, Bool, true, false, ◌==◌, Option, none,
  some, Text, codes, text_eq, text_eq_iff, or_text, truthy, ◌≡◌, refl, sym, ap, ◌∙◌, inl, inr,
  Bool-cases, arith,
}
use mcp_gatekeeper.Json.{Fields}
use mcp_gatekeeper.Registry.{NamespacedTool, find}
use mcp_gatekeeper.Upstream.{wire, is_connected}
use mcp_gatekeeper.Gateway.{GatewayDeps, Gateway, registry_of, Ambient}
use mcp_gatekeeper.Gateway.Asking.{asked_for}
use mcp_gatekeeper.Gateway.Calls.{input_required, or_empty}
use mcp_gatekeeper.Server.{Sdk, Meta, CallParams, on_call_tool}
use mcp_gatekeeper.System.{posts, run_step, run_steps}
use mcp_gatekeeper.System.Deciding.{retried, parked-row, run_steps-approved}
use mcp_gatekeeper.Gateway.Calls.{rstrip_slash}
use mcp_gatekeeper.Gateway.Dispatch.{approval_url}
use mcp_gatekeeper.Demo.{
  approval_status, poll, wait_for_human, last_part, elicit, accept, approve_form,
}

abbrev slash_in : Text → Bool
slash_in s = any (λ d. d == b'/') s

last_part-plain : (s : Text) → slash_in s ≡ false → last_part (b'/' ∷ s) ≡ s
unfolding last_part
last_part-plain s h = rw (h, last_part) refl

last_part-append : (a s : Text) → slash_in s ≡ false → last_part (a ++ b'/' ∷ s) ≡ s
unfolding last_part
last_part-append [] s h = last_part-plain s h
last_part-append (c ∷ a) s h = rw (slash a s, last_part) (last_part-append a s h)
  where
    slash : (a s : Text) → slash_in (a ++ b'/' ∷ s) ≡ true
    slash [] s = refl
    slash (c ∷ a) s = ground (arith, slash a s)

-- The client finds the id of a request at the end of the address that the gateway sends, whatever base the
-- pages have, where the id holds no slash.
pub last_part-approval_url :
    (d : GatewayDeps) (amb : Ambient) (id : Text)
    → any (λ c. c == b'/') id ≡ false
    → last_part (approval_url d amb id) ≡ id
last_part-approval_url d amb id h =
    ap last_part (sym (append_assoc (rstrip_slash d.ui_base_url) (codes "/approvals") (b'/' ∷ id)))
    ∙ last_part-append (rstrip_slash d.ui_base_url ++ codes "/approvals") id h

read_status-approved :
    (o : Option Text) → or_text o (codes "pending") ≡ codes "approved" → o ≡ some (codes "approved")
read_status-approved none h = cc
read_status-approved (some []) h = cc
read_status-approved (some (c ∷ s)) h = ap some h

poll-approved :
    (pages : ℕ → Option Text) (n i : ℕ) (last : Text)
    → (poll pages n i last).1 ≡ codes "approved"
    → (k : ℕ) × (k < n) × (approval_status (pages (i + k)) ≡ some (codes "approved"))
unfolding poll
poll-approved pages zero i last h = absurd (other h)
  where
    other : codes "timeout" ≡ codes "approved" → ⊥
    other h = cc
poll-approved pages (suc n) i last h =
    let status = or_text (approval_status (pages i)) (codes "pending") in
    elim (Bool-cases (text_eq status (codes "pending"))) [
      | inl k ↦
          let (j, below, found) = poll-approved pages n (suc i) status (rw (k, poll) at h) in
          (suc j, omega arith, ap (λ m. approval_status (pages m)) (shift i j) ∙ found)
      | inr k ↦ (
        0,
        omega arith,
        ap (λ m. approval_status (pages m)) (stay i)
            ∙ read_status-approved (approval_status (pages i)) (rw (k, poll) at h),
      )
    ]
  where
    shift : (i j : ℕ) → i + suc j ≡ suc i + j
    shift i j = omega arith

    stay : (i : ℕ) → i + 0 ≡ i
    stay i = omega arith

-- Without `--auto` the client posts nothing, and it accepts only where one of its at most 280 polls read the
-- page of the request with the decision `approved`; otherwise, also where no page can be fetched, it declines.
pub elicit-approved :
    (repr : Text → Text) (approver : Text) (status : ℕ) (pages : ℕ → Option Text) (url : Text)
    → let out = elicit repr false approver status pages url in
      (out.posted ≡ none)
      × (out.action ≡ accept
          → (k : ℕ) × (k < 280) × (approval_status (pages k) ≡ some (codes "approved")))
unfolding elicit wait_for_human
elicit-approved repr approver status pages url = (refl, go)
  where
    first : (k : ℕ) → k ≡ 0 + k
    first k = omega arith

    go :
        (elicit repr false approver status pages url).action ≡ accept
        → (k : ℕ) × (k < 280) × (approval_status (pages k) ≡ some (codes "approved"))
    go h =
        let outcome = (poll pages 280 0 []).1 in
        elim (Bool-cases (text_eq outcome (codes "approved"))) [
          | inl e ↦
              let (k, below, found) =
                poll-approved pages 280 0 [] ((text_eq_iff outcome (codes "approved")).0 e) in
              (k, below, ap (λ m. approval_status (pages m)) (first k) ∙ found)
          | inr e ↦ absurd (ground (arith, e))
        ]

module _ {C E I : Type 0} (sdk : Sdk C E I) (d : GatewayDeps) (repr : Text → Text) where
  -- The demonstration with `--auto`, from end to end: where the client's call is answered with the address of
  -- the approval page of an id that is not empty and holds no slash, the callback posts an approval for the id
  -- of that request and accepts, and when the client then retries the call with the state it was given, while
  -- the tool is registered and its upstream is connected, the call goes out, as it was asked for.
  pub elicit-forwards :
      (id approver message : Text) (status now : ℕ) (pages : ℕ → Option Text) (amb amb' : Ambient)
      (meta meta' : Meta C I) (params : CallParams) (responses : Fields) (entry : NamespacedTool)
      (g : Gateway)
      → (on_call_tool sdk d amb meta params g).0 ≡ input_required message (approval_url d amb id) id
      → truthy id ≡ true
      → any (λ c. c == b'/') id ≡ false
      → let out = elicit repr true approver status pages (approval_url d amb id) in
        let g₁ = (on_call_tool sdk d amb meta params g).1 in
        let g₂ = run_step sdk d (posts id (approve_form approver) now) g₁ in
        let g₃ = (on_call_tool sdk d amb' meta' (retried id responses params) g₂).1 in
        find params.name (registry_of d g₂) ≡ some entry
        → is_connected entry.upstream d.connections ≡ true
        → (out.posted ≡ some (id, approve_form approver))
          × (out.action ≡ accept)
          × (g₃.sent
              ≡ g₂.sent ++ wire entry.upstream entry.remote_name (or_empty params.arguments) ∷ [])
  unfolding elicit run_steps
  elicit-forwards id approver message status now pages amb amb' meta meta' params responses entry g
        a t s f c =
      let (r, row, p, _) = parked-row sdk d id amb meta params g (ap asked_for a) in
      let (_, sends, _) =
        run_steps-approved sdk d id (approve_form approver) now [] [] amb amb' meta meta' params
          responses entry r g (ap asked_for a) t refl row p f c in
      (ap (λ i. some (i, approve_form approver)) (last_part-approval_url d amb id s), refl, sends)
