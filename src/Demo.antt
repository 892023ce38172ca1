-- ===== src/Demo.antt =====
-- examples/try_it.py: the demonstration client. What it fetches and what its posts return is given; what it
-- prints is a text.
pub mod Consent
mod Tests
use mcp_gatekeeper.Prelude.{
  ℕ, zero, suc, ◌+◌, List, [], ◌∷◌, ◌++◌, any, Bool, true, false, ◌&&◌, ◌||◌, ◌==◌, not, Option,
  none, some, if◌then◌else◌, Text, codes, text_eq, or_text,
}
use mcp_gatekeeper.Audit.Redact.{decimal}
use mcp_gatekeeper.Pages.{Form, anonymous}

unfoldable pub starts_with : Text → Text → Bool
starts_with [] s = true
starts_with (c ∷ p) [] = false
starts_with (c ∷ p) (d ∷ s) = (c == d) && starts_with p s

-- `needle in page`.
unfoldable pub contains : Text → Text → Bool
unfolding starts_with
contains needle [] = starts_with needle []
contains needle (c ∷ page) = starts_with needle (c ∷ page) || contains needle page

abbrev pub pill : Text → Text
pill status = codes "class=\"pill " ++ (status ++ codes "\"")

-- The loop over the statuses, and what comes after it.
unfoldable pub first_pill : List Text → Text → Option Text
unfolding contains
first_pill [] page = if contains (pill (codes "pending")) page then some (codes "pending") else none
first_pill (status ∷ statuses) page =
    let later = first_pill statuses page in
    if contains (pill status) page then some status else later

abbrev pub decisions : List Text
decisions = codes "approved" ∷ codes "denied" ∷ codes "expired" ∷ []

-- `approval_status`, for the page that is fetched: none where the fetch raises URLError.
unfoldable pub approval_status : Option Text → Option Text
unfolding first_pill
approval_status none = none
approval_status (some page) = first_pill decisions page

-- The loop of `wait_for_human`: the rounds that are left, the round that comes, and the status seen last. What
-- it prints, and what it returns.
unfoldable pub poll : (ℕ → Option Text) → ℕ → ℕ → Text → Text × Text
unfolding approval_status text_eq
poll pages zero i last = (10 ∷ [], codes "timeout")
poll pages (suc n) i last =
    let status = or_text (approval_status (pages i)) (codes "pending") in
    let (printed, outcome) = poll pages n (suc i) status in
    if text_eq status (codes "pending")
    then ((if text_eq status last then codes "." else codes "   still waiting") ++ printed, outcome)
    else (10 ∷ [], status)

-- `wait_for_human` with a time-out of whole seconds, one for each round.
unfoldable pub wait_for_human : (ℕ → Option Text) → ℕ → Text × Text
unfolding poll
wait_for_human pages timeout = poll pages timeout 0 []

-- `url.rsplit("/", 1)[-1]`.
unfoldable pub last_part : Text → Text
last_part [] = []
last_part (c ∷ s) =
    let rest = last_part s in
    if any (λ d. d == b'/') s then rest else if c == b'/' then s else c ∷ s

-- The fields that `click_approve` posts; the page's handler fills in the others.
abbrev pub approve_form : Text → Form
approve_form who = record {
  decision = codes "approve";
  approver = who;
  note = [];
  redirect_to = [];
}

pub data ElicitAction : Type 0 where
  accept decline : ElicitAction

-- What the callback did: the form that it posted and for which id, what it printed, and its answer.
pub record Elicited : Type 0 where
  pub posted : Option (Text × Form)
  pub printed : Text
  pub action : ElicitAction

-- `elicit` of `make_elicitation_callback`: `status` is what the post returns, `pages` what the polls fetch.
unfoldable pub elicit : (Text → Text) → Bool → Text → ℕ → (ℕ → Option Text) → Text → Elicited
unfolding last_part wait_for_human text_eq decimal
elicit repr true approver status pages url = record {
  posted = some (last_part url, approve_form approver);
  printed =
      codes "   approving automatically as "
      ++ (repr approver ++ (codes " -> HTTP " ++ (decimal status ++ 10 ∷ [])));
  action = accept;
}
elicit repr false approver status pages url =
    let (printed, outcome) = wait_for_human pages 280 in
    record {
      posted = none;
      printed =
          codes "   >>> OPEN THIS AND CLICK APPROVE: "
          ++ (url ++ (10 ∷ printed ++ (codes "   decision recorded: " ++ (outcome ++ 10 ∷ []))));
      action = if text_eq outcome (codes "approved") then accept else decline;
    }

-- The exit code: 2 where the pages cannot be reached; else 1 where the second call fails.
unfoldable pub exit_code : Bool → Bool → ℕ
exit_code reachable is_error = if reachable then (if is_error then 1 else 0) else 2
