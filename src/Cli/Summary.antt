-- ===== src/Cli/Summary.antt =====
-- What the command `validate` of cli.py prints of a configuration: a list of lines for stderr. `style` is
-- typer's, applied to a colour and a text.
use mcp_gatekeeper.Prelude.{
  ℕ, zero, suc, ◌-◌, List, [], ◌∷◌, ◌++◌, map, Bool, true, false, Option, none, some, if◌then◌else◌,
  Text, codes, truthy, or_text, join_with, length,
}
use mcp_gatekeeper.Policy.{Action, allow, action_value, ArgumentCondition, Rule}
use mcp_gatekeeper.Audit.Redact.{decimal}
use mcp_gatekeeper.Config.{
  GatekeeperConfig, Upstream, stdio, http, upstream_name, OnTimeout, build_policy,
}
use mcp_gatekeeper.Pages.{strip}

pub data Colour : Type 0 where
  bold_red bold_green yellow : Colour

-- `n` spaces, `{value:<n}` and `{value:>n}`.
abbrev pub spaces : ℕ → Text
spaces zero = []
spaces (suc n) = b' ' ∷ spaces n

abbrev pub left_aligned : ℕ → Text → Text
left_aligned n value = value ++ spaces (n - length value)

abbrev pub right_aligned : ℕ → Text → Text
right_aligned n value = spaces (n - length value) ++ value

abbrev pub transport_of : Upstream → Text
transport_of (stdio u) = codes "stdio"
transport_of (http u) = codes "http"

abbrev pub target_of : Upstream → Text
unfolding strip
target_of (stdio u) = strip (u.command ++ (codes " " ++ join_with (codes " ") u.args))
target_of (http u) = u.url

unfoldable pub upstream_line : Upstream → Text
unfolding target_of
upstream_line u =
    codes "  "
    ++ (left_aligned 16 (upstream_name u)
        ++ (codes " " ++ (left_aligned 6 (transport_of u) ++ (codes " " ++ target_of u))))

abbrev pub upstream_bits : Option Text → List Text
upstream_bits upstream =
    if truthy (or_text upstream []) then (codes "upstream=" ++ or_text upstream []) ∷ [] else []

abbrev pub argument_bit : ArgumentCondition → Text
argument_bit a = a.path ++ (codes "~" ++ a.pattern_text)

abbrev pub hint_bits : Text → Option Bool → List Text
hint_bits label none = []
hint_bits label (some true) = (label ++ codes "=true") ∷ []
hint_bits label (some false) = (label ++ codes "=false") ∷ []

abbrev pub rule_bits : Rule → List Text
rule_bits rule =
    upstream_bits rule.upstream
    ++ (map argument_bit rule.condition.arguments
        ++ (hint_bits (codes "read_only") rule.condition.read_only
            ++ (hint_bits (codes "destructive") rule.condition.destructive
                ++ (hint_bits (codes "idempotent") rule.condition.idempotent
                    ++ hint_bits (codes "open_world") rule.condition.open_world))))

abbrev pub suffix_of : List Text → Text
suffix_of [] = []
suffix_of (bit ∷ bits) = codes "  [" ++ (join_with (codes ", ") (bit ∷ bits) ++ codes "]")

unfoldable pub rule_line : ℕ → Rule → Text
unfolding decimal
rule_line index rule =
    codes "  "
    ++ (right_aligned 2 (decimal index)
        ++ (codes ". "
            ++ (left_aligned 28 rule.tool
                ++ (codes " -> " ++ (action_value rule.action ++ suffix_of (rule_bits rule))))))

abbrev pub rule_lines : ℕ → List Rule → List Text
unfolding rule_line
rule_lines index [] = []
rule_lines index (rule ∷ rules) = rule_line index rule ∷ rule_lines (suc index) rules

abbrev pub upstream_lines : List Upstream → List Text
upstream_lines [] = codes "  (none -- the gatekeeper would expose no tools)" ∷ []
upstream_lines (u ∷ upstreams) = map upstream_line (u ∷ upstreams)

unfoldable pub counted : Text → ℕ → Text → Text
unfolding decimal
counted before n after = before ++ (decimal n ++ after)

module _ (style : Colour → Text → Text) where
  abbrev pub default_warning : Action → List Text
  default_warning allow =
      []
      ∷ style yellow (
          codes
            "Warning: default is 'allow', so any tool without a matching rule is forwarded unchecked.")
      ∷ []
  default_warning _ = []

  abbrev pub timeout_warning : OnTimeout → List Text
  timeout_warning OnTimeout.allow =
      style yellow (codes "Warning: on_timeout is 'allow', so calls nobody answers are forwarded.")
      ∷ []
  timeout_warning OnTimeout.deny = []

  -- What `validate` prints of a configuration that loads.
  unfoldable pub summary : Text → GatekeeperConfig → List Text
  unfolding build_policy counted upstream_line rule_lines
  summary path c =
      (style bold_green (path ++ codes " is valid.")
        ∷ []
        ∷ counted (codes "Upstreams (") (length c.upstreams) (codes "):")
        ∷ upstream_lines c.upstreams)
      ++ (([]
            ∷ counted (codes "Policy rules (") (length c.policy.rules)
                (codes "), first match wins:")
            ∷ rule_lines 0 (build_policy c).rules)
          ++ ((codes "  default: " ++ action_value c.policy.default)
              ∷ (default_warning c.policy.default ++ timeout_warning c.approvals.on_timeout)))
