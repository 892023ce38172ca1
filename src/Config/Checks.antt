-- ===== src/Config/Checks.antt =====
-- The validators of config/models.py. Each returns its value or raises the message.
use mcp_gatekeeper.Prelude.{
  ℕ, List, [], ◌∷◌, ◌++◌, map, Bool, true, false, not, ◌&&◌, ◌||◌, ◌==◌, leb, none, some,
  if◌then◌else◌, Text, codes, truthy, or_text, text_eq, text_lt, join_with, all, any, sort_by,
  is_some,
}
use mcp_gatekeeper.Prelude.Results.{Result, ok, err, ◌>>=◌}
use mcp_gatekeeper.Json.{Value, string, array, object, Items, nil, cons, field, lookup}
use mcp_gatekeeper.Registry.{underscores}
use mcp_gatekeeper.Config.{GatekeeperConfig, Upstream, upstream_name, RuleConfig}

-- `"__" in value`.
unfoldable pub has_separator : Text → Bool
has_separator [] = false
has_separator (c ∷ []) = false
has_separator (c ∷ d ∷ rest) = underscores c d || has_separator (d ∷ rest)

-- `value.replace(old, new)` for single characters.
abbrev pub replace : ℕ → ℕ → Text → Text
replace old new = map (λ c. if c == old then new else c)

-- `value.startswith(head)`.
unfoldable pub starts_with : Text → Text → Bool
starts_with [] value = true
starts_with (c ∷ head) [] = false
starts_with (c ∷ head) (d ∷ value) = (c == d) && starts_with head value

-- `_default_transport`.
abbrev pub with_transport : Value → Value
with_transport (object fs) =
    if is_some (lookup (codes "transport") fs)
    then object fs
    else object (field (codes "transport") (string (codes "stdio")) fs)
with_transport item = item

abbrev pub fill_items : Items → Items
fill_items nil = nil
fill_items (cons item items) = cons (with_transport item) (fill_items items)

unfoldable pub default_transport : Value → Value
unfolding lookup
default_transport (array items) = array (fill_items items)
default_transport value = value

abbrev pub is_member : Text → List Text → Bool
is_member name = any (text_eq name)

-- `port` between its bounds, `ge` and `le`.
abbrev pub port_fits : ℕ → Bool
port_fits port = leb 1 port && leb port 65535

-- `value.isalnum()`, false of the empty text.
abbrev pub all_alnum : (ℕ → Bool) → Text → Bool
all_alnum is_alnum value = truthy value && all is_alnum value

-- `sorted(seen)`, joined.
abbrev pub known_names : List Text → Text
known_names seen =
    or_text (some (join_with (codes ", ") (sort_by (λ s t. not (text_lt t s)) seen)))
      (codes "none configured")

abbrev pub target_known : List Text → RuleConfig → Bool
target_known seen rule = elim rule.upstream [ none ↦ true | some name ↦ is_member name seen ]

-- `is_alnum` is `isalnum` of one character, and `repr` of a text is Python's.
module _ (is_alnum : ℕ → Bool) (repr : Text → Text) where
  unfoldable pub validate_name : Text → Result Text Text
  unfolding has_separator
  validate_name value =
      if has_separator value
      then err (
          codes "upstream name "
          ++ (repr value ++ codes " must not contain '__'; it is the namespace separator"))
      else if not (all_alnum is_alnum (replace b'_' b'a' (replace b'-' b'_' value)))
      then err (
          codes "upstream name "
          ++ (repr value ++ codes " must contain only letters, digits, '-' and '_'"))
      else ok value

module _ (repr : Text → Text) where
  unfoldable pub validate_url : Text → Result Text Text
  unfolding starts_with
  validate_url value =
      if starts_with (codes "http://") value || starts_with (codes "https://") value
      then ok value
      else err
          (codes "upstream url " ++ (repr value ++ codes " must start with http:// or https://"))

  -- The first loop of `_validate_upstreams`; `seen` are the names so far.
  unfoldable pub collect_names : List Text → List Upstream → Result Text (List Text)
  unfolding text_eq
  collect_names seen [] = ok seen
  collect_names seen (u ∷ upstreams) =
      let rest = collect_names (upstream_name u ∷ seen) upstreams in
      if is_member (upstream_name u) seen
      then err (codes "duplicate upstream name " ++ repr (upstream_name u))
      else rest

  -- The second loop.
  unfoldable pub check_rules : List Text → List RuleConfig → Result Text (Unit {0})
  unfolding text_eq
  check_rules seen [] = ok tt
  check_rules seen (rule ∷ rules) =
      let rest = check_rules seen rules in
      if target_known seen rule
      then rest
      else err (
          codes "rule for tool "
          ++ (repr rule.tool
              ++ (codes " targets unknown upstream "
                  ++ (repr (or_text rule.upstream [])
                      ++ (codes " (known: " ++ (known_names seen ++ codes ")"))))))

  unfoldable pub validate_upstreams : GatekeeperConfig → Result Text GatekeeperConfig
  unfolding collect_names check_rules
  validate_upstreams c =
      collect_names [] c.upstreams >>= λ seen. check_rules seen c.policy.rules >>= λ _. ok c
