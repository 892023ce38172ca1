-- ===== src/Config/Names.antt =====
-- What `_validate_name` (config/models.py) accepts, and what the namespace of an accepted name is.
use mcp_gatekeeper.Prelude.{
  ℕ, [], ◌∷◌, Bool, true, false, not, ◌&&◌, ◌||◌, ◌==◌, if◌then◌else◌, some, Text, truthy, all, ◌≡◌,
  refl, sym, ◌↔◌, arith,
}
use mcp_gatekeeper.Prelude.Results.{ok, err}
use mcp_gatekeeper.Registry.{namespace, split_namespace}
use mcp_gatekeeper.Registry.Names.{underscore, is_prefix_safe, split_namespace-namespace}
use mcp_gatekeeper.Config.Checks.{has_separator, replace, all_alnum, validate_name}

-- Whether the text ends in an underscore.
unfoldable pub ends_open : Text → Bool
ends_open [] = false
ends_open (c ∷ []) = c == underscore
ends_open (c ∷ d ∷ rest) = ends_open (d ∷ rest)

safe-ends_open : (u : Text) → is_prefix_safe u ≡ (not (has_separator u) && not (ends_open u))
unfolding is_prefix_safe has_separator ends_open
safe-ends_open [] = refl
safe-ends_open (c ∷ []) = refl
safe-ends_open (c ∷ d ∷ rest) = ground (arith, safe-ends_open (d ∷ rest))

two_guards :
    {E A : Type 0} (e e' : E) (p q : Bool) (a : A)
    → ((if p then err e else if not q then err e' else ok a) ≡ ok a) ↔ (not p && q ≡ true)
two_guards e e' true q a = (λ h. ground (arith, h), λ h. ground (arith, h))
two_guards e e' false true a = (λ h. refl, λ h. refl)
two_guards e e' false false a = (λ h. ground (arith, h), λ h. ground (arith, h))

module _ (is_alnum : ℕ → Bool) (repr : Text → Text) where
  -- A letter or digit, a dash or an underscore.
  abbrev pub is_name_letter : ℕ → Bool
  is_name_letter c = is_alnum c || (c == b'-') || (c == underscore)

  abbrev replaced : Text → Text
  replaced value = replace b'_' b'a' (replace b'-' b'_' value)

  letter-replace :
      (c : ℕ)
      → is_alnum b'a' ≡ true
      → is_alnum (let d = if c == b'-' then b'_' else c in if d == b'_' then b'a' else d)
        ≡ is_name_letter c
  letter-replace c h = ground (arith, h)

  letters-replace :
      (value : Text)
      → is_alnum b'a' ≡ true
      → all is_alnum (replaced value) ≡ all is_name_letter value
  letters-replace [] h = refl
  letters-replace (c ∷ value) h = rw (letter-replace c h, letters-replace value h)

  accepted :
      (value : Text)
      → is_alnum b'a' ≡ true
      → all_alnum is_alnum (replaced value) ≡ (truthy value && all is_name_letter value)
  accepted [] h = refl
  accepted (c ∷ value) h = letters-replace (c ∷ value) h

  -- Where `a` is alphanumeric: a name is accepted, as it stands, exactly when it is not empty, holds no
  -- doubled underscore, and consists of letters and digits, dashes and underscores.
  pub validate_name_iff :
      (value : Text)
      → is_alnum b'a' ≡ true
      → (validate_name is_alnum repr value ≡ ok value)
        ↔ (not (has_separator value) && (truthy value && all is_name_letter value) ≡ true)
  unfolding validate_name
  validate_name_iff value h =
      rw (sym (accepted value h))
        (two_guards _ _ (has_separator value) (all_alnum is_alnum (replaced value)) value)

  truthy-replaced : (value : Text) → truthy (replaced value) ≡ truthy value
  truthy-replaced [] = refl
  truthy-replaced (c ∷ value) = refl

  accepted_parts :
      (value : Text)
      → validate_name is_alnum repr value ≡ ok value
      → not (has_separator value) && all_alnum is_alnum (replaced value) ≡ true
  unfolding validate_name
  accepted_parts value h =
      (two_guards _ _ (has_separator value) (all_alnum is_alnum (replaced value)) value).0 h

  -- A name that the configuration accepts and that does not end in an underscore is one that the registry
  -- gets back: splitting the namespaced name of any tool of that upstream gives the upstream and the tool.
  pub validate_name-split_namespace :
      (value tool : Text)
      → validate_name is_alnum repr value ≡ ok value
      → ends_open value ≡ false
      → truthy tool ≡ true
      → split_namespace (namespace value tool) ≡ some (value, tool)
  validate_name-split_namespace value tool h a t =
      split_namespace-namespace value tool
        (ground (arith, safe-ends_open value, accepted_parts value h))
        (ground (arith, truthy-replaced value, accepted_parts value h)) t
