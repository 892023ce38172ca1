-- ===== src/Registry/Names.antt =====
-- Round trips of namespaced names (proxy/registry.py).
use mcp_gatekeeper.Prelude.{
  ℕ, [], ◌∷◌, ◌++◌, append_assoc, Bool, true, not, ◌&&◌, ◌==◌, Option, some, Text, truthy, ◌≡◌,
  refl, sym, ap, ◌∙◌, arith,
}
use mcp_gatekeeper.Registry.{
  namespace, underscores, partition, both_named, split_namespace, separator,
}

abbrev pub underscore : ℕ
underscore = b'_'

-- No two underscores stand together, and none at the end.
unfoldable pub is_prefix_safe : Text → Bool
is_prefix_safe [] = true
is_prefix_safe (c ∷ []) = not (c == underscore)
is_prefix_safe (c ∷ d ∷ rest) = not (underscores c d) && is_prefix_safe (d ∷ rest)

partition-safe :
    (u t : Text) → is_prefix_safe u ≡ true → partition (u ++ separator ++ t) ≡ some (u, t)
unfolding partition is_prefix_safe
partition-safe [] t h = refl
partition-safe (c ∷ []) t h = ground arith
partition-safe (c ∷ d ∷ u) t h = ground (arith, partition-safe (d ∷ u) t)

named : (u t : Text) → truthy u ≡ true → truthy t ≡ true → both_named (some (u, t)) ≡ some (u, t)
named u t a b = rw (a, b)

-- A name made of an upstream and a tool splits into the two, where neither is empty and the
-- upstream's name has no doubled underscore and ends in none.
pub split_namespace-namespace :
    (u t : Text)
    → is_prefix_safe u ≡ true
    → truthy u ≡ true
    → truthy t ≡ true
    → split_namespace (namespace u t) ≡ some (u, t)
unfolding split_namespace namespace
split_namespace-namespace u t h a b = rw (partition-safe u t h) (named u t a b)

-- Where the names of two upstreams have no doubled underscore and end in none, a namespaced name that
-- they share is made of the same upstream and the same tool.
pub namespace_injective :
    (u t u' t' : Text)
    → is_prefix_safe u ≡ true
    → is_prefix_safe u' ≡ true
    → namespace u t ≡ namespace u' t'
    → (u ≡ u') × (t ≡ t')
unfolding namespace
namespace_injective u t u' t' h h' e =
    let p : ◌≡◌ {A = Option (Text × Text)} (some (u, t)) (some (u', t')) =
      sym (partition-safe u t h) ∙ ap partition e ∙ partition-safe u' t' h' in
    (ground (arith, p), ground (arith, p))

partition-underscore :
    (u t : Text)
    → is_prefix_safe u ≡ true
    → partition (u ++ underscore ∷ separator ++ t) ≡ some (u, underscore ∷ t)
unfolding partition is_prefix_safe
partition-underscore [] t h = refl
partition-underscore (c ∷ []) t h = ground arith
partition-underscore (c ∷ d ∷ u) t h = ground (arith, partition-underscore (d ∷ u) t)

-- Put one underscore behind an upstream's name that is not empty, has no doubled underscore and ends
-- in none: each namespaced name of the longer name is also one of the shorter, for the tool with that
-- underscore before its name, and splitting gives the latter.
pub split_namespace-underscore :
    (u t : Text)
    → is_prefix_safe u ≡ true
    → truthy u ≡ true
    → (namespace (u ++ underscore ∷ []) t ≡ namespace u (underscore ∷ t))
      × (split_namespace (namespace (u ++ underscore ∷ []) t) ≡ some (u, underscore ∷ t))
unfolding split_namespace namespace
split_namespace-underscore u t h a =
    let shift : (u ++ underscore ∷ []) ++ separator ++ t ≡ u ++ underscore ∷ separator ++ t =
      ap (λ (s : Text). s ++ t) (append_assoc u (underscore ∷ []) separator) in
    let join : u ++ underscore ∷ separator ++ t ≡ u ++ separator ++ underscore ∷ t =
      append_assoc u (underscore ∷ separator) t ∙ sym (append_assoc u separator (underscore ∷ t)) in
    (shift ∙ join, rw (shift, partition-underscore u t h) (named u (underscore ∷ t) a refl))
