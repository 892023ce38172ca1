-- ===== src/Registry/Listing.antt =====
-- The order of the tool list (proxy/registry.py, proxy/server.py).
use mathlib.Core.List.{Perm, Permᴰ}
use mcp_gatekeeper.Prelude.{
  [], ◌∷◌, map, true, false, Text, text_lt, ◌≡◌, refl, sym, ap, ◌∙◌, sort_by-same, insert_by, arith,
}
use mathlib.Core.Logic.{∥∥₁_elim}
use mcp_gatekeeper.Prelude.{not, map, Text, text_lt, [], ◌∷◌, List, Bool, true, false, sort_by}
use mcp_gatekeeper.Registry.{names, Tool, NamespacedTool, ToolRegistry, item_before, sorted_items}

pub text_lt_asym : (s t : Text) → text_lt s t ≡ true → text_lt t s ≡ false
unfolding text_lt
text_lt_asym s [] h = ground (arith, h)
text_lt_asym [] (d ∷ t) h = refl
text_lt_asym (c ∷ s) (d ∷ t) h = ground (arith, h, text_lt_asym s t)

abbrev pub tool_of : Text × NamespacedTool → Tool
tool_of item = item.1.tool

abbrev text_before : Text → Text → Bool
text_before s t = not (text_lt t s)

text_before_total : (s t : Text) → text_before s t ≡ false → text_before t s ≡ true
text_before_total s t h = ground (arith, h, text_lt_asym t s)

text_before_antisym : (s t : Text) → text_before s t ≡ true → text_before t s ≡ true → s ≡ t
unfolding text_lt
text_before_antisym [] [] h k = refl
text_before_antisym [] (d ∷ t) h k = ground (arith, h, k)
text_before_antisym (c ∷ s) [] h k = ground (arith, h, k)
text_before_antisym (c ∷ s) (d ∷ t) h k = ground (arith, h, k, text_before_antisym s t)

text_before_trans :
    (s t u : Text) → text_before s t ≡ true → text_before t u ≡ true → text_before s u ≡ true
unfolding text_lt
text_before_trans [] t [] h k = refl
text_before_trans [] t (e ∷ u) h k = refl
text_before_trans (c ∷ s) [] u h k = ground (arith, h)
text_before_trans (c ∷ s) (d ∷ t) [] h k = ground (arith, k)
text_before_trans (c ∷ s) (d ∷ t) (e ∷ u) h k = ground (arith, h, k, text_before_trans s t u)

abbrev name_of : Text × NamespacedTool → Text
name_of item = item.0

map-insert :
    (x : Text × NamespacedTool) (xs : ToolRegistry)
    → map name_of (insert_by item_before x xs) ≡ insert_by text_before (name_of x) (map name_of xs)
unfolding insert_by item_before
map-insert x [] = refl
map-insert x (y ∷ ys) = ground (arith, map-insert x ys)

names-sorted : (r : ToolRegistry) → names r ≡ sort_by text_before (map name_of r)
unfolding names sorted_items sort_by
names-sorted [] = refl
names-sorted (x ∷ r) =
    map-insert x (sort_by item_before r) ∙ ap (insert_by text_before (name_of x)) (names-sorted r)

map-Permᴰ : {A B : Type 0} {xs ys : List A} (f : A → B) → Permᴰ xs ys → Permᴰ (map f xs) (map f ys)
map-Permᴰ f Permᴰ.nil = Permᴰ.nil
map-Permᴰ f (Permᴰ.cons e d) = Permᴰ.cons (ap f e) (map-Permᴰ f d)
map-Permᴰ f (Permᴰ.swap e e') = Permᴰ.swap (ap f e) (ap f e')
map-Permᴰ f (Permᴰ.trans d d') = Permᴰ.trans (map-Permᴰ f d) (map-Permᴰ f d')

names_prop : (s t : List Text) → IsProp (s ≡ t)
names_prop s t = hlevel

names-same : {r r' : ToolRegistry} → Permᴰ r r' → names r ≡ names r'
names-same {r} {r'} d =
    names-sorted r
    ∙ sort_by-same text_before text_before_total text_before_antisym text_before_trans
        (map-Permᴰ name_of d)
    ∙ sym (names-sorted r')

-- The list of names forgets the order in which the tools came: two registries with the same entries, in
-- whatever order, list the same names in the same order.
pub names-perm : (r r' : ToolRegistry) → Perm r r' → names r ≡ names r'
names-perm r r' p = ∥∥₁_elim p (names_prop (names r) (names r')) names-same
