-- ===== src/Registry.antt =====
-- proxy/registry.py: the upstreams' tools under namespaced names. A dictionary is the list of its
-- items in insertion order. Of the SDK's tool the model keeps the name, the annotations and, as one
-- value, whatever else it holds.
pub mod Names
pub mod Listing
pub mod Build
mod Tests
use mcp_gatekeeper.Prelude.{
  sort_by, text_lt, ℕ, List, [], ◌∷◌, ◌++◌, Bool, true, false, not, ◌&&◌, ◌||◌, ◌==◌, ltb, Option,
  none, some, if◌then◌else◌, Text, text_eq, codes, truthy, map,
}
use mathlib.Core.Option
use mcp_gatekeeper.Json.{Value}
use mcp_gatekeeper.Policy.{AnnotationView, unstated}

abbrev pub separator : Text
separator = codes "__"

unfoldable pub namespace : Text → Text → Text
namespace upstream tool = upstream ++ separator ++ tool

abbrev pub underscores : ℕ → ℕ → Bool
underscores c d = (c == b'_') && (d == b'_')

abbrev pub before : ℕ → Option (Text × Text) → Option (Text × Text)
before c none = none
before c (some (head, rest)) = some (c ∷ head, rest)

-- `name.partition("__")` at the first separator; none where there is none.
unfoldable pub partition : Text → Option (Text × Text)
partition [] = none
partition (c ∷ []) = none
partition (c ∷ d ∷ rest) =
    if underscores c d then some ([], rest) else before c (partition (d ∷ rest))

abbrev pub both_named : Option (Text × Text) → Option (Text × Text)
both_named none = none
both_named (some (upstream, tool)) =
    if not (truthy upstream) || not (truthy tool) then none else some (upstream, tool)

unfoldable pub split_namespace : Text → Option (Text × Text)
unfolding partition
split_namespace name = both_named (partition name)

-- `types.Tool`.
pub record Tool : Type 0 where
  pub name : Text
  pub annotations : Option AnnotationView
  pub other : Value

unfoldable pub annotation_view : Tool → AnnotationView
annotation_view t = elim t.annotations [ none ↦ unstated | some view ↦ view ]

pub record NamespacedTool : Type 0 where
  pub upstream : Text
  pub remote_name : Text
  pub tool : Tool

abbrev pub rename : Tool → Text → Tool
rename t new_name = record t { name = new_name }

abbrev pub ToolRegistry : Type 0
ToolRegistry = List (Text × NamespacedTool)

-- `collected[name] = entry`: an entry of that name is replaced where it stands.
unfoldable pub put : Text → NamespacedTool → ToolRegistry → ToolRegistry
put name entry [] = (name, entry) ∷ []
put name entry ((k, e) ∷ tools) =
    if text_eq k name then (k, entry) ∷ tools else (k, e) ∷ put name entry tools

-- `get`: none where the name is not registered.
unfoldable pub find : Text → ToolRegistry → Option NamespacedTool
find name [] = none
find name ((k, e) ∷ tools) = if text_eq k name then some e else find name tools

abbrev pub entry_of : Text → Tool → NamespacedTool
entry_of upstream t = record {
  upstream = upstream;
  remote_name = t.name;
  tool = rename t (namespace upstream t.name);
}

-- The inner loop of `build`, and the outer one over `upstream_tools.items()`.
unfoldable pub add_tools : Text → List Tool → ToolRegistry → ToolRegistry
unfolding put
add_tools upstream [] collected = collected
add_tools upstream (t ∷ tools) collected =
    add_tools upstream tools (put (namespace upstream t.name) (entry_of upstream t) collected)

unfoldable pub add_upstreams : List (Text × List Tool) → ToolRegistry → ToolRegistry
unfolding add_tools
add_upstreams [] collected = collected
add_upstreams ((upstream, tools) ∷ rest) collected =
    add_upstreams rest (add_tools upstream tools collected)

unfoldable pub build : List (Text × List Tool) → ToolRegistry
unfolding add_upstreams
build upstream_tools = add_upstreams upstream_tools []

-- The order of the items by their names.
unfoldable pub item_before : Text × NamespacedTool → Text × NamespacedTool → Bool
unfolding text_lt
item_before (k, e) (j, f) = not (text_lt j k)

-- The items in the order of `sorted(self.tools)`.
unfoldable pub sorted_items : ToolRegistry → ToolRegistry
unfolding sort_by item_before
sorted_items tools = sort_by item_before tools

unfoldable pub listing : ToolRegistry → List Tool
unfolding sorted_items
listing tools = map (λ (item : Text × NamespacedTool). item.1.tool) (sorted_items tools)

unfoldable pub names : ToolRegistry → List Text
unfolding sorted_items
names tools = map (λ (item : Text × NamespacedTool). item.0) (sorted_items tools)
