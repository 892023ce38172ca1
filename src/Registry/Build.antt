-- ===== src/Registry/Build.antt =====
-- What a name finds in the aggregated registry (proxy/registry.py).
use mcp_gatekeeper.Prelude.{
  List, [], ◌∷◌, Bool, true, false, Option, none, some, if◌then◌else◌, Text, text_eq, ◌≡◌, refl, ap,
  ◌∙◌, arith,
}
use mcp_gatekeeper.Registry.{
  namespace, Tool, NamespacedTool, ToolRegistry, put, find, entry_of, add_tools, add_upstreams,
  build,
}
use mcp_gatekeeper.Prelude.{text_eq_iff}

-- The tool that a name stands for in one upstream's list, and in all: the last one listed.
abbrev pub or_else : Option NamespacedTool → Option NamespacedTool → Option NamespacedTool
or_else none d = d
or_else (some e) d = some e

abbrev pub last_tool : Text → Text → List Tool → Option NamespacedTool
last_tool name upstream [] = none
last_tool name upstream (t ∷ tools) =
    or_else (last_tool name upstream tools)
      (if text_eq (namespace upstream t.name) name then some (entry_of upstream t) else none)

abbrev pub last_listed : Text → List (Text × List Tool) → Option NamespacedTool
last_listed name [] = none
last_listed name ((upstream, tools) ∷ rest) =
    or_else (last_listed name rest) (last_tool name upstream tools)

find-put :
    (name k : Text) (e : NamespacedTool) (tools : ToolRegistry)
    → find name (put k e tools) ≡ (if text_eq k name then some e else find name tools)
unfolding find put
find-put name k e [] = refl
find-put name k e ((j, f) ∷ tools) =
    ground (arith, text_eq_iff j k, text_eq_iff j name, text_eq_iff k name, find-put name k e tools)

or_else_assoc : (a b c : Option NamespacedTool) → or_else a (or_else b c) ≡ or_else (or_else a b) c
or_else_assoc none b c = refl
or_else_assoc (some x) b c = refl

if-or_else :
    (b : Bool) (e : NamespacedTool) (d : Option NamespacedTool)
    → (if b then some e else d) ≡ or_else (if b then some e else none) d
if-or_else true e d = refl
if-or_else false e d = refl

find-add_tools :
    (name upstream : Text) (tools : List Tool) (c : ToolRegistry)
    → find name (add_tools upstream tools c) ≡ or_else (last_tool name upstream tools) (find name c)
unfolding add_tools
find-add_tools name upstream [] c = refl
find-add_tools name upstream (t ∷ tools) c =
    find-add_tools name upstream tools (put (namespace upstream t.name) (entry_of upstream t) c)
    ∙ ap (or_else (last_tool name upstream tools)) (
        find-put name (namespace upstream t.name) (entry_of upstream t) c
        ∙ if-or_else (text_eq (namespace upstream t.name) name) (entry_of upstream t) (find name c))
    ∙ or_else_assoc (last_tool name upstream tools) _ (find name c)

find-add_upstreams :
    (name : Text) (ups : List (Text × List Tool)) (c : ToolRegistry)
    → find name (add_upstreams ups c) ≡ or_else (last_listed name ups) (find name c)
unfolding add_upstreams
find-add_upstreams name [] c = refl
find-add_upstreams name ((upstream, tools) ∷ rest) c =
    find-add_upstreams name rest (add_tools upstream tools c)
    ∙ ap (or_else (last_listed name rest)) (find-add_tools name upstream tools c)
    ∙ or_else_assoc (last_listed name rest) (last_tool name upstream tools) (find name c)

or_else-none : (a : Option NamespacedTool) → or_else a none ≡ a
or_else-none none = refl
or_else-none (some e) = refl

-- A name finds the last tool listed, over all upstreams in their order, whose namespaced name it is,
-- with that tool's upstream, own name and renamed definition; where none has that name, it finds none.
pub find-build :
    (name : Text) (upstream_tools : List (Text × List Tool))
    → find name (build upstream_tools) ≡ last_listed name upstream_tools
unfolding build find
find-build name ups = find-add_upstreams name ups [] ∙ or_else-none (last_listed name ups)
