-- ===== src/Server/Tools.antt =====
-- What `tools/list` of proxy/server.py answers with, from `build` of proxy/registry.py on.
use mathlib.Core.List.{Perm}
use mcp_gatekeeper.Prelude.{
  List, [], ◌∷◌, ◌++◌, map, append-nil, append_assoc, Bool, true, false, not, Option, none, some,
  Text, codes, text_lt, text_eq, sort_by, insert_by, Sorted, sort_by-perm, sort_by-Sorted,
  Bool-cases, inl, inr, ◌≡◌, refl, sym, ap, ◌∙◌, arith,
}
use mcp_gatekeeper.Config.Checks.{is_member}
use mcp_gatekeeper.Config.Targets.{distinct}
use mcp_gatekeeper.Registry.{
  namespace, Tool, NamespacedTool, ToolRegistry, put, entry_of, add_tools, add_upstreams, build,
  item_before, sorted_items, listing,
}
use mcp_gatekeeper.Registry.Listing.{text_lt_asym, tool_of}
use mcp_gatekeeper.Gateway.{Gateway}
use mcp_gatekeeper.Gateway.Dispatch.{collect, list_tools, refresh_registry}
use mcp_gatekeeper.Server.{on_list_tools}

-- The tools that the connections list, each under the upstream's name, two underscores and its own name; a
-- connection that fails lists none.
unfoldable pub served_by : Text → List Tool → List Tool
served_by upstream [] = []
served_by upstream (t ∷ tools) =
    record t { name = upstream ++ codes "__" ++ t.name } ∷ served_by upstream tools

unfoldable pub served : List (Text × Option (List Tool)) → List Tool
unfolding served_by
served [] = []
served ((upstream, none) ∷ rest) = served rest
served ((upstream, some tools) ∷ rest) = served_by upstream tools ++ served rest

abbrev pub name_of : Tool → Text
name_of t = t.name

-- The order by names.
unfoldable pub tool_before : Tool → Tool → Bool
unfolding text_lt
tool_before t u = not (text_lt u.name t.name)

tool_before_total : (t u : Tool) → tool_before t u ≡ false → tool_before u t ≡ true
unfolding tool_before
tool_before_total t u h = ground (arith, h, text_lt_asym u.name t.name)

-- The same tools as items of the registry.
abbrev pack : Text → List Tool → ToolRegistry
pack upstream [] = []
pack upstream (t ∷ tools) = (namespace upstream t.name, entry_of upstream t) ∷ pack upstream tools

abbrev packed : List (Text × List Tool) → ToolRegistry
packed [] = []
packed ((upstream, tools) ∷ rest) = pack upstream tools ++ packed rest

abbrev key : Text × NamespacedTool → Text
key item = item.0

member-middle :
    (j k : Text) (e : NamespacedTool) (c xs : ToolRegistry)
    → is_member j (map key (c ++ (k, e) ∷ xs)) ≡ false
    → text_eq j k ≡ false
member-middle j k e [] xs h = ground (arith, h)
member-middle j k e ((l, f) ∷ c) xs h = ground (arith, h, member-middle j k e c xs)

-- An item of a new name goes to the end.
put-new :
    (k : Text) (e : NamespacedTool) (c xs : ToolRegistry)
    → distinct (map key (c ++ (k, e) ∷ xs)) ≡ true
    → put k e c ≡ c ++ (k, e) ∷ []
unfolding put
put-new k e [] xs h = refl
put-new k e ((j, f) ∷ c) xs h = ground (arith, h, member-middle j k e c xs, put-new k e c xs)

-- Items of new names, put one by one.
put_all : ToolRegistry → ToolRegistry → ToolRegistry
unfolding put
put_all [] c = c
put_all ((k, e) ∷ xs) c = put_all xs (put k e c)

put_all-new : (xs c : ToolRegistry) → distinct (map key (c ++ xs)) ≡ true → put_all xs c ≡ c ++ xs
unfolding put_all
put_all-new [] c h = sym (append-nil c)
put_all-new ((k, e) ∷ xs) c h =
    let put = put-new k e c xs h in
    let same = append_assoc c ((k, e) ∷ []) xs in
    ap (put_all xs) put
    ∙ put_all-new xs (c ++ (k, e) ∷ []) (ap (λ r. distinct (map key r)) same ∙ h)
    ∙ same

put_all-append : (xs ys c : ToolRegistry) → put_all (xs ++ ys) c ≡ put_all ys (put_all xs c)
unfolding put_all
put_all-append [] ys c = refl
put_all-append ((k, e) ∷ xs) ys c = put_all-append xs ys (put k e c)

add_tools-put_all :
    (upstream : Text) (tools : List Tool) (c : ToolRegistry)
    → add_tools upstream tools c ≡ put_all (pack upstream tools) c
unfolding add_tools put_all
add_tools-put_all upstream [] c = refl
add_tools-put_all upstream (t ∷ tools) c =
    add_tools-put_all upstream tools (put (namespace upstream t.name) (entry_of upstream t) c)

add_upstreams-put_all :
    (ups : List (Text × List Tool)) (c : ToolRegistry)
    → add_upstreams ups c ≡ put_all (packed ups) c
unfolding add_upstreams put_all
add_upstreams-put_all [] c = refl
add_upstreams-put_all ((upstream, tools) ∷ rest) c =
    add_upstreams-put_all rest (add_tools upstream tools c)
    ∙ ap (put_all (packed rest)) (add_tools-put_all upstream tools c)
    ∙ sym (put_all-append (pack upstream tools) (packed rest) c)

build-packed :
    (ups : List (Text × List Tool))
    → distinct (map key (packed ups)) ≡ true
    → build ups ≡ packed ups
unfolding build
build-packed ups h = add_upstreams-put_all ups [] ∙ put_all-new (packed ups) [] h

-- Items and tools in step.
data Paired : ToolRegistry → List Tool → Type 0 where
  over : Paired [] []
  also :
      {items : ToolRegistry} {tools : List Tool} (e : NamespacedTool)
      → Paired items tools
      → Paired ((e.tool.name, e) ∷ items) (e.tool ∷ tools)

pack-Paired :
    (upstream : Text) (tools : List Tool) {items : ToolRegistry} {rest : List Tool}
    → Paired items rest
    → Paired (pack upstream tools ++ items) (served_by upstream tools ++ rest)
unfolding served_by namespace
pack-Paired upstream [] p = p
pack-Paired upstream (t ∷ tools) p = also (entry_of upstream t) (pack-Paired upstream tools p)

served-Paired :
    (answers : List (Text × Option (List Tool)))
    → Paired (packed (collect answers)) (served answers)
unfolding served
served-Paired [] = over
served-Paired ((upstream, none) ∷ rest) = served-Paired rest
served-Paired ((upstream, some tools) ∷ rest) = pack-Paired upstream tools (served-Paired rest)

keys-Paired :
    {items : ToolRegistry} {tools : List Tool}
    → Paired items tools
    → map key items ≡ map name_of tools
keys-Paired over = refl
keys-Paired (also e p) = ap (λ names. e.tool.name ∷ names) (keys-Paired p)

tools-Paired :
    {items : ToolRegistry} {tools : List Tool} → Paired items tools → map tool_of items ≡ tools
tools-Paired over = refl
tools-Paired (also e p) = ap (λ tools. e.tool ∷ tools) (tools-Paired p)

insert-Paired :
    (e : NamespacedTool) {items : ToolRegistry} {tools : List Tool}
    → Paired items tools
    → Paired (insert_by item_before (e.tool.name, e) items) (insert_by tool_before e.tool tools)
unfolding insert_by item_before tool_before
insert-Paired e over = also e over
insert-Paired e (also f p) = elim (Bool-cases (text_lt f.tool.name e.tool.name)) [
  | inl h ↦ rw h (also f (insert-Paired e p))
  | inr h ↦ rw h (also e (also f p))
]

sort-Paired :
    {items : ToolRegistry} {tools : List Tool}
    → Paired items tools
    → Paired (sort_by item_before items) (sort_by tool_before tools)
unfolding sort_by
sort-Paired over = over
sort-Paired (also e p) = insert-Paired e (sort-Paired p)

-- `tools/list` answers with the tools that the connections list now, a connection that fails counting for
-- none, each under the upstream's name, two underscores and its own name, provided that no two have the same
-- such name: each of them once, ordered by name, fresh for five seconds and not for shared caches.
pub on_list_tools-served :
    (answers : List (Text × Option (List Tool))) (g : Gateway)
    → let result = (on_list_tools answers g).0 in
      distinct (map name_of (served answers)) ≡ true
      → Perm result.tools (served answers)
        × Sorted tool_before result.tools
        × (result.ttl_ms ≡ 5000)
        × (result.cache_scope ≡ codes "private")
unfolding on_list_tools list_tools refresh_registry listing sorted_items
on_list_tools-served answers g h =
    let pairs = served-Paired answers in
    let built = build-packed (collect answers) (ap distinct (keys-Paired pairs) ∙ h) in
    let tools = tools-Paired (sort-Paired pairs) in
    rw (built, tools)
      (
        sort_by-perm tool_before (served answers),
        sort_by-Sorted tool_before tool_before_total (served answers),
        refl,
        refl,
      )
