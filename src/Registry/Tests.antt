-- ===== src/Registry/Tests.antt =====
-- Namespaced names and a registry at concrete inputs.
use mcp_gatekeeper.Prelude.{List, [], ◌∷◌, ◌++◌, true, none, some, Text, codes, ◌≡◌, refl}
use mcp_gatekeeper.Json.{null}
use mcp_gatekeeper.Registry.{namespace, split_namespace, Tool}
use mcp_gatekeeper.Registry.{NamespacedTool, entry_of}
use mcp_gatekeeper.Registry.Names.{underscore, split_namespace-underscore, is_prefix_safe}

abbrev tool_named : Text → Tool
tool_named name = record { name = name; annotations = none; other = null }

abbrev two_upstreams : List (Text × List Tool)
two_upstreams =
    (codes "fs", tool_named (codes "read") ∷ tool_named (codes "write") ∷ [])
    ∷ (codes "git", tool_named (codes "log") ∷ [])
    ∷ []

fs_safe : is_prefix_safe (codes "fs") ≡ true
unfolding is_prefix_safe
fs_safe = refl

split_namespace-underscore_example :
    (namespace (codes "fs" ++ underscore ∷ []) (codes "read")
      ≡ namespace (codes "fs") (underscore ∷ codes "read"))
    × (split_namespace (namespace (codes "fs" ++ underscore ∷ []) (codes "read"))
        ≡ some (codes "fs", underscore ∷ codes "read"))
split_namespace-underscore_example =
    split_namespace-underscore (codes "fs") (codes "read") fs_safe refl

abbrev item : Text → Text × NamespacedTool
item name = (name, entry_of (codes "fs") (tool_named name))
