-- ===== src/Glob/Tests.antt =====
-- Runs of the matcher, and the theorems on glob patterns at concrete inputs.
use mcp_gatekeeper.Prelude.{[], ◌∷◌, ◌++◌, true, false, ◌≡◌, refl, ◌↔◌, ◌⊎◌, codes}
use mcp_gatekeeper.Glob.{newline, match_tool, match_path}
use mcp_gatekeeper.Glob.Language.Decides.{Accepts, match_path_iff}
use mcp_gatekeeper.Glob.Laws.{match_tool-plain}

prod_parent : match_path (codes "/prod/**") (codes "/prod") ≡ true
unfolding match_path
prod_parent = refl

prod_file : match_path (codes "/prod/**") (codes "/prod/db.yaml") ≡ true
unfolding match_path
prod_file = refl

prod_sibling : match_path (codes "/prod/**") (codes "/production") ≡ false
unfolding match_path
prod_sibling = refl

star_in_segment : match_path (codes "/data/*.csv") (codes "/data/a/b.csv") ≡ false
unfolding match_path
star_in_segment = refl

double_star_crosses : match_path (codes "/data/**.csv") (codes "/data/a/b.csv") ≡ true
unfolding match_path
double_star_crosses = refl

tool_star : match_tool (codes "fs__*_file") (codes "fs__write_file") ≡ true
unfolding match_tool
tool_star = refl

match_path_iff_example :
    (match_path (codes "/a/?/**") (codes "/a/b") ≡ true)
    ↔ Accepts true (codes "/a/?/**") (codes "/a/b")
match_path_iff_example = match_path_iff (codes "/a/?/**") (codes "/a/b")

match_tool-plain_example :
    (match_tool (codes "fs__read") (codes "fs__read" ++ newline ∷ []) ≡ true) ↔ (
      (codes "fs__read" ++ newline ∷ [] ≡ codes "fs__read")
      ⊎ (codes "fs__read" ++ newline ∷ [] ≡ codes "fs__read" ++ newline ∷ []))
match_tool-plain_example =
    match_tool-plain (codes "fs__read") (codes "fs__read" ++ newline ∷ []) refl
