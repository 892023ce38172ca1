-- ===== src/Policy/Conditions.antt =====
-- What a matching rule requires of a request (policy/engine.py).
use mcp_gatekeeper.Prelude.{
  List, [], ◌∷◌, Bool, true, false, ◌&&◌, ◌≡◌, ◌≢◌, refl, inl, inr, Option, none, some, all, arith,
  Bool-cases, Text, All,
}
use mcp_gatekeeper.Json.{Value, null, boolean, number, string, array, object, Fields}
use mcp_gatekeeper.Glob.{match_path, match_tool, canonical_value}
use mcp_gatekeeper.Policy.{
  PolicyRequest, Rule, RuleCondition, ArgumentCondition, AnnotationView, is_empty,
}
use mcp_gatekeeper.Policy.Engine.{
  resolve_argument, upstream_fits, hint_holds, value_matches, annotations_match, argument_matches,
  rule_matches,
}

-- The early returns of `_rule_matches` add nothing: a rule matches exactly when its upstream, its
-- tool pattern, every hint and every argument condition hold.
pub rule_matches-all :
    (r : Rule) (q : PolicyRequest)
    → rule_matches r q ≡ (
        upstream_fits r.upstream q.upstream
        && match_tool r.tool q.tool
        && annotations_match q.annotations r.condition
        && all (argument_matches q.arguments) r.condition.arguments)
rule_matches-all r q = elim (Bool-cases (is_empty r.condition)) [
  | inl h ↦
      unfold rule_matches in
      ground (
        arith,
        h,
        empty-annotations q.annotations r.condition h,
        empty-arguments (argument_matches q.arguments) r.condition h,
      )
  | inr h ↦ unfold rule_matches in ground (arith, h)
]
  where
    empty-annotations :
        (view : AnnotationView) (c : RuleCondition)
        → is_empty c ≡ true
        → annotations_match view c ≡ true
    empty-annotations view c h = unfold is_empty annotations_match in ground arith

    empty-arguments :
        (p : ArgumentCondition → Bool) (c : RuleCondition)
        → is_empty c ≡ true
        → all p c.arguments ≡ true
    empty-arguments p c h = unfold is_empty in ground arith

hint_stated :
    (b : Bool) (actual : Option Bool) → hint_holds (some b) actual ≡ true → actual ≡ some b
hint_stated true (some true) h = refl
hint_stated true (some false) h = cc
hint_stated true none h = cc
hint_stated false (some false) h = refl
hint_stated false (some true) h = cc
hint_stated false none h = cc

-- A stated hint of the rule is stated by the tool, with the same value.
abbrev pub Stated : Option Bool → Option Bool → Type 0
Stated wanted actual = (b : Bool) → wanted ≡ some b → actual ≡ some b

hint-Stated : (wanted actual : Option Bool) → hint_holds wanted actual ≡ true → Stated wanted actual
hint-Stated none actual h b e = cc
hint-Stated (some c) actual h b e = rw (← e) (hint_stated c actual h)

-- A rule matches only a tool that states every hint which the rule asks for, with the value that it
-- asks for: a tool that leaves the hint out is not matched.
pub rule_matches-hints :
    (r : Rule) (q : PolicyRequest)
    → rule_matches r q ≡ true
    → Stated r.condition.read_only q.annotations.read_only
      × Stated r.condition.destructive q.annotations.destructive
      × Stated r.condition.idempotent q.annotations.idempotent
      × Stated r.condition.open_world q.annotations.open_world
rule_matches-hints r q h =
    let holds : annotations_match q.annotations r.condition ≡ true =
      ground (arith, rule_matches-all r q) in
    let c = r.condition in
    let v = q.annotations in
    (
      hint-Stated c.read_only v.read_only (unfold annotations_match in ground arith),
      hint-Stated c.destructive v.destructive (unfold annotations_match in ground arith),
      hint-Stated c.idempotent v.idempotent (unfold annotations_match in ground arith),
      hint-Stated c.open_world v.open_world (unfold annotations_match in ground arith),
    )

-- The argument at the condition's path is there, is a scalar and matches the pattern as it is written.
abbrev pub Holds : Fields → ArgumentCondition → Type 0
Holds arguments c =
    (s : Text) × (resolve_argument arguments c.path ≢ null)
    × (canonical_value (resolve_argument arguments c.path) ≡ some s)
    × (match_path c.pattern_text s ≡ true)

value-Holds :
    (p : Text) (v : Value)
    → value_matches p v ≡ true
    → (s : Text) × (v ≢ null) × (canonical_value v ≡ some s) × (match_path p s ≡ true)
unfolding canonical_value
value-Holds p null h = cc
value-Holds p (boolean true) h = (_, λ e. cc, refl, h)
value-Holds p (boolean false) h = (_, λ e. cc, refl, h)
value-Holds p (number s) h = (s, λ e. cc, refl, h)
value-Holds p (string s) h = (s, λ e. cc, refl, h)
value-Holds p (array xs) h = cc
value-Holds p (object fs) h = cc

all-Holds :
    (arguments : Fields) (cs : List ArgumentCondition)
    → all (argument_matches arguments) cs ≡ true
    → All (Holds arguments) cs
all-Holds arguments [] h = tt
all-Holds arguments (c ∷ cs) h = (
  value-Holds c.pattern_text (resolve_argument arguments c.path)
      (unfold argument_matches in ground arith),
  all-Holds arguments cs (ground arith),
)

-- A rule matches only where every argument that it lists was sent, is no list and no object, and
-- matches its pattern as a path.
pub rule_matches-arguments :
    (r : Rule) (q : PolicyRequest)
    → rule_matches r q ≡ true
    → All (Holds q.arguments) r.condition.arguments
rule_matches-arguments r q h =
    all-Holds q.arguments r.condition.arguments (ground (arith, rule_matches-all r q))
