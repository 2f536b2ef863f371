-- ===== src/ConstraintSolver/Constraints.antt =====
-- packages/constraint-solver/src/constraints.ts. A weight is a natural number here; the source
-- refuses numbers that are not finite, and only adds and compares the others.
use prime_system.Base.{ℕ, String, List, Option, if◌then◌else◌, str_lt}
use prime_system.ConstraintSolver.Semantics.{
  Traversal, CyclePolicy, ConflictSeverity, LoadOrder, before, after, unordered,
}

pub data SideEffect : Type 0 where
  no_effect read_effect write_effect : SideEffect

pub record HardRequirement : Type 0 where
  pub ref : String
  pub relation_ref : String
  pub edge_id : String
  pub subject : String
  pub target : String
  pub traversal : Traversal

pub record HardProhibition : Type 0 where
  pub ref : String
  pub relation_ref : String
  pub edge_id : String
  pub left : String
  pub right : String

pub record SoftPreference : Type 0 where
  pub ref : String
  pub target : String
  pub weight : ℕ
  pub relation_ref : Option String
  pub edge_id : Option String
  pub subject : Option String

pub record RuntimePolicy : Type 0 where
  pub ref : String
  pub target : String
  pub label : String
  pub capabilities : List String
  pub side_effect : SideEffect

pub record OrderingObligation : Type 0 where
  pub ref : String
  pub relation_ref : String
  pub edge_id : String
  pub before : String
  pub after : String
  pub cycle_policy : CyclePolicy

pub record AdvisoryExclusion : Type 0 where
  pub ref : String
  pub relation_ref : String
  pub edge_id : String
  pub left : String
  pub right : String
  pub severity : ConflictSeverity

pub record ConstraintSet : Type 0 where
  pub hard_requirements : List HardRequirement
  pub hard_prohibitions : List HardProhibition
  pub soft_preferences : List SoftPreference
  pub runtime_policies : List RuntimePolicy
  pub orderings : List OrderingObligation
  pub advisories : List AdvisoryExclusion

-- The endpoints as (before, after): `before` on an edge loads its target first.
unfoldable pub ordering_direction : LoadOrder → String → String → String × String
ordering_direction before from to = (to, from)
ordering_direction after from to = (from, to)
ordering_direction unordered from to = (from, to)

-- `a <= b ? [a, b] : [b, a]`
unfoldable pub sorted_pair : String → String → String × String
sorted_pair a b = if str_lt b a then (b, a) else (a, b)
