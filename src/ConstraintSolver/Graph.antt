-- ===== src/ConstraintSolver/Graph.antt =====
-- The graph and the request as packages/constraint-solver/src/derive.ts reads them, with the edges
-- and units of packages/ir/src/index.ts.
use prime_system.Base.{ℕ, String, Bool, List, Option}
use prime_system.ConstraintSolver.Semantics.{RawSemantics, RelationSemantics, Diagnostic}
use prime_system.ConstraintSolver.Constraints.{SideEffect, ConstraintSet}

-- `edge.attributes?.["weight"]`: absent, a finite number, or anything else.
pub data EdgeWeight : Type 0 where
  absent_weight : EdgeWeight
  finite_weight : ℕ → EdgeWeight
  invalid_weight : EdgeWeight

pub record GraphEdge : Type 0 where
  pub id : String
  pub relation_ref : String
  pub from : String
  pub to : String
  pub weight : EdgeWeight

pub record GraphUnit : Type 0 where
  pub id : String
  pub policy_labels : List String

pub record PolicyRequirement : Type 0 where
  pub capabilities : List String
  pub side_effect : SideEffect

-- A preference of the request; `none` is a weight that is not finite.
pub record RequestPreference : Type 0 where
  pub unit_id : String
  pub weight : Option ℕ

-- `default_expansion_weight` is resolved to a number, `none` where it is not finite.
pub record DeriveInput : Type 0 where
  pub relations : List (String × RawSemantics)
  pub edges : List GraphEdge
  pub units : List GraphUnit
  pub policy_requirements : List (String × PolicyRequirement)
  pub deny_undeclared : Bool
  pub request_preferences : List RequestPreference
  pub default_expansion_weight : Option ℕ

pub data DeriveResult : Type 0 where
  derived :
      ConstraintSet
      → (semantics : List (String × RelationSemantics)) → List Diagnostic
      → DeriveResult
  invalid : List Diagnostic → DeriveResult
  derive_thrown : DeriveResult
