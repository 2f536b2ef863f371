-- ===== src/ConstraintSolver/Order.antt =====
-- What packages/constraint-solver/src/order.ts returns, and what the solver asks of it.
pub mod Components
pub mod Plan
use prime_system.Base.{String, ◌≡◌, Bool, List, includes}
use prime_system.ConstraintSolver.Semantics.{CyclePolicy, Diagnostic}
use prime_system.ConstraintSolver.Constraints.{OrderingObligation}

pub record UnitComponent : Type 0 where
  pub key : String
  pub members : List String
  pub cyclic : Bool
  pub collapsed : Bool
  pub cycle_policy : CyclePolicy

pub record RejectedCycle : Type 0 where
  pub members : List String
  pub refs : List String
  pub relation_refs : List String

pub record LoadPlan : Type 0 where
  pub order : List String
  pub components : List UnitComponent
  pub collapsed_into : List (String × String)
  pub diagnostics : List Diagnostic

pub data OrderResult : Type 0 where
  ordered : LoadPlan → OrderResult
  rejected : RejectedCycle → List Diagnostic → OrderResult
  order_thrown : OrderResult

-- What `planLoadOrder` is to the solver.
abbrev pub LoadPlanner : Type 0
LoadPlanner = List String → List OrderingObligation → OrderResult
