-- ===== src/ConstraintSolver/Solve/Candidates.antt =====
-- The request of `solve` and the records of its plan, packages/constraint-solver/src/solve.ts with
-- the plan of packages/ir/src/index.ts.
use prime_system.Base.{ℕ, ◌+◌, String, string_eq, List, [], ◌∷◌, Option, none, some, map}
use prime_system.Base.Maps.{get}
use prime_system.ConstraintSolver.Semantics.{Diagnostic}
use prime_system.ConstraintSolver.Graph.{DeriveInput, GraphUnit}
use prime_system.ConstraintSolver.Blockers.{PrincipalView}
use prime_system.ConstraintSolver.Closure.{Expansion}
use prime_system.ConstraintSolver.Core.{CoreEntry}
use prime_system.ConstraintSolver.Evaluate.{
  BlockerKind, missing_target_kind, hard_prohibition, runtime_policy, cycle, planner_error,
}

-- `max_tokens` is `none` where the request has no budget; a cost is `none` where it is not finite.
pub record SolveRequest : Type 0 where
  pub input : DeriveInput
  pub mandatory : List String
  pub principal : Option PrincipalView
  pub max_tokens : Option ℕ
  pub unit_cost : List (String × Option ℕ)

abbrev cost_or_zero : Option (Option ℕ) → ℕ
cost_or_zero (some (some n)) = n
cost_or_zero _ = 0

unfoldable pub cost_of : List (String × Option ℕ) → String → ℕ
cost_of costs unit_id = cost_or_zero (get unit_id costs)

unfoldable pub total_cost : List (String × Option ℕ) → List String → ℕ
total_cost costs [] = 0
total_cost costs (unit_id ∷ rest) = cost_of costs unit_id + total_cost costs rest

abbrev pub universe_of : SolveRequest → List String
universe_of request = map (λ (unit : GraphUnit). unit.id) request.input.units

pub data RejectionReason : Type 0 where
  blocked_by : BlockerKind → (ref : Option String) → RejectionReason
  budget_exhausted : RejectionReason

pub record Rejection : Type 0 where
  pub unit_id : String
  pub weight : ℕ
  pub reason : RejectionReason

-- `candidateOf`; the score is the weight, or 0.
pub record Candidate : Type 0 where
  pub unit_id : String
  pub weight : Option ℕ
  pub reason : String

-- `blockerReason`
unfoldable pub blocker_reason : BlockerKind → String
blocker_reason missing_target_kind = "hard-requirement-target-missing"
blocker_reason hard_prohibition = "hard-prohibition-violated"
blocker_reason runtime_policy = "runtime-policy-denied"
blocker_reason cycle = "cycle-rejected"
blocker_reason planner_error = ""

pub record RejectedCandidate : Type 0 where
  pub candidate : Candidate
  pub reasons : List String

abbrev pub reasons_of : RejectionReason → List String
reasons_of (blocked_by kind none) = blocker_reason kind ∷ []
reasons_of (blocked_by kind (some ref)) = blocker_reason kind ∷ ref ∷ []
reasons_of budget_exhausted = "budget-exhausted" ∷ []

-- The request's id, snapshot and query are copied into the plan, and no projection is loaded.
pub record SelectionPlan : Type 0 where
  pub candidates : List Candidate
  pub selected : List Candidate
  pub rejections : List RejectedCandidate
  pub relation_expansions : List Expansion
  pub conflicts : List Diagnostic
  pub max_tokens : ℕ
  pub consumed_tokens : ℕ
  pub unsat_core : List CoreEntry
  pub rationale : List Diagnostic
