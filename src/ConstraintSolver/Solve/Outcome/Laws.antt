-- ===== src/ConstraintSolver/Solve/Outcome/Laws.antt =====
-- What each result of `solve` says, packages/constraint-solver/src/solve.ts.
use prime_system.Base.{ℕ, String, ◌≡◌, ◌≢◌, ◌⊎◌, true, List, [], none, includes, filter}
use prime_system.ConstraintSolver.Semantics.{RelationSemantics, Diagnostic}
use prime_system.ConstraintSolver.Constraints.{ConstraintSet}
use prime_system.ConstraintSolver.Graph.{derived, invalid}
use prime_system.ConstraintSolver.DeriveAll.{derive_constraints}
use prime_system.ConstraintSolver.Blockers.{restrict}
use prime_system.ConstraintSolver.Order.{ordered, rejected, RejectedCycle, LoadPlanner}
use prime_system.ConstraintSolver.Evaluate.Laws.{Respects}
use prime_system.ConstraintSolver.Core.{core_entries, unsat_with}
use prime_system.ConstraintSolver.Solve.Candidates.{SolveRequest, universe_of, total_cost}
use prime_system.ConstraintSolver.Solve.Loop.{Selecting, fits}
use prime_system.ConstraintSolver.Solve.Loop.Laws.{Kept}
use prime_system.ConstraintSolver.Solve.Outcome.{
  SolveResult, solved, unsat, invalid_input, ordering_failed, solve_thrown, out_of_fuel, among,
  seeds_of, selecting_from, mandatory_of, missing_seeds,
}

module _ (planner : LoadPlanner) (request : SolveRequest) where
  abbrev universe : List String
  universe = universe_of request

  -- Units that may be handed to the planner: they have the mandatory units, they keep the hard constraints, and
  -- what they cost is within the budget unless the mandatory closure costs as much.
  pub record IsSelection (constraints : ConstraintSet) (units : List String) (consumed : ℕ)
      : Type 0 where
    pub mandatory : (a : String) → includes request.mandatory a ≡ true → includes units a ≡ true
    pub respects : Respects (restrict constraints none) universe request.principal (includes units)
    pub spent :
        (consumed
          ≡ total_cost request.unit_cost (mandatory_of planner request constraints).included)
        ⊎ (fits request.max_tokens consumed ≡ true)
    pub summed : consumed ≡ total_cost request.unit_cost units

  -- The constraints are those that the input derives, and every mandatory unit exists.
  abbrev Derives : ConstraintSet → Type 0
  Derives constraints =
      (semantics : List (String × RelationSemantics)) × (notes : List Diagnostic)
      × (derive_constraints request.input ≡ derived constraints semantics notes)
      × (missing_seeds request ≡ [])

  -- What a result says of the constraints and of the core that it hands out.
  unfoldable pub Answers : SolveResult → Type 0
  Answers (solved plan p constraints ds) =
      Derives constraints
      × (units : List String) × IsSelection constraints units plan.consumed_tokens
      × (planner units (filter (among units) constraints.orderings) ≡ ordered p)
  Answers (unsat kind plan constraints ds) =
      Derives constraints
      × (core : List String) × (plan.unsat_core ≡ core_entries core constraints)
      × (unsat_with planner constraints (seeds_of request) universe request.principal core ≡ true)
  Answers (invalid_input ds) =
      (derive_constraints request.input ≡ invalid ds) ⊎ (missing_seeds request ≢ [])
  Answers ordering_failed =
      (constraints : ConstraintSet) × (selected : List String) × (c : RejectedCycle) × (ds : List
        Diagnostic)
      × (planner selected (filter (among selected) constraints.orderings) ≡ rejected c ds)
  Answers solve_thrown = Unit {0}
  Answers out_of_fuel = ⊥

  module _ (constraints : ConstraintSet) (semantics : List (String × RelationSemantics))
      (from : Derives constraints) where
    abbrev start : Selecting
    start = selecting_from request (mandatory_of planner request constraints)

    abbrev KeptFrom : Selecting → Type 0
    KeptFrom st =
        Kept planner (restrict constraints none) universe request.principal request.unit_cost
          request.max_tokens semantics start st
