-- ===== src/ConstraintSolver/Evaluate.antt =====
-- One evaluation of the mandatory half of the problem, `evaluate` of
-- packages/constraint-solver/src/solve.ts, over the planner of order.ts.
pub mod Laws
use prime_system.Base.{
  ℕ, String, Bool, true, false, List, [], ◌∷◌, ◌++◌, Option, none, some, if◌then◌else◌, string_eq,
}
use prime_system.Base.Maps.{get}
use prime_system.ConstraintSolver.Semantics.{Diagnostic}
use prime_system.ConstraintSolver.Constraints.{HardRequirement, HardProhibition, RuntimePolicy}
use prime_system.ConstraintSolver.Derive.{fatal}
use prime_system.ConstraintSolver.Closure.{
  Walk, Expansion, Closed, closed, missing_target, Missing, chain_of, close_over, start,
}
use prime_system.ConstraintSolver.Blockers.{
  PrincipalView, ActiveSet, first_prohibition_hit, first_policy_denial,
}
use prime_system.ConstraintSolver.Order.{
  OrderResult, ordered, rejected, order_thrown, RejectedCycle, LoadPlan, LoadPlanner,
}

-- `planner_error` is the model's own: the error that planLoadOrder throws, which ends the solver.
pub data BlockerKind : Type 0 where
  missing_target_kind hard_prohibition runtime_policy cycle planner_error : BlockerKind

pub record Blocker : Type 0 where
  pub kind : BlockerKind
  pub refs : List String
  pub diagnostic : Diagnostic

pub record ClosureOutcome : Type 0 where
  pub included : List String
  pub support : List (String × List String)
  pub expansions : List Expansion
  pub blocker : Option Blocker

abbrev pub outcome : Walk → Option Blocker → ClosureOutcome
outcome w blocker = record {
  included = w.included;
  support = w.support;
  expansions = w.expansions;
  blocker = blocker;
}

-- The closure has a result on every input, so the default is never taken.
abbrev pub or_start : List String → Option Closed → Closed
or_start seeds none = closed (start seeds)
or_start seeds (some c) = c

unfoldable pub closure_of : List String → List HardRequirement → List String → Closed
closure_of seeds requirements universe = or_start seeds (close_over seeds requirements universe)

abbrev pub missing_blocker : Walk → Missing → Blocker
missing_blocker w m = record {
  kind = missing_target_kind;
  refs = m.requirement.ref ∷ chain_of w.support m.subject;
  diagnostic = fatal "HARD_REQUIREMENT_TARGET_MISSING" ("constraints" ∷ m.requirement.ref ∷ []);
}

abbrev pub prohibition_blocker : Walk → HardProhibition → Blocker
prohibition_blocker w p = record {
  kind = hard_prohibition;
  refs = p.ref ∷ (chain_of w.support p.left ++ chain_of w.support p.right);
  diagnostic = fatal "HARD_PROHIBITION_VIOLATED" ("constraints" ∷ p.ref ∷ []);
}

abbrev pub denial_blocker : Walk → RuntimePolicy → Blocker
denial_blocker w p = record {
  kind = runtime_policy;
  refs = p.ref ∷ chain_of w.support p.target;
  diagnostic = fatal "RUNTIME_POLICY_DENIED" ("constraints" ∷ p.ref ∷ []);
}

abbrev pub chains_of : Walk → List String → List String
chains_of w [] = []
chains_of w (member ∷ members) = chain_of w.support member ++ chains_of w members

-- `refs[0] ?? ""`
abbrev pub first_or_empty : List String → String
first_or_empty [] = ""
first_or_empty (r ∷ rs) = r

abbrev pub cycle_blocker : Walk → RejectedCycle → Blocker
cycle_blocker w c = record {
  kind = cycle;
  refs = c.refs ++ chains_of w c.members;
  diagnostic = fatal "CYCLE_REJECTED" ("constraints" ∷ first_or_empty c.refs ∷ []);
}

abbrev pub cycle_of : Walk → OrderResult → Option Blocker
cycle_of w (ordered p) = none
cycle_of w order_thrown =
    some (record { kind = planner_error; refs = []; diagnostic = fatal "" [] })
cycle_of w (rejected c diagnostics) = some (cycle_blocker w c)

abbrev pub denial_of : Walk → Option RuntimePolicy → Option Blocker → Option Blocker
denial_of w none later = later
denial_of w (some p) later = some (denial_blocker w p)

abbrev pub prohibition_of : Walk → Option HardProhibition → Option Blocker → Option Blocker
prohibition_of w none later = later
prohibition_of w (some p) later = some (prohibition_blocker w p)

module _ (planner : LoadPlanner) (active : ActiveSet) (universe : List String)
    (principal : Option PrincipalView) where
  -- The blockers of a closure, in the order in which they are looked for.
  unfoldable pub blocker_of : Walk → Option Blocker
  blocker_of w = prohibition_of w (first_prohibition_hit active.hard_prohibitions w.included) (
      denial_of w (first_policy_denial active.runtime_policies w.included principal)
        (cycle_of w (planner w.included active.orderings)))

  unfoldable pub outcome_of : Closed → ClosureOutcome
  outcome_of (missing_target w m) = outcome w (some (missing_blocker w m))
  outcome_of (closed w) = outcome w (blocker_of w)

  unfoldable pub evaluate : List String → ClosureOutcome
  evaluate seeds = outcome_of (closure_of seeds active.hard_requirements universe)
