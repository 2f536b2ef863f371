-- ===== src/ConstraintSolver/Solve/Outcome.antt =====
-- solve of packages/constraint-solver/src/solve.ts, over its closure, its core and its loop.
pub mod Laws
use prime_system.Base.{
  ℕ, zero, ◌+◌, String, string_eq, Bool, true, false, not, ◌&&◌, ◌||◌, List, [], ◌∷◌, ◌++◌, Option,
  none, some, if◌then◌else◌, includes, any, filter, leb, ltb, map, unique, str_lt,
}
use prime_system.Base.Maps.{get}
use prime_system.Base.Sorting.{sort}
use prime_system.ConstraintSolver.Semantics.{
  Diagnostic, RelationSemantics, ConflictSeverity, warning, error, no_conflict, info_level,
  warning_level,
}
use prime_system.ConstraintSolver.Constraints.{
  ConstraintSet, SoftPreference, OrderingObligation, AdvisoryExclusion,
}
use prime_system.ConstraintSolver.Graph.{derived, invalid, derive_thrown, DeriveResult}
use prime_system.ConstraintSolver.Derive.{fatal}
use prime_system.ConstraintSolver.DeriveAll.{derive_constraints}
use prime_system.ConstraintSolver.Blockers.{restrict, ActiveSet}
use prime_system.ConstraintSolver.Order.{
  OrderResult, ordered, rejected, order_thrown, LoadPlan, LoadPlanner,
}
use prime_system.ConstraintSolver.Order.Plan.{plan_load_order}
use prime_system.ConstraintSolver.Evaluate.{
  Blocker, BlockerKind, planner_error, ClosureOutcome, evaluate,
}
use prime_system.ConstraintSolver.Core.{
  CoreEntry, core_entries, minimise_core, is_thrown, minimise_throws,
}
use prime_system.ConstraintSolver.Solve.Candidates.{
  SolveRequest, total_cost, universe_of, Candidate, SelectionPlan, Rejection, RejectedCandidate,
  RejectionReason, blocked_by, reasons_of,
}
use prime_system.ConstraintSolver.Solve.Loop.{Selecting, preference_lt, select_all}

-- `ordering_failed` is the error that is thrown where the selected units cannot be ordered, and
-- `solve_thrown` any other error that is thrown; `out_of_fuel` is the model's own.
pub data SolveResult : Type 0 where
  solved : SelectionPlan → LoadPlan → ConstraintSet → List Diagnostic → SolveResult
  unsat : BlockerKind → SelectionPlan → ConstraintSet → List Diagnostic → SolveResult
  invalid_input : List Diagnostic → SolveResult
  ordering_failed : SolveResult
  solve_thrown : SolveResult
  out_of_fuel : SolveResult

abbrev pub candidate_of : String → String → Option ℕ → Candidate
candidate_of unit_id reason weight = record { unit_id = unit_id; weight = weight; reason = reason }

abbrev pub seed_reason : List String → String → String
seed_reason seeds unit_id = if includes seeds unit_id then "seed" else "hard-requirement"

abbrev pub or_zero : Option ℕ → ℕ
or_zero none = 0
or_zero (some n) = n

abbrev pub bounded_by : Option ℕ → ℕ → ℕ
bounded_by none consumed = consumed
bounded_by (some n) consumed = n

abbrev pub over : Option ℕ → ℕ → Bool
over none consumed = false
over (some n) consumed = ltb n consumed

-- `missingSeeds`
unfoldable pub missing_seeds : SolveRequest → List String
missing_seeds request =
    sort str_lt
      (filter (λ seed. not (includes (universe_of request) seed)) (unique request.mandatory))

abbrev pub missing_seed : String → Diagnostic
missing_seed seed = fatal "MANDATORY_UNIT_MISSING" ("mandatory" ∷ seed ∷ [])

unfoldable pub seeds_of : SolveRequest → List String
seeds_of request = sort str_lt (unique request.mandatory)

unfoldable pub unsat_result :
    LoadPlanner
    → SolveRequest
    → ConstraintSet
    → List Diagnostic
    → ClosureOutcome
    → Blocker
    → SolveResult
unsat_result planner request constraints rationale mandatory blocker =
    let seeds = seeds_of request in
    unsat blocker.kind
      (record {
        candidates = map (λ u. candidate_of u (seed_reason seeds u) none) mandatory.included;
        selected = [];
        rejections = [];
        relation_expansions = mandatory.expansions;
        conflicts = blocker.diagnostic ∷ [];
        max_tokens = or_zero request.max_tokens;
        consumed_tokens = 0;
        unsat_core =
            core_entries
              (minimise_core planner constraints seeds (universe_of request) request.principal
                blocker.refs)
              constraints;
        rationale = rationale;
      })
      constraints (blocker.diagnostic ∷ rationale)

-- The variables before the loop.
unfoldable pub selecting_from : SolveRequest → ClosureOutcome → Selecting
selecting_from request mandatory = record {
  selected = mandatory.included;
  support = mandatory.support;
  reasons = map (λ u. (u, seed_reason (seeds_of request) u)) mandatory.included;
  expansions = mandatory.expansions;
  consumed = total_cost request.unit_cost mandatory.included;
  arrived_via = [];
  decided = [];
  rejections = [];
  accepted = [];
}

abbrev pub warn : String → List String → Diagnostic
warn code path = record { code = code; path = path; severity = warning_level }

abbrev pub over_budget : Option ℕ → ℕ → List Diagnostic
over_budget max_tokens consumed =
    if over max_tokens consumed
    then warn "BUDGET_EXCEEDED_BY_HARD_CONSTRAINTS" ("budget" ∷ []) ∷ []
    else []

abbrev pub candidate_in : Selecting → String → Candidate
candidate_in st u =
    candidate_of u (elim (get u st.reasons) [ none ↦ "candidate" | some reason ↦ reason ])
      (get u st.accepted)

abbrev pub rejection_lt : Rejection → Rejection → Bool
rejection_lt a b = str_lt a.unit_id b.unit_id

abbrev pub rejected_candidate : Rejection → RejectedCandidate
rejected_candidate r = record {
  candidate = candidate_of r.unit_id "soft-preference" (some r.weight);
  reasons = reasons_of r.reason;
}

abbrev pub advisory_lt : AdvisoryExclusion → AdvisoryExclusion → Bool
advisory_lt a b = str_lt a.ref b.ref

abbrev pub exclusion_note : AdvisoryExclusion → Diagnostic
exclusion_note x = record {
  code = "EXCLUSION_RECORDED";
  path = "constraints" ∷ x.ref ∷ [];
  severity = elim x.severity [ warning ↦ warning_level | _ ↦ info_level ];
}

-- `conflicts`: the advisory exclusions whose two ends are both selected.
unfoldable pub conflicts_of : ConstraintSet → List String → List Diagnostic
conflicts_of constraints selected = map exclusion_note (
    sort advisory_lt (
      filter (λ (x : AdvisoryExclusion). includes selected x.left && includes selected x.right)
        constraints.advisories))

abbrev pub among : List String → OrderingObligation → Bool
among selected x = includes selected x.before && includes selected x.after

unfoldable pub plan_of :
    SolveRequest → ConstraintSet → List Diagnostic → Selecting → LoadPlan → SolveResult
plan_of request constraints rationale st p =
    let conflicts = conflicts_of constraints st.selected in
    solved
      (record {
        candidates = map (candidate_in st) (
            sort str_lt (
              filter (includes (universe_of request))
                (unique (st.selected ++ map SoftPreference.target constraints.soft_preferences))));
        selected = map (candidate_in st) p.order;
        rejections = map rejected_candidate (sort rejection_lt st.rejections);
        relation_expansions = st.expansions;
        conflicts = conflicts;
        max_tokens = bounded_by request.max_tokens st.consumed;
        consumed_tokens = st.consumed;
        unsat_core = [];
        rationale = rationale ++ p.diagnostics;
      })
      p constraints (rationale ++ (p.diagnostics ++ conflicts))

unfoldable pub order_selected :
    LoadPlanner → SolveRequest → ConstraintSet → List Diagnostic → Selecting → SolveResult
order_selected planner request constraints rationale st =
    elim (planner st.selected (filter (among st.selected) constraints.orderings)) [
      | ordered p ↦ plan_of request constraints rationale st p
      | rejected c diagnostics ↦ ordering_failed
      | order_thrown ↦ solve_thrown
    ]

-- Whether a trial of the loop threw. The error ends `solve`, so that nothing of what the loop
-- gathers after it is of any effect.
abbrev pub is_planner_error : RejectionReason → Bool
is_planner_error (blocked_by planner_error ref) = true
is_planner_error _ = false

abbrev pub has_thrown : Selecting → Bool
has_thrown st = any (λ (r : Rejection). is_planner_error r.reason) st.rejections

abbrev pub core_throws : LoadPlanner → SolveRequest → ConstraintSet → Blocker → Bool
core_throws planner request constraints blocker =
    is_thrown (some blocker)
    || minimise_throws planner constraints (seeds_of request) (universe_of request)
        request.principal blocker.refs

-- From the evaluation of the mandatory units on.
unfoldable pub solve_from :
    LoadPlanner
    → SolveRequest
    → ConstraintSet
    → List (String × RelationSemantics)
    → List Diagnostic
    → ClosureOutcome
    → Option Blocker
    → SolveResult
solve_from planner request constraints semantics rationale mandatory (some blocker) =
    if core_throws planner request constraints blocker
    then solve_thrown
    else unsat_result planner request constraints rationale mandatory blocker
solve_from planner request constraints semantics rationale mandatory none =
    let start = selecting_from request mandatory in
    elim (select_all planner (restrict constraints none) (universe_of request) request.principal
      request.unit_cost request.max_tokens semantics
      (sort preference_lt constraints.soft_preferences) start) [
        | none ↦ out_of_fuel
        | some st ↦
            if has_thrown st
            then solve_thrown
            else order_selected planner request constraints
                (rationale ++ over_budget request.max_tokens start.consumed) st
      ]

abbrev pub mandatory_of : LoadPlanner → SolveRequest → ConstraintSet → ClosureOutcome
mandatory_of planner request constraints =
    evaluate planner (restrict constraints none) (universe_of request) request.principal
      (seeds_of request)

unfoldable pub solve_derived : LoadPlanner → SolveRequest → DeriveResult → SolveResult
solve_derived planner request derive_thrown = solve_thrown
solve_derived planner request (invalid diagnostics) = invalid_input diagnostics
solve_derived planner request (derived constraints semantics notes) = elim (missing_seeds request) [
  | seed ∷ seeds ↦ invalid_input (notes ++ map missing_seed (seed ∷ seeds))
  | [] ↦
      let mandatory = mandatory_of planner request constraints in
      solve_from planner request constraints semantics notes mandatory mandatory.blocker
]

unfoldable pub solve : SolveRequest → SolveResult
solve request = solve_derived plan_load_order request (derive_constraints request.input)
