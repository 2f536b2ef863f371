-- ===== src/ConstraintSolver/Core.antt =====
-- The core of an unsatisfiable problem, `coreEntries` and `minimiseCore` of
-- packages/constraint-solver/src/solve.ts.
pub mod Laws
use prime_system.Base.{
  String, string_eq, ◌==◌, Bool, true, false, not, ◌||◌, List, [], ◌∷◌, ◌++◌, Option, none, some,
  if◌then◌else◌, includes, filter, map, unique, str_lt,
}
use prime_system.Base.Sorting.{sort}
use prime_system.ConstraintSolver.Constraints.{
  ConstraintSet, HardRequirement, HardProhibition, RuntimePolicy, OrderingObligation,
}
use prime_system.ConstraintSolver.Blockers.{PrincipalView, restrict}
use prime_system.ConstraintSolver.Order.{LoadPlanner}
use prime_system.ConstraintSolver.Evaluate.{Blocker, planner_error, evaluate}

pub data ConstraintKind : Type 0 where
  hard_requirement hard_prohibition runtime_policy ordering : ConstraintKind

pub record CoreEntry : Type 0 where
  pub ref : String
  pub kind : ConstraintKind

abbrev pub entry : ConstraintKind → String → CoreEntry
entry kind ref = record { ref = ref; kind = kind }

-- The constraints of the four blocking classes, with their classes.
unfoldable pub all_entries : ConstraintSet → List CoreEntry
all_entries set =
    map (λ (c : HardRequirement). entry hard_requirement c.ref) set.hard_requirements
    ++ (map (λ (c : HardProhibition). entry hard_prohibition c.ref) set.hard_prohibitions
        ++ (map (λ (c : RuntimePolicy). entry runtime_policy c.ref) set.runtime_policies
            ++ map (λ (c : OrderingObligation). entry ordering c.ref) set.orderings))

abbrev entry_lt : CoreEntry → CoreEntry → Bool
entry_lt a b = str_lt a.ref b.ref

unfoldable pub core_entries : List String → ConstraintSet → List CoreEntry
unfolding all_entries
core_entries refs set =
    sort entry_lt (filter (λ (c : CoreEntry). includes refs c.ref) (all_entries set))

abbrev pub is_blocked : Option Blocker → Bool
is_blocked none = false
is_blocked (some b) = true

abbrev pub without : String → List String → List String
without ref core = filter (λ c. not (c == ref)) core

unfoldable pub everything : ConstraintSet → List String
everything set = sort str_lt (map CoreEntry.ref (all_entries set))

-- The loop over the refs of the first core.
unfoldable pub shrink : (List String → Bool) → List String → List String → List String
shrink unsat [] core = core
shrink unsat (ref ∷ refs) core =
    let trial = without ref core in shrink unsat refs (if unsat trial then trial else core)

-- Whether a trial of the loop throws.
unfoldable pub shrink_throws :
    (List String → Bool) → (List String → Bool) → List String → List String → Bool
shrink_throws throws unsat [] core = false
shrink_throws throws unsat (ref ∷ refs) core =
    let trial = without ref core in
    throws trial || shrink_throws throws unsat refs (if unsat trial then trial else core)

abbrev pub is_thrown : Option Blocker → Bool
is_thrown none = false
is_thrown (some b) = elim b.kind [ planner_error ↦ true | _ ↦ false ]

module _ (planner : LoadPlanner) (set : ConstraintSet) (seeds universe : List String)
    (principal : Option PrincipalView) where
  unfoldable pub unsat_with : List String → Bool
  unsat_with refs =
      is_blocked (evaluate planner (restrict set (some refs)) universe principal seeds).blocker

  unfoldable pub minimise_core : List String → List String
  minimise_core candidate =
      let core = sort str_lt (unique candidate) in
      if unsat_with core
      then shrink unsat_with core core
      else if unsat_with (everything set)
      then shrink unsat_with (everything set) (everything set)
      else core

  abbrev throws_with : List String → Bool
  throws_with refs =
      is_thrown (evaluate planner (restrict set (some refs)) universe principal seeds).blocker

  -- Whether an evaluation that `minimiseCore` makes throws.
  unfoldable pub minimise_throws : List String → Bool
  minimise_throws candidate =
      let core = sort str_lt (unique candidate) in
      let all = everything set in
      throws_with core
      || (if unsat_with core
          then shrink_throws throws_with unsat_with core core
          else throws_with all
            || (if unsat_with all then shrink_throws throws_with unsat_with all all else false))
