-- ===== src/ConstraintSolver/Solve/Loop.antt =====
-- The loop over the soft preferences, in `solve` of packages/constraint-solver/src/solve.ts.
pub mod Laws
pub mod Ends
use prime_system.Base.{
  ℕ, zero, suc, ◌+◌, String, string_eq, ◌==◌, Bool, true, false, not, ◌&&◌, ◌||◌, List, [], ◌∷◌,
  ◌++◌, Option, none, some, if◌then◌else◌, includes, any, find, filter, ltb, leb, eqb, str_lt,
  length,
}
use prime_system.Base.Maps.{get, set}
use prime_system.Base.Sorting.{sort}
use prime_system.ConstraintSolver.Semantics.{Traversal, transitive, RelationSemantics}
use prime_system.ConstraintSolver.Constraints.{SoftPreference}
use prime_system.ConstraintSolver.Blockers.{PrincipalView, ActiveSet}
use prime_system.ConstraintSolver.Closure.{Expansion}
use prime_system.ConstraintSolver.Order.{LoadPlanner}
use prime_system.ConstraintSolver.Evaluate.{Blocker, ClosureOutcome, evaluate}
use prime_system.ConstraintSolver.Solve.Candidates.{
  total_cost, Rejection, RejectionReason, blocked_by, budget_exhausted,
}

-- The variables of the loop.
pub record Selecting : Type 0 where
  pub selected : List String
  pub support : List (String × List String)
  pub reasons : List (String × String)
  pub expansions : List Expansion
  pub consumed : ℕ
  pub arrived_via : List (String × List String)
  pub decided : List String
  pub rejections : List Rejection
  pub accepted : List (String × ℕ)

-- By weight, the greatest first, then by target, then by ref.
unfoldable pub preference_lt : SoftPreference → SoftPreference → Bool
preference_lt a b =
    ltb b.weight a.weight
    || eqb a.weight b.weight
      && (str_lt a.target b.target || a.target == b.target && str_lt a.ref b.ref)

-- `maxHops(traversal) > 1`
abbrev pub hops_on : Traversal → Bool
hops_on transitive = true
hops_on _ = false

abbrev pub arrived : List (String × List String) → String → String → Bool
arrived via unit_id relation_ref = elim (get unit_id via) [
  | none ↦ false
  | some relations ↦ includes relations relation_ref
]

abbrev may_fire : Option RelationSemantics → Bool → Bool
may_fire none arrived_by_it = false
may_fire (some view) arrived_by_it = hops_on view.traversal || not arrived_by_it

-- `available`
unfoldable pub is_available : List (String × RelationSemantics) → Selecting → SoftPreference → Bool
is_available semantics st preference = elim preference.subject [
  | none ↦ true
  | some subject ↦
      if includes st.selected subject
      then elim preference.relation_ref [
        | none ↦ true
        | some relation_ref ↦
            may_fire (get relation_ref semantics) (arrived st.arrived_via subject relation_ref)
      ]
      else false
]

abbrev first_ref : List String → Option String
first_ref [] = none
first_ref (r ∷ rs) = some r

abbrev pub fits : Option ℕ → ℕ → Bool
fits none total = true
fits (some max_tokens) total = leb total max_tokens

-- `support.set(unitId, ...)` for each addition.
abbrev pub add_support :
    List String
    → List (String × List String)
    → List (String × List String)
    → List (String × List String)
add_support [] from support = support
add_support (unit_id ∷ more) from support =
    add_support more from
      (set unit_id (elim (get unit_id from) [ none ↦ [] | some refs ↦ refs ]) support)

abbrev pub add_reasons : String → List String → List (String × String) → List (String × String)
add_reasons target [] reasons = reasons
add_reasons target (unit_id ∷ more) reasons =
    let fresh =
      set unit_id (if unit_id == target then "soft-preference" else "hard-requirement") reasons in
    add_reasons target more (elim (get unit_id reasons) [ none ↦ fresh | some r ↦ reasons ])

abbrev pub same_expansion : Expansion → Expansion → Bool
same_expansion a b = a.relation_ref == b.relation_ref && a.from == b.from && eqb a.depth b.depth

abbrev pub add_expansions : List Expansion → List Expansion → List Expansion
add_expansions [] done = done
add_expansions (e ∷ es) done =
    add_expansions es (if any (same_expansion e) done then done else done ++ e ∷ [])

abbrev pub note_arrival :
    Option String → String → List (String × List String) → List (String × List String)
note_arrival none target via = via
note_arrival (some relation_ref) target via =
    set target
      ((elim (get target via) [ none ↦ [] | some relations ↦ relations ]) ++ relation_ref ∷ []) via

module _ (planner : LoadPlanner) (active : ActiveSet) (universe : List String)
    (principal : Option PrincipalView) (costs : List (String × Option ℕ)) (max_tokens : Option ℕ)
    (semantics : List (String × RelationSemantics)) where
  abbrev pub additions_of : Selecting → ClosureOutcome → List String
  additions_of st trial = filter (λ unit_id. not (includes st.selected unit_id)) trial.included

  abbrev reject : SoftPreference → RejectionReason → Selecting → Selecting
  reject next reason st = record st {
    rejections =
        st.rejections
        ++ record { unit_id = next.target; weight = next.weight; reason = reason } ∷ [];
  }

  abbrev accept : SoftPreference → ClosureOutcome → Selecting → Selecting
  accept next trial st = record st {
    selected = st.selected ++ additions_of st trial;
    support = add_support (additions_of st trial) trial.support st.support;
    reasons = add_reasons next.target (additions_of st trial) st.reasons;
    arrived_via = note_arrival next.relation_ref next.target st.arrived_via;
    accepted = set next.target next.weight st.accepted;
    consumed = st.consumed + total_cost costs (additions_of st trial);
    expansions = add_expansions trial.expansions st.expansions;
  }

  -- What a trial leads to.
  unfoldable pub weigh : SoftPreference → ClosureOutcome → Option Blocker → Selecting → Selecting
  weigh next trial (some blocker) st =
      reject next (blocked_by blocker.kind (first_ref blocker.refs)) st
  weigh next trial none st =
      if fits max_tokens (st.consumed + total_cost costs (additions_of st trial))
      then accept next trial st
      else reject next budget_exhausted st

  -- One round: the preference is decided, and tried unless its target is selected already.
  unfoldable pub decide : SoftPreference → Selecting → Selecting
  decide next st =
      let st' = record st { decided = next.ref ∷ st.decided } in
      let trial =
        evaluate planner active universe principal
          (sort str_lt (st.selected ++ next.target ∷ [])) in
      if includes st.selected next.target then st' else weigh next trial trial.blocker st'

  abbrev pub is_open : Selecting → SoftPreference → Bool
  is_open st preference =
      not (includes st.decided preference.ref) && is_available semantics st preference

  -- The loop; `none` is fuel that ran out.
  unfoldable pub select_from : ℕ → List SoftPreference → Selecting → Option Selecting
  select_from zero pool st = none
  select_from (suc fuel) pool st = elim (find (is_open st) pool) [
    | none ↦ some st
    | some next ↦ select_from fuel pool (decide next st)
  ]

  -- Each round decides a preference of the pool that was not decided before.
  unfoldable pub select_all : List SoftPreference → Selecting → Option Selecting
  unfolding select_from
  select_all pool st = select_from (suc (length pool)) pool st
