-- ===== src/ConstraintSolver/Solve/Loop/Ends.antt =====
-- The rounds of the loop over the soft preferences, in `solve` of
-- packages/constraint-solver/src/solve.ts.
use prime_system.Base.{
  ℕ, zero, suc, ◌+◌, ◌<◌, String, string_eq, ◌≡◌, refl, eq_refl, inl, inr, arith, Bool, List, ◌∷◌,
  Option, none, some, includes, find, map, length-map, length, Option-cases, if-holds,
}
use prime_system.ConstraintSolver.Semantics.{RelationSemantics}
use prime_system.ConstraintSolver.Constraints.{SoftPreference}
use prime_system.ConstraintSolver.Blockers.{PrincipalView, ActiveSet}
use prime_system.ConstraintSolver.Closure.Laws.{outside, outside-<, outside-length}
use prime_system.ConstraintSolver.Order.{LoadPlanner}
use prime_system.ConstraintSolver.Evaluate.{Blocker, ClosureOutcome}
use prime_system.ConstraintSolver.Solve.Candidates.{total_cost}
use prime_system.ConstraintSolver.Solve.Loop.{
  Selecting, additions_of, fits, weigh, decide, is_open, select_from, select_all,
}
use prime_system.ConstraintSolver.Solve.Loop.Laws.{Kept, decide-Kept, find-open}

module _ (planner : LoadPlanner) (active : ActiveSet) (universe : List String)
    (principal : Option PrincipalView) (costs : List (String × Option ℕ)) (max_tokens : Option ℕ)
    (semantics : List (String × RelationSemantics)) where
  weigh-decided :
      (st : Selecting) (next : SoftPreference) (trial : ClosureOutcome) (b : Option Blocker)
      → (weigh planner active universe principal costs max_tokens semantics next trial b st).decided
        ≡ st.decided
  unfolding weigh
  weigh-decided st next trial (some b) = refl
  weigh-decided st next trial none =
      if-holds (λ (s : Selecting). s.decided ≡ st.decided)
        (fits max_tokens (
          st.consumed
          + total_cost costs
              (additions_of planner active universe principal costs max_tokens semantics st trial)))
        _ _ (λ h. refl) (λ h. refl)

  decide-decided :
      (st : Selecting) (next : SoftPreference)
      → (decide planner active universe principal costs max_tokens semantics next st).decided
        ≡ next.ref ∷ st.decided
  unfolding decide
  decide-decided st next =
      if-holds (λ (s : Selecting). s.decided ≡ next.ref ∷ st.decided)
        (includes st.selected next.target) _ _ (λ h. refl) (λ h. weigh-decided _ next _ _)

  abbrev open_in : Selecting → SoftPreference → Bool
  open_in = is_open planner active universe principal costs max_tokens semantics

  abbrev run_from : ℕ → List SoftPreference → Selecting → Option Selecting
  run_from = select_from planner active universe principal costs max_tokens semantics

  abbrev step : SoftPreference → Selecting → Selecting
  step = decide planner active universe principal costs max_tokens semantics

  abbrev undecided : List SoftPreference → Selecting → ℕ
  undecided pool st = outside st.decided (map SoftPreference.ref pool)

  undecided-decide :
      (pool : List SoftPreference) (st : Selecting) (next : SoftPreference)
      → find (open_in st) pool ≡ some next
      → undecided pool (step next st) < undecided pool st
  undecided-decide pool st next h =
      let (opened, mentioned) = find-open (open_in st) pool next h in
      rw (decide-decided st next) (
        outside-< st.decided (next.ref ∷ st.decided) (map SoftPreference.ref pool) next.ref
          (λ u i. ground (arith, i)) mentioned (ground (arith, opened))
          (ground (arith, eq_refl next.ref)))

  -- The result, with what the loop keeps.
  Ends : Selecting → Option Selecting → Type 0
  Ends base o =
      (st : Selecting) × (o ≡ some st)
      × Kept planner active universe principal costs max_tokens semantics base st

  select_from-Ends :
      (fuel : ℕ) (pool : List SoftPreference) (base st : Selecting)
      → undecided pool st < fuel
      → Kept planner active universe principal costs max_tokens semantics base st
      → Ends base (run_from fuel pool st)
  unfolding select_from Ends
  select_from-Ends zero pool base st h k = absurd (omega arith)
  select_from-Ends (suc fuel) pool base st h k = elim (Option-cases (find (open_in st) pool)) [
    | inl e ↦ (st, rw (e, select_from), k)
    | inr (next, e) ↦
        rw (e, select_from)
          (select_from-Ends fuel pool base (step next st)
            (omega (arith, undecided-decide pool st next e))
            (decide-Kept planner active universe principal costs max_tokens semantics base st next
              k))
  ]

  pub select_all-Kept :
      (pool : List SoftPreference) (base : Selecting)
      → Kept planner active universe principal costs max_tokens semantics base base
      → (st : Selecting) × (select_all planner active universe principal costs max_tokens semantics
            pool base
          ≡ some st)
        × Kept planner active universe principal costs max_tokens semantics base st
  unfolding select_all Ends
  select_all-Kept pool base k =
      select_from-Ends (suc (length pool)) pool base base
        (omega (
          arith,
          outside-length base.decided (map SoftPreference.ref pool),
          length-map SoftPreference.ref pool,
        ))
        k
