-- ===== src/ConstraintSolver/Core/Laws.antt =====
-- minimiseCore of packages/constraint-solver/src/solve.ts.
use prime_system.Base.{
  String, ◌≡◌, refl, eq_refl, ap, ◌∙◌, some, none, map, includes-append, arith, Bool, true, ◌||◌,
  List, [], ◌∷◌, Option, includes, includes-sort, unique, str_lt, if-holds,
}
use prime_system.Base.Sorting.{sort}
use mathlib.Core.List.{map-append}
use prime_system.ConstraintSolver.Constraints.{
  ConstraintSet, HardRequirement, HardProhibition, RuntimePolicy, OrderingObligation,
}
use prime_system.ConstraintSolver.Blockers.{PrincipalView, keep, restrict}
use prime_system.ConstraintSolver.Order.{LoadPlanner}
use prime_system.ConstraintSolver.Evaluate.{evaluate}
use prime_system.ConstraintSolver.Core.{
  CoreEntry, ConstraintKind, hard_requirement, hard_prohibition, runtime_policy, ordering, entry,
  all_entries, is_blocked, unsat_with, without, shrink, everything, minimise_core,
}

-- A list whose refs are all allowed is kept whole.
keep-all :
    {A : Type 0} (ref : A → String) (allowed : List String) (items : List A)
    → ((a : String) → includes (map ref items) a ≡ true → includes allowed a ≡ true)
    → keep ref (some allowed) items ≡ items
keep-all ref allowed [] h = refl
keep-all ref allowed (x ∷ items) h =
    rw (h (ref x) (ground (arith, eq_refl (ref x))))
      (ap (λ l. x ∷ l) (keep-all ref allowed items (λ a i. h a (ground (arith, i)))))

refs_of-entries :
    {A : Type 0} (kind : ConstraintKind) (ref : A → String) (items : List A)
    → map CoreEntry.ref (map (λ x. entry kind (ref x)) items) ≡ map ref items
refs_of-entries kind ref [] = refl
refs_of-entries kind ref (x ∷ items) = ap (λ l. ref x ∷ l) (refs_of-entries kind ref items)

includes-entries :
    (set : ConstraintSet) (a : String)
    → includes (map CoreEntry.ref (all_entries set)) a ≡ (
        includes (map HardRequirement.ref set.hard_requirements) a
        || (includes (map HardProhibition.ref set.hard_prohibitions) a
            || (includes (map RuntimePolicy.ref set.runtime_policies) a
                || includes (map OrderingObligation.ref set.orderings) a)))
unfolding all_entries
includes-entries set a =
    rw
      (
        map-append,
        map-append,
        map-append,
        refs_of-entries hard_requirement HardRequirement.ref set.hard_requirements,
        refs_of-entries hard_prohibition HardProhibition.ref set.hard_prohibitions,
        refs_of-entries runtime_policy RuntimePolicy.ref set.runtime_policies,
        refs_of-entries ordering OrderingObligation.ref set.orderings,
        includes-append (map HardRequirement.ref set.hard_requirements) _ a,
        includes-append (map HardProhibition.ref set.hard_prohibitions) _ a,
        includes-append (map RuntimePolicy.ref set.runtime_policies) _ a,
      )
      refl

includes-everything :
    (set : ConstraintSet) (a : String)
    → includes (everything set) a ≡ includes (map CoreEntry.ref (all_entries set)) a
unfolding everything
includes-everything set a = includes-sort str_lt (map CoreEntry.ref (all_entries set)) a

restrict-everything :
    (set : ConstraintSet) → restrict set (some (everything set)) ≡ restrict set none
unfolding restrict
restrict-everything set =
    rw
      (
        keep-all HardRequirement.ref (everything set) set.hard_requirements
            (λ a i. includes-everything set a ∙ includes-entries set a ∙ ground (arith, i)),
        keep-all HardProhibition.ref (everything set) set.hard_prohibitions
            (λ a i. includes-everything set a ∙ includes-entries set a ∙ ground (arith, i)),
        keep-all RuntimePolicy.ref (everything set) set.runtime_policies
            (λ a i. includes-everything set a ∙ includes-entries set a ∙ ground (arith, i)),
        keep-all OrderingObligation.ref (everything set) set.orderings
            (λ a i. includes-everything set a ∙ includes-entries set a ∙ ground (arith, i)),
      )
      refl

shrink-unsat :
    (unsat : List String → Bool) (refs core : List String)
    → unsat core ≡ true
    → unsat (shrink unsat refs core) ≡ true
unfolding shrink
shrink-unsat unsat [] core h = h
shrink-unsat unsat (ref ∷ refs) core h =
    shrink-unsat unsat refs _
      (if-holds (λ c. unsat c ≡ true) (unsat (without ref core)) _ _ (λ k. k) (λ k. h))

module _ (planner : LoadPlanner) (set : ConstraintSet) (seeds universe : List String)
    (principal : Option PrincipalView) where
  abbrev unsat : List String → Bool
  unsat = unsat_with planner set seeds universe principal

  everything-unsat :
      is_blocked (evaluate planner (restrict set none) universe principal seeds).blocker ≡ true
      → unsat (everything set) ≡ true
  unfolding unsat_with
  everything-unsat h = rw (restrict-everything set) h

  -- Where the whole problem is blocked, the core that is returned is blocked by itself, whatever
  -- refs the search started from.
  pub unsat-minimise_core :
      (candidate : List String)
      → is_blocked (evaluate planner (restrict set none) universe principal seeds).blocker ≡ true
      → unsat (minimise_core planner set seeds universe principal candidate) ≡ true
  unfolding minimise_core
  unsat-minimise_core candidate h =
      let core = sort str_lt (unique candidate) in
      if-holds (λ c. unsat c ≡ true) (unsat core) _ _ (λ k. shrink-unsat unsat core core k)
        (λ k.
          if-holds (λ c. unsat c ≡ true) (unsat (everything set)) _ _
            (λ e. shrink-unsat unsat (everything set) (everything set) e)
            (λ e. ground (arith, e, everything-unsat h)))
