-- ===== src/ConstraintSolver/Evaluate/Laws.antt =====
-- evaluate of packages/constraint-solver/src/solve.ts where it finds no blocker.
use prime_system.Base.{
  String, ◌≡◌, refl, sym, arith, Bool, true, false, not, ◌&&◌, ◌||◌, List, Option, none, some,
  includes, In,
}
use mathlib.Core.Path.{subst}
use prime_system.ConstraintSolver.Constraints.{HardRequirement, HardProhibition, RuntimePolicy}
use prime_system.ConstraintSolver.Closure.{Walk, Closed, closed, missing_target}
use prime_system.ConstraintSolver.Closure.Outcome.{Promise, is_transitive, close_over-Promise}
use prime_system.ConstraintSolver.Blockers.{PrincipalView, ActiveSet, permits}
use prime_system.ConstraintSolver.Blockers.Laws.{unblocked_selection}
use prime_system.ConstraintSolver.Order.{LoadPlanner}
use prime_system.ConstraintSolver.Evaluate.{
  Blocker, closure_of, or_start, prohibition_of, denial_of, blocker_of, outcome_of, evaluate,
  ClosureOutcome,
}

pub closure_of-Promise :
    (seeds universe : List String) (rs : List HardRequirement)
    → Promise seeds universe rs (closure_of seeds rs universe)
unfolding closure_of
closure_of-Promise seeds universe rs =
    let (c, e, p) = close_over-Promise seeds universe rs in
    subst (λ o. Promise seeds universe rs (or_start seeds o)) (sym e) p

-- A set of units, by its test, that keeps the hard constraints.
pub record Respects (active : ActiveSet) (universe : List String) (principal : Option PrincipalView)
    (chosen : String → Bool) : Type 0 where
  pub requirements :
      (r : HardRequirement)
      → In r active.hard_requirements
      → (not (is_transitive r.traversal)
          || not (chosen r.subject)
          || includes universe r.target && chosen r.target)
        ≡ true
  pub prohibitions :
      (p : HardProhibition)
      → In p active.hard_prohibitions
      → (chosen p.left && chosen p.right) ≡ false
  pub policies :
      (p : RuntimePolicy)
      → In p active.runtime_policies
      → chosen p.target ≡ true
      → permits principal p ≡ true

prohibition_of-none :
    (w : Walk) (o : Option HardProhibition) (later : Option Blocker)
    → prohibition_of w o later ≡ none
    → (o ≡ none) × (later ≡ none)
prohibition_of-none w none later h = (refl, h)
prohibition_of-none w (some p) later h = ground (arith, h)

denial_of-none :
    (w : Walk) (o : Option RuntimePolicy) (later : Option Blocker)
    → denial_of w o later ≡ none
    → (o ≡ none) × (later ≡ none)
denial_of-none w none later h = (refl, h)
denial_of-none w (some p) later h = ground (arith, h)

module _ (planner : LoadPlanner) (active : ActiveSet) (universe : List String)
    (principal : Option PrincipalView) where
  -- What an evaluation holds its outcome to.
  pub record Holds (seeds : List String) (o : ClosureOutcome) : Type 0 where
    pub keeps : (a : String) → includes seeds a ≡ true → includes o.included a ≡ true
    pub within :
        (a : String)
        → includes o.included a ≡ true
        → (includes seeds a || includes universe a) ≡ true
    pub respects : o.blocker ≡ none → Respects active universe principal (includes o.included)

  outcome_of-Holds :
      (seeds : List String) (c : Closed)
      → Promise seeds universe active.hard_requirements c
      → Holds seeds (outcome_of planner active universe principal c)
  unfolding outcome_of Promise blocker_of
  outcome_of-Holds seeds (missing_target w m) (sound, absent) = record {
    keeps = sound.keeps;
    within = sound.within;
    respects = λ h. ground (arith, h);
  }
  outcome_of-Holds seeds (closed w) (sound, met) = record {
    keeps = sound.keeps;
    within = sound.within;
    respects = λ h.
        let (no_hit, rest) = prohibition_of-none w _ _ h in
        let (no_denial, later) = denial_of-none w _ _ rest in
        let (apart, permitted) =
          unblocked_selection active.hard_prohibitions active.runtime_policies w.included principal
            no_hit no_denial in
        record { requirements = met; prohibitions = apart; policies = permitted };
  }

  pub evaluate-Holds :
      (seeds : List String) → Holds seeds (evaluate planner active universe principal seeds)
  unfolding evaluate
  evaluate-Holds seeds =
      outcome_of-Holds seeds _ (closure_of-Promise seeds universe active.hard_requirements)
