-- ===== src/ConstraintSolver/Solve/Loop/Laws.antt =====
-- The selection that the loop over the soft preferences keeps, in `solve` of
-- packages/constraint-solver/src/solve.ts.
use prime_system.Base.{
  ℕ, ◌+◌, String, string_eq, ◌≡◌, refl, eq_refl, sym, ap, ◌∙◌, ◌⊎◌, inl, inr, arith, Bool, true,
  not, List, [], ◌∷◌, ◌++◌, Option, none, some, includes, find, map, str_lt, includes-append,
  includes-filter, includes-sort, Bool-cases, if-holds,
}
use mathlib.Core.Path.{subst, fun_ext}
use prime_system.Base.Sorting.{sort}
use prime_system.ConstraintSolver.Semantics.{RelationSemantics}
use prime_system.ConstraintSolver.Constraints.{SoftPreference}
use prime_system.ConstraintSolver.Blockers.{PrincipalView, ActiveSet}
use prime_system.ConstraintSolver.Order.{LoadPlanner}
use prime_system.ConstraintSolver.Evaluate.{Blocker, ClosureOutcome, evaluate}
use prime_system.ConstraintSolver.Evaluate.Laws.{Respects, evaluate-Holds}
use prime_system.ConstraintSolver.Solve.Candidates.{total_cost}
use prime_system.ConstraintSolver.Solve.Loop.{Selecting, additions_of, accept, fits, weigh, decide}

pub total_cost-append :
    (costs : List (String × Option ℕ)) (xs ys : List String)
    → total_cost costs (xs ++ ys) ≡ total_cost costs xs + total_cost costs ys
unfolding total_cost
total_cost-append costs [] ys = omega arith
total_cost-append costs (x ∷ xs) ys = omega (arith, total_cost-append costs xs ys)

pub find-open :
    (p : SoftPreference → Bool) (pool : List SoftPreference) (next : SoftPreference)
    → find p pool ≡ some next
    → (p next ≡ true) × (includes (map SoftPreference.ref pool) next.ref ≡ true)
find-open p [] next h = ground (arith, h)
find-open p (x ∷ pool) next h = elim (Bool-cases (p x)) [
  | inl e ↦ ground (arith, h, e, eq_refl x.ref)
  | inr e ↦ ground (arith, find-open p pool next, h, e)
]

module _ (planner : LoadPlanner) (active : ActiveSet) (universe : List String)
    (principal : Option PrincipalView) (costs : List (String × Option ℕ)) (max_tokens : Option ℕ)
    (semantics : List (String × RelationSemantics)) where
  -- What the loop keeps true of its variables, from the base that it starts with.
  pub record Kept (base st : Selecting) : Type 0 where
    pub respects : Respects active universe principal (includes st.selected)
    pub keeps : (a : String) → includes base.selected a ≡ true → includes st.selected a ≡ true
    pub spent : (st.consumed ≡ base.consumed) ⊎ (fits max_tokens st.consumed ≡ true)
    pub summed : st.consumed ≡ total_cost costs st.selected

  abbrev additions : Selecting → ClosureOutcome → List String
  additions = additions_of planner active universe principal costs max_tokens semantics

  includes-accepted :
      (st : Selecting) (trial : ClosureOutcome) (a : String)
      → (includes st.selected a ≡ true → includes trial.included a ≡ true)
      → includes (st.selected ++ additions st trial) a ≡ includes trial.included a
  includes-accepted st trial a h =
      includes-append st.selected (additions st trial) a
      ∙ ground (arith, includes-filter (λ u. not (includes st.selected u)) trial.included a, h)

  accept-Kept :
      (base st : Selecting) (next : SoftPreference) (trial : ClosureOutcome)
      → ((a : String) → includes st.selected a ≡ true → includes trial.included a ≡ true)
      → Respects active universe principal (includes trial.included)
      → fits max_tokens (st.consumed + total_cost costs (additions st trial)) ≡ true
      → Kept base st
      → Kept base
          (accept planner active universe principal costs max_tokens semantics next trial st)
  accept-Kept base st next trial grows respects affordable k = record {
    respects =
        subst (Respects active universe principal)
          (sym (fun_ext (λ a. includes-accepted st trial a (grows a)))) respects;
    keeps = λ a h. includes-accepted st trial a (grows a) ∙ grows a (k.keeps a h);
    spent = inr affordable;
    summed =
        ap (λ n. n + total_cost costs (additions st trial)) k.summed
        ∙ sym (total_cost-append costs st.selected (additions st trial));
  }

  same-Kept :
      (base st st' : Selecting)
      → st'.selected ≡ st.selected
      → st'.consumed ≡ st.consumed
      → Kept base st
      → Kept base st'
  same-Kept base st st' e c k = record {
    respects = subst (λ l. Respects active universe principal (includes l)) (sym e) k.respects;
    keeps = λ a h. ap (λ l. includes l a) e ∙ k.keeps a h;
    spent = rw c k.spent;
    summed = c ∙ k.summed ∙ ap (total_cost costs) (sym e);
  }

  weigh-Kept :
      (base st : Selecting) (next : SoftPreference) (trial : ClosureOutcome) (b : Option Blocker)
      → ((a : String) → includes st.selected a ≡ true → includes trial.included a ≡ true)
      → (b ≡ none → Respects active universe principal (includes trial.included))
      → Kept base st
      → Kept base
          (weigh planner active universe principal costs max_tokens semantics next trial b st)
  unfolding weigh
  weigh-Kept base st next trial (some b) grows respects k = same-Kept base st _ refl refl k
  weigh-Kept base st next trial none grows respects k =
      if-holds (Kept base) (fits max_tokens (st.consumed + total_cost costs (additions st trial))) _
        _ (λ h. accept-Kept base st next trial grows (respects refl) h k)
        (λ h. same-Kept base st _ refl refl k)

  pub decide-Kept :
      (base st : Selecting) (next : SoftPreference)
      → Kept base st
      → Kept base (decide planner active universe principal costs max_tokens semantics next st)
  unfolding decide
  decide-Kept base st next k =
      let seeds = sort str_lt (st.selected ++ next.target ∷ []) in
      let st' : Selecting = record st { decided = next.ref ∷ st.decided } in
      let k' : Kept base st' = same-Kept base st st' refl refl k in
      let held = evaluate-Holds planner active universe principal seeds in
      if-holds (Kept base) (includes st.selected next.target) _ _ (λ h. k')
        (λ h.
          weigh-Kept base st' next (evaluate planner active universe principal seeds) _
            (λ a i. held.keeps a (
              includes-sort str_lt (st.selected ++ next.target ∷ []) a
              ∙ includes-append st.selected (next.target ∷ []) a
              ∙ ground (arith, i)))
            held.respects k')
