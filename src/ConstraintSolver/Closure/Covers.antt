-- ===== src/ConstraintSolver/Closure/Covers.antt =====
-- One round of closeOver, packages/constraint-solver/src/solve.ts.
use prime_system.Base.{
  String, ◌≡◌, refl, eq_refl, ◌∙◌, Bool, true, not, ◌&&◌, ◌||◌, List, [], ◌∷◌, ◌++◌, arith,
  includes, every, if-holds, ◌==◌,
}
use prime_system.ConstraintSolver.Constraints.{HardRequirement}
use prime_system.ConstraintSolver.Closure.{
  Walk, Found, Round, found, stopped, Origin, names_of, note, fires, visit_requirements,
  visit_frontier,
}

-- The discovered units of `f` are among those of `g`.
abbrev pub Extends : Found → Found → Type 0
Extends f g =
    (a : String)
    → includes (names_of f.discovered) a ≡ true
    → includes (names_of g.discovered) a ≡ true

names-snoc :
    (xs : List (String × Origin)) (b : String) (o : Origin) (a : String)
    → includes (names_of (xs ++ (b, o) ∷ [])) a ≡ (includes (names_of xs) a || b == a)
names-snoc [] b o a = ground arith
names-snoc (x ∷ xs) b o a = ground (arith, names-snoc xs b o a)

module _ (universe : List String) (w : Walk) where
  -- If the requirement fires from this unit, its target is in the graph, and included or found.
  abbrev pub covers : Found → String → HardRequirement → Bool
  covers g subject r =
      not (r.subject == subject && fires w r subject)
      || includes universe r.target
        && (includes w.included r.target || includes (names_of g.discovered) r.target)

  abbrev Covers : String → List HardRequirement → Found → Round → Type 0
  Covers subject rs f (found g) = (every (covers g subject) rs ≡ true) × Extends f g
  Covers subject rs f (stopped g m) = Unit

  cover_one :
      (subject : String) (r : HardRequirement) (rs : List HardRequirement) (f g : Found)
      (round : Round)
      → Extends f g
      → ((h : Found) → Extends g h → covers h subject r ≡ true)
      → Covers subject rs g round
      → Covers subject (r ∷ rs) f round
  cover_one subject r rs f g (found h) e k (all, more) =
      (ground (arith, all, k h more), λ a i. more a (e a i))
  cover_one subject r rs f g (stopped h m) e k u = tt

  visit_requirements-Covers :
      (subject : String) (rs : List HardRequirement) (f : Found)
      → Covers subject rs f (visit_requirements universe w subject rs f)
  unfolding visit_requirements
  visit_requirements-Covers subject [] f = (refl, λ a i. i)
  visit_requirements-Covers subject (r ∷ rs) f =
      if-holds (Covers subject (r ∷ rs) f) (not (r.subject == subject) || not (fires w r subject)) _
        _
        (λ k.
          cover_one subject r rs f f _ (λ a i. i) (λ h e. ground (arith, k))
            (visit_requirements-Covers subject rs f))
        (λ k.
          if-holds (Covers subject (r ∷ rs) f) (not (includes universe r.target)) _ _ (λ k1. tt)
            (λ k1.
              if-holds (Covers subject (r ∷ rs) f)
                (includes w.included r.target || includes (names_of f.discovered) r.target) _ _
                (λ k2.
                  cover_one subject r rs f f _ (λ a i. i)
                    (λ h e. ground (arith, k1, k2, e r.target))
                    (visit_requirements-Covers subject rs f))
                (λ k2.
                  cover_one subject r rs f (note w subject r f) _
                    (λ a i. names-snoc f.discovered r.target _ a ∙ ground (arith, i))
                    (λ h e. ground (
                      arith,
                      k1,
                      e r.target (
                          names-snoc f.discovered r.target _ r.target
                          ∙ ground (arith, eq_refl r.target)),
                    ))
                    (visit_requirements-Covers subject rs (note w subject r f)))))

  every-Extends :
      (subject : String) (rs : List HardRequirement) (f g : Found)
      → Extends f g
      → every (covers f subject) rs ≡ true
      → every (covers g subject) rs ≡ true
  every-Extends subject [] f g e h = refl
  every-Extends subject (r ∷ rs) f g e h =
      ground (arith, every-Extends subject rs f g e, e r.target, h)

  -- The same for all the units of the frontier.
  abbrev pub CoversAll : List String → List HardRequirement → Found → Round → Type 0
  CoversAll subjects rs f (found g) =
      (every (λ subject. every (covers g subject) rs) subjects ≡ true) × Extends f g
  CoversAll subjects rs f (stopped g m) = Unit

  cover_all :
      (subject : String) (subjects : List String) (rs : List HardRequirement) (f g : Found)
      (round : Round)
      → every (covers g subject) rs ≡ true
      → Extends f g
      → CoversAll subjects rs g round
      → CoversAll (subject ∷ subjects) rs f round
  cover_all subject subjects rs f g (found h) all e (rest, more) =
      (ground (arith, rest, every-Extends subject rs g h more all), λ a i. more a (e a i))
  cover_all subject subjects rs f g (stopped h m) all e u = tt

  cover_next :
      (subject : String) (subjects : List String) (rs : List HardRequirement) (f : Found)
      (round : Round) (next : Found → Round)
      → Covers subject rs f round
      → ((g : Found) → CoversAll subjects rs g (next g))
      → CoversAll
          (subject ∷ subjects)
          rs
          f
          (elim round [ found g ↦ next g | stopped g m ↦ stopped g m ])
  cover_next subject subjects rs f (found g) next (all, e) k =
      cover_all subject subjects rs f g (next g) all e (k g)
  cover_next subject subjects rs f (stopped g m) next u k = tt

  pub visit_frontier-CoversAll :
      (subjects : List String) (rs : List HardRequirement) (f : Found)
      → CoversAll subjects rs f (visit_frontier universe rs w subjects f)
  unfolding visit_frontier
  visit_frontier-CoversAll [] rs f = (refl, λ a i. i)
  visit_frontier-CoversAll (subject ∷ subjects) rs f =
      cover_next subject subjects rs f (visit_requirements universe w subject rs f)
        (λ g. visit_frontier universe rs w subjects g) (visit_requirements-Covers subject rs f)
        (λ g. visit_frontier-CoversAll subjects rs g)
