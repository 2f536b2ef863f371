-- ===== src/ConstraintSolver/Closure/Laws.antt =====
-- The rounds of closeOver, packages/constraint-solver/src/solve.ts.
use prime_system.Base.{
  ℕ, zero, suc, ◌+◌, ◌≤◌, ◌<◌, String, ◌≡◌, refl, eq_refl, ap, ◌∙◌, inl, inr, ◌⊎◌, Bool, true,
  false, not, ◌&&◌, ◌||◌, List, [], ◌∷◌, ◌++◌, some, if◌then◌else◌, arith, includes, every, length,
  if-holds, Bool-cases, str_lt, includes-append, includes-sort, eq_iff, ◌==◌,
}
use mathlib.Core.Path.{subst}
use prime_system.Base.Sorting.{sort}
use prime_system.ConstraintSolver.Constraints.{HardRequirement}
use prime_system.ConstraintSolver.Closure.{
  Walk, Found, Round, found, stopped, Origin, Closed, closed, Missing, missing_target, names_of,
  fires, visit_requirements, visit_frontier, advance, close_from, close_over, start, requirement_lt,
  sorted, is_empty,
}

-- A unit of the graph that is not included yet.
abbrev pub is_fresh : List String → Walk → String → Bool
is_fresh universe w a = includes universe a && not (includes w.included a)

abbrev pub FoundFresh : List String → Walk → Round → Type 0
FoundFresh universe w (found f) = every (is_fresh universe w) (names_of f.discovered) ≡ true
FoundFresh universe w (stopped f m) = includes universe m.requirement.target ≡ false

every-names :
    (p : String → Bool) (xs : List (String × Origin)) (a : String) (o : Origin)
    → every p (names_of (xs ++ (a, o) ∷ [])) ≡ (every p (names_of xs) && p a)
every-names p [] a o = ground arith
every-names p (x ∷ xs) a o = ground (arith, every-names p xs a o)

visit_requirements-fresh :
    (universe : List String) (w : Walk) (subject : String) (rs : List HardRequirement) (f : Found)
    → every (is_fresh universe w) (names_of f.discovered) ≡ true
    → FoundFresh universe w (visit_requirements universe w subject rs f)
unfolding visit_requirements
visit_requirements-fresh universe w subject [] f h = h
visit_requirements-fresh universe w subject (r ∷ rs) f h =
    if-holds (FoundFresh universe w) (not (r.subject == subject) || not (fires w r subject)) _ _
      (λ k. visit_requirements-fresh universe w subject rs f h)
      (λ k.
        if-holds (FoundFresh universe w) (not (includes universe r.target)) _ _
          (λ k1. ground (arith, k1))
          (λ k1.
            if-holds (FoundFresh universe w)
              (includes w.included r.target || includes (names_of f.discovered) r.target) _ _
              (λ k2. visit_requirements-fresh universe w subject rs f h)
              (λ k2. visit_requirements-fresh universe w subject rs _ (
                every-names (is_fresh universe w) f.discovered r.target _
                ∙ ground (arith, h, k1, k2)))))

then-fresh :
    (universe : List String) (w : Walk) (round : Round) (next : Found → Round)
    → FoundFresh universe w round
    → ((g : Found)
        → every (is_fresh universe w) (names_of g.discovered) ≡ true
        → FoundFresh universe w (next g))
    → FoundFresh universe w (elim round [ found g ↦ next g | stopped g m ↦ stopped g m ])
then-fresh universe w (found g) next h k = k g h
then-fresh universe w (stopped g m) next h k = h

pub visit_frontier-fresh :
    (universe : List String) (rs : List HardRequirement) (w : Walk) (subjects : List String)
    (f : Found)
    → every (is_fresh universe w) (names_of f.discovered) ≡ true
    → FoundFresh universe w (visit_frontier universe rs w subjects f)
unfolding visit_frontier
visit_frontier-fresh universe rs w [] f h = h
visit_frontier-fresh universe rs w (subject ∷ subjects) f h =
    then-fresh universe w (visit_requirements universe w subject rs f)
      (λ g. visit_frontier universe rs w subjects g)
      (visit_requirements-fresh universe w subject rs f h)
      (λ g k. visit_frontier-fresh universe rs w subjects g k)

-- How many units of the graph are not included.
abbrev pub outside : List String → List String → ℕ
outside included [] = 0
outside included (u ∷ us) = let n = outside included us in if includes included u then n else suc n

pub outside-≤ :
    (a b us : List String)
    → ((u : String) → includes a u ≡ true → includes b u ≡ true)
    → outside b us ≤ outside a us
outside-≤ a b [] h = ground arith
outside-≤ a b (u ∷ us) h = ground (arith, outside-≤ a b us h, h u)

pub outside-< :
    (a b us : List String) (x : String)
    → ((u : String) → includes a u ≡ true → includes b u ≡ true)
    → includes us x ≡ true
    → includes a x ≡ false
    → includes b x ≡ true
    → outside b us < outside a us
outside-< a b [] x h i j k = ground (arith, i)
outside-< a b (u ∷ us) x h i j k =
    ground
      (arith, outside-≤ a b us h, outside-< a b us x h, h u, i, j, k, eq_iff u x, ap (includes a) _)

pub outside-length : (a us : List String) → outside a us ≤ length us
outside-length a [] = ground arith
outside-length a (u ∷ us) = ground (arith, outside-length a us)

first-of :
    (p : String → Bool) (xs : List String)
    → is_empty (sort str_lt xs) ≡ false
    → every p xs ≡ true
    → (x : String) × (p x ≡ true) × (includes xs x ≡ true)
unfolding sort
first-of p [] h k = ground (arith, h)
first-of p (x ∷ xs) h k = (x, ground (arith, k), ground (arith, eq_refl x))

pub Round-cases :
    (round : Round)
    → ((f : Found) × (round ≡ found f)) ⊎ ((f : Found) × (m : Missing) × (round ≡ stopped f m))
Round-cases (found f) = inl (f, refl)
Round-cases (stopped f m) = inr (f, m, refl)

-- What one round does to the walk.
module _ (universe : List String) (rs : List HardRequirement) where
  abbrev pub nothing_yet : Walk → Found
  nothing_yet w = record { discovered = []; support = w.support }

  pub close_from-empty :
      (fuel : ℕ) (w : Walk)
      → is_empty w.frontier ≡ true
      → close_from (suc fuel) universe rs w ≡ some (closed (sorted w))
  unfolding close_from
  close_from-empty fuel w h = ground (arith, h)

  pub close_from-stopped :
      (fuel : ℕ) (w : Walk) (f : Found) (m : Missing)
      → is_empty w.frontier ≡ false
      → visit_frontier universe rs w w.frontier (nothing_yet w) ≡ stopped f m
      → close_from (suc fuel) universe rs w
        ≡ some (missing_target (sorted (record w { support = f.support })) m)
  unfolding close_from
  close_from-stopped fuel w f m h k = ground (arith, h, k)

  pub close_from-found :
      (fuel : ℕ) (w : Walk) (f : Found)
      → is_empty w.frontier ≡ false
      → visit_frontier universe rs w w.frontier (nothing_yet w) ≡ found f
      → close_from (suc fuel) universe rs w ≡ close_from fuel universe rs (advance w f)
  unfolding close_from
  close_from-found fuel w f h k = ground (arith, h, k)

  pub advance-included :
      (w : Walk) (f : Found) (a : String)
      → includes (advance w f).included a
        ≡ (includes w.included a || includes (names_of f.discovered) a)
  unfolding advance
  advance-included w f a =
      includes-append w.included (sort str_lt (names_of f.discovered)) a
      ∙ ap (λ b. includes w.included a || b) (includes-sort str_lt (names_of f.discovered) a)

  pub found-fresh :
      (w : Walk) (f : Found)
      → visit_frontier universe rs w w.frontier (nothing_yet w) ≡ found f
      → every (is_fresh universe w) (names_of f.discovered) ≡ true
  found-fresh w f k =
      subst (FoundFresh universe w) k
        (visit_frontier-fresh universe rs w w.frontier (nothing_yet w) refl)

  advance-outside :
      (w : Walk) (f : Found)
      → every (is_fresh universe w) (names_of f.discovered) ≡ true
      → is_empty (advance w f).frontier ≡ false
      → outside (advance w f).included universe < outside w.included universe
  unfolding advance
  advance-outside w f h k =
      let (x, fresh, mentioned) = first-of (is_fresh universe w) (names_of f.discovered) k h in
      outside-< w.included _ universe x (λ u i. advance-included w f u ∙ ground (arith, i))
        (ground (arith, fresh)) (ground (arith, fresh))
        (advance-included w f x ∙ ground (arith, mentioned))

  Ends : ℕ → Walk → Type 0
  Ends fuel w = (c : Closed) × (close_from fuel universe rs w ≡ some c)

  close_from-Ends :
      (fuel : ℕ) (w : Walk)
      → (1 ≤ fuel × (is_empty w.frontier ≡ true)) ⊎ (outside w.included universe + 2 ≤ fuel)
      → Ends fuel w
  unfolding Ends
  close_from-Ends zero w h = ground (arith, h)
  close_from-Ends (suc fuel) w h = elim (Bool-cases (is_empty w.frontier)) [
    | inl e ↦ (_, close_from-empty fuel w e)
    | inr e ↦ elim (Round-cases (visit_frontier universe rs w w.frontier (nothing_yet w))) [
      | inr (f, m, k) ↦ (_, close_from-stopped fuel w f m e k)
      | inl (f, k) ↦
          let (c, ends) =
            close_from-Ends fuel (advance w f)
              (elim (Bool-cases (is_empty (advance w f).frontier)) [
                | inl done ↦ inl (ground (arith, h, e), done)
                | inr more ↦
                    inr (ground (arith, h, e, advance-outside w f (found-fresh w f k) more))
              ]) in
          (c, close_from-found fuel w f e k ∙ ends)
    ]
  ]

-- The closure is computed: the rounds that the fuel allows are enough, whatever the graph is.
pub close_over-ends :
    (seeds universe : List String) (rs : List HardRequirement)
    → (c : Closed) × (close_over seeds rs universe ≡ some c)
unfolding close_over Ends
close_over-ends seeds universe rs =
    close_from-Ends universe (sort requirement_lt rs) (suc (suc (length universe))) (start seeds)
      (inr (ground (arith, outside-length (start seeds).included universe)))
