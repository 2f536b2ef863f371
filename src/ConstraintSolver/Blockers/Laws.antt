-- ===== src/ConstraintSolver/Blockers/Laws.antt =====
-- firstProhibitionHit and firstPolicyDenial of packages/constraint-solver/src/solve.ts.
use prime_system.Base.{
  String, ◌≡◌, arith, inl, inr, Bool, true, false, ◌&&◌, List, [], ◌∷◌, Option, none, find,
  includes, In, here, there, In-sort, Bool-cases, sym, ap, ◌∙◌,
}
use prime_system.ConstraintSolver.Constraints.{HardProhibition, RuntimePolicy}
use prime_system.ConstraintSolver.Blockers.{
  PrincipalView, permits, hits, denied, prohibition_lt, policy_lt, first_prohibition_hit,
  first_policy_denial,
}

find-none {ℓ} :
    {A : Type ℓ} (p : A → Bool) (xs : List A) (a : A) → find p xs ≡ none → In a xs → p a ≡ false
find-none p [] a h i = elim i [ ]
find-none p (x ∷ xs) a h (here e) = ap p (sym e) ∙ ground (arith, h)
find-none p (x ∷ xs) a h (there i) = elim (Bool-cases (p x)) [
  | inl e ↦ ground (arith, h, e)
  | inr e ↦ find-none p xs a (ground (arith, h, e)) i
]

-- Where neither a prohibition nor a policy is reported for a selection, no declared prohibition has
-- both its units in the selection, and the principal is permitted every declared policy whose unit
-- is in the selection.
pub unblocked_selection :
    (prohibitions : List HardProhibition) (policies : List RuntimePolicy) (selected : List String)
    (principal : Option PrincipalView)
    → first_prohibition_hit prohibitions selected ≡ none
    → first_policy_denial policies selected principal ≡ none
    → ((p : HardProhibition)
        → In p prohibitions
        → (includes selected p.left && includes selected p.right) ≡ false)
      × ((p : RuntimePolicy)
          → In p policies
          → includes selected p.target ≡ true
          → permits principal p ≡ true)
unfolding first_prohibition_hit first_policy_denial
unblocked_selection prohibitions policies selected principal h k = (
  λ p i. find-none (hits selected) _ p h (In-sort prohibition_lt prohibitions p i),
  λ p i s.
      permitted selected principal p
        (find-none (denied selected principal) _ p k (In-sort policy_lt policies p i)) s,
)
  where
    permitted :
        (selected : List String) (principal : Option PrincipalView) (p : RuntimePolicy)
        → denied selected principal p ≡ false
        → includes selected p.target ≡ true
        → permits principal p ≡ true
    permitted selected principal p h s = ground (arith, h, s)
