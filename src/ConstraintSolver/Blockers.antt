-- ===== src/ConstraintSolver/Blockers.antt =====
-- The hard constraints on a selection, firstProhibitionHit, firstPolicyDenial and permits of
-- packages/constraint-solver/src/solve.ts.
pub mod Laws
use prime_system.Base.{
  String, Bool, true, false, not, ◌&&◌, ◌||◌, List, [], ◌∷◌, Option, none, some, every, find,
  filter, includes, str_lt,
}
use prime_system.Base.Sorting.{sort}
use prime_system.ConstraintSolver.Constraints.{
  SideEffect, no_effect, read_effect, write_effect, HardProhibition, RuntimePolicy, HardRequirement,
  OrderingObligation, ConstraintSet,
}

pub record PrincipalView : Type 0 where
  pub capabilities : List String
  pub allowed_side_effects : Option (List SideEffect)

abbrev pub same_effect : SideEffect → SideEffect → Bool
same_effect no_effect no_effect = true
same_effect read_effect read_effect = true
same_effect write_effect write_effect = true
same_effect _ _ = false

abbrev pub has_effect : List SideEffect → SideEffect → Bool
has_effect [] e = false
has_effect (x ∷ xs) e = same_effect x e || has_effect xs e

-- `principal?.capabilities ?? []`
abbrev pub granted_to : Option PrincipalView → List String
granted_to none = []
granted_to (some p) = p.capabilities

abbrev pub effects_or : Option (List SideEffect) → List SideEffect
effects_or none = no_effect ∷ []
effects_or (some effects) = effects

-- `principal?.allowedSideEffects ?? ["none"]`
abbrev pub effects_of : Option PrincipalView → List SideEffect
effects_of none = no_effect ∷ []
effects_of (some p) = effects_or p.allowed_side_effects

unfoldable pub permits : Option PrincipalView → RuntimePolicy → Bool
permits principal policy =
    every (λ c. includes (granted_to principal) c) policy.capabilities
    && has_effect (effects_of principal) policy.side_effect

abbrev pub prohibition_lt : HardProhibition → HardProhibition → Bool
prohibition_lt a b = str_lt a.ref b.ref

abbrev pub policy_lt : RuntimePolicy → RuntimePolicy → Bool
policy_lt a b = str_lt a.ref b.ref

-- Both ends of the prohibition are selected.
abbrev pub hits : List String → HardProhibition → Bool
hits selected p = includes selected p.left && includes selected p.right

-- The target of the policy is selected, and the principal may not load it.
abbrev pub denied : List String → Option PrincipalView → RuntimePolicy → Bool
denied selected principal p = includes selected p.target && not (permits principal p)

unfoldable pub first_prohibition_hit : List HardProhibition → List String → Option HardProhibition
first_prohibition_hit prohibitions selected =
    find (hits selected) (sort prohibition_lt prohibitions)

unfoldable pub first_policy_denial :
    List RuntimePolicy → List String → Option PrincipalView → Option RuntimePolicy
first_policy_denial policies selected principal =
    find (denied selected principal) (sort policy_lt policies)

-- ActiveSet
pub record ActiveSet : Type 0 where
  pub hard_requirements : List HardRequirement
  pub hard_prohibitions : List HardProhibition
  pub runtime_policies : List RuntimePolicy
  pub orderings : List OrderingObligation

abbrev pub keep {ℓ} : {A : Type ℓ} → (A → String) → Option (List String) → List A → List A
keep ref none items = items
keep ref (some allowed) items = filter (λ item. includes allowed (ref item)) items

-- The constraints that can block, cut down to the refs that are allowed, if any are given.
unfoldable pub restrict : ConstraintSet → Option (List String) → ActiveSet
restrict set allowed = record {
  hard_requirements = keep HardRequirement.ref allowed set.hard_requirements;
  hard_prohibitions = keep HardProhibition.ref allowed set.hard_prohibitions;
  runtime_policies = keep RuntimePolicy.ref allowed set.runtime_policies;
  orderings = keep OrderingObligation.ref allowed set.orderings;
}
