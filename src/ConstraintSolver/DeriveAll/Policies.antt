-- ===== src/ConstraintSolver/DeriveAll/Policies.antt =====
-- The runtime policies that deriveConstraints makes from the labels of the units.
use prime_system.Base.{
  String, ◌≡◌, refl, sym, ap, ◌∙◌, if-holds, List-cases, inl, inr, true, List, [], ◌∷◌, ◌++◌,
  Option, none, some, In, here, there, In-sort, string_eq, str_lt,
}
use mathlib.Core.Path.{subst}
use prime_system.Base.Maps.{get}
use prime_system.Base.Sorting.{sort}
use prime_system.ConstraintSolver.Constraints.{no_effect, RuntimePolicy, ConstraintSet}
use prime_system.ConstraintSolver.Semantics.{RelationSemantics, Diagnostic}
use prime_system.ConstraintSolver.Graph.{
  DeriveResult, derived, GraphUnit, PolicyRequirement, DeriveInput,
}
use prime_system.ConstraintSolver.DeriveAll.{
  undeclared_label_capability, policy_ref, policy_for, label_policy, label_policies, unit_policies,
  policies_of, unit_lt, derive_constraints, derive_read, reads_inherited, fatals_of,
}

-- The policy of a label that no requirement declares: it asks for a capability of its own.
abbrev pub undeclared_policy : String → String → RuntimePolicy
undeclared_policy unit_id label = record {
  ref = policy_ref unit_id label;
  target = unit_id;
  label = label;
  capabilities = undeclared_label_capability ∷ [];
  side_effect = no_effect;
}

-- The policy of a declared label: what the requirement asks for, in order.
abbrev pub declared_policy : String → String → PolicyRequirement → RuntimePolicy
declared_policy unit_id label requirement = record {
  ref = policy_ref unit_id label;
  target = unit_id;
  label = label;
  capabilities = sort str_lt requirement.capabilities;
  side_effect = requirement.side_effect;
}

abbrev pub expected : String → String → Option PolicyRequirement → RuntimePolicy
expected unit_id label none = undeclared_policy unit_id label
expected unit_id label (some requirement) = declared_policy unit_id label requirement

In-left {ℓ} : {A : Type ℓ} (xs ys : List A) (a : A) → In a xs → In a (xs ++ ys)
In-left [] ys a i = elim i [ ]
In-left (x ∷ xs) ys a (here e) = here e
In-left (x ∷ xs) ys a (there i) = there (In-left xs ys a i)

In-right {ℓ} : {A : Type ℓ} (xs ys : List A) (a : A) → In a ys → In a (xs ++ ys)
In-right [] ys a i = i
In-right (x ∷ xs) ys a i = there (In-right xs ys a i)

policy_for-expected :
    (unit_id label : String) (o : Option PolicyRequirement)
    → In (expected unit_id label o) (policy_for o true unit_id label).0
unfolding policy_for
policy_for-expected unit_id label none = here refl
policy_for-expected unit_id label (some requirement) = here refl

module _ (declared : List (String × PolicyRequirement)) where
  label_policy-expected :
      (unit_id label : String)
      → In
          (expected unit_id label (get label declared))
          (label_policy declared true unit_id label).0
  label_policy-expected unit_id label = policy_for-expected unit_id label (get label declared)

  label_policies-expected :
      (unit_id label : String) (labels : List String)
      → In label labels
      → In
          (expected unit_id label (get label declared))
          (label_policies declared true unit_id labels).0
  unfolding label_policies
  label_policies-expected unit_id label [] i = elim i [ ]
  label_policies-expected unit_id label (l ∷ labels) (here e) =
      subst
        (λ x. In (expected unit_id x (get x declared)) (
          (label_policy declared true unit_id l).0
          ++ (label_policies declared true unit_id labels).0))
        e (In-left _ _ _ (label_policy-expected unit_id l))
  label_policies-expected unit_id label (l ∷ labels) (there i) =
      In-right (label_policy declared true unit_id l).0 _ _
        (label_policies-expected unit_id label labels i)

  unit_policies-expected :
      (unit : GraphUnit) (label : String) (units : List GraphUnit)
      → In unit units
      → In label unit.policy_labels
      → In (expected unit.id label (get label declared)) (unit_policies declared true units).0
  unfolding unit_policies
  unit_policies-expected unit label [] i j = elim i [ ]
  unit_policies-expected unit label (u ∷ units) (here e) j =
      subst
        (λ (x : GraphUnit). In (expected x.id label (get label declared)) (
          (label_policies declared true u.id (sort str_lt u.policy_labels)).0
          ++ (unit_policies declared true units).0))
        e
        (In-left _ _ _ (
          label_policies-expected u.id label (sort str_lt u.policy_labels) (
            In-sort str_lt u.policy_labels label
              (subst (λ (x : GraphUnit). In label x.policy_labels) (sym e) j))))
  unit_policies-expected unit label (u ∷ units) (there i) j =
      In-right (label_policies declared true u.id (sort str_lt u.policy_labels)).0 _ _
        (unit_policies-expected unit label units i j)

read_policies :
    (input : DeriveInput) (unit : GraphUnit) (label : String)
    → input.deny_undeclared ≡ true
    → In unit input.units
    → In label unit.policy_labels
    → In (expected unit.id label (get label input.policy_requirements)) (policies_of input).0
unfolding policies_of
read_policies input unit label h i j = rw h (
    unit_policies-expected input.policy_requirements unit label (sort unit_lt input.units)
      (In-sort unit_lt input.units unit i) j)

-- The policies of a result, or those that are given.
abbrev policies_in : List RuntimePolicy → DeriveResult → List RuntimePolicy
policies_in others (derived constraints semantics notes) = constraints.runtime_policies
policies_in others _ = others

policies_in-derive_constraints :
    (input : DeriveInput)
    → policies_in (policies_of input).0 (derive_constraints input) ≡ (policies_of input).0
unfolding derive_constraints derive_read
policies_in-derive_constraints input =
    if-holds (λ d. policies_in (policies_of input).0 d ≡ (policies_of input).0)
      (reads_inherited input) _ _ (λ thrown. refl)
      (λ fine. elim (List-cases (fatals_of input)) [
        | inl found ↦ rw (found, derive_read) refl
        | inr (f, fs, found) ↦ rw (found, derive_read) refl
      ])

-- Unless undeclared labels are ignored, in the constraints that are derived each label of each unit
-- is a policy of that unit: the declared requirement's, or, for a label that nothing declares, one
-- that asks for the capability of undeclared labels.
pub policies_of_complete :
    (input : DeriveInput) (constraints : ConstraintSet)
    (semantics : List (String × RelationSemantics)) (notes : List Diagnostic) (unit : GraphUnit)
    (label : String)
    → derive_constraints input ≡ derived constraints semantics notes
    → input.deny_undeclared ≡ true
    → In unit input.units
    → In label unit.policy_labels
    → In (expected unit.id label (get label input.policy_requirements)) constraints.runtime_policies
policies_of_complete input constraints semantics notes unit label e h i j =
    subst (In (expected unit.id label (get label input.policy_requirements)))
      (sym (policies_in-derive_constraints input) ∙ ap (policies_in (policies_of input).0) e)
      (read_policies input unit label h i j)
