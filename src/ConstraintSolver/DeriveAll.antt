-- ===== src/ConstraintSolver/DeriveAll.antt =====
-- The whole of deriveConstraints, packages/constraint-solver/src/derive.ts.
pub mod Policies
use prime_system.Base.{
  ℕ, zero, String, Bool, true, false, not, ◌&&◌, List, [], ◌∷◌, ◌++◌, any, Option, none, some,
  if◌then◌else◌, ◌==◌, includes, string_eq, map, str_lt, ◌⧺◌,
}
use prime_system.Base.Maps.{get, set}
use prime_system.Base.Sorting.{sort}
use prime_system.Base.Objects.{inherits}
use prime_system.ConstraintSolver.Semantics.{Diagnostic, RawSemantics}
use prime_system.ConstraintSolver.Constraints.{
  no_effect, SoftPreference, RuntimePolicy, ConstraintSet,
}
use prime_system.ConstraintSolver.Graph.{
  GraphUnit, PolicyRequirement, RequestPreference, DeriveInput, DeriveResult, derived, invalid,
  derive_thrown, GraphEdge,
}
use prime_system.ConstraintSolver.Derive.{
  info, fatal, edge_lt, read_relations, Built, empty_built, add_edges,
}

-- UNDECLARED_LABEL_CAPABILITY
abbrev pub undeclared_label_capability : String
undeclared_label_capability = "__undeclared-policy-label__"

abbrev pub policy_ref : String → String → String
policy_ref unit_id label = "rp:" ⧺ unit_id ⧺ ":" ⧺ label

-- The policy of one label of one unit, and its note: an undeclared label denies, unless the caller
-- says that it is ignored.
-- The requirement that stands under a label, if one does; no label is inherited here.
unfoldable pub policy_for :
    Option PolicyRequirement → Bool → String → String → List RuntimePolicy × List Diagnostic
policy_for (some requirement) deny unit_id label = (
  record {
    ref = policy_ref unit_id label;
    target = unit_id;
    label = label;
    capabilities = sort str_lt requirement.capabilities;
    side_effect = requirement.side_effect;
  }
      ∷ [],
  [],
)
policy_for none deny unit_id label =
    if deny
    then (
      record {
        ref = policy_ref unit_id label;
        target = unit_id;
        label = label;
        capabilities = undeclared_label_capability ∷ [];
        side_effect = no_effect;
      }
          ∷ [],
      info "POLICY_LABEL_UNDECLARED" ("units" ∷ unit_id ∷ "policyLabels" ∷ label ∷ []) ∷ [],
    )
    else ([], [])

abbrev pub label_policy :
    List (String × PolicyRequirement)
    → Bool
    → String
    → String
    → List RuntimePolicy × List Diagnostic
label_policy declared deny unit_id label = policy_for (get label declared) deny unit_id label

unfoldable pub label_policies :
    List (String × PolicyRequirement)
    → Bool
    → String
    → List String
    → List RuntimePolicy × List Diagnostic
label_policies declared deny unit_id [] = ([], [])
label_policies declared deny unit_id (label ∷ labels) =
    let (policies, notes) = label_policy declared deny unit_id label in
    let (more, later) = label_policies declared deny unit_id labels in
    (policies ++ more, notes ++ later)

-- The loop over the units.
unfoldable pub unit_policies :
    List (String × PolicyRequirement) → Bool → List GraphUnit → List RuntimePolicy × List Diagnostic
unit_policies declared deny [] = ([], [])
unit_policies declared deny (unit ∷ units) =
    let (policies, notes) = label_policies declared deny unit.id (sort str_lt unit.policy_labels) in
    let (more, later) = unit_policies declared deny units in (policies ++ more, notes ++ later)

unfoldable pub request_softs : List RequestPreference → List SoftPreference × List Diagnostic
request_softs [] = ([], [])
request_softs (p ∷ ps) =
    let (softs, problems) = request_softs ps in
    elim p.weight [
      | none ↦ (
        softs,
        fatal "PREFERENCE_WEIGHT_INVALID" ("requestPreferences" ∷ p.unit_id ∷ []) ∷ problems,
      )
      | some weight ↦ (
        record {
          ref = "sp:request:" ⧺ p.unit_id;
          target = p.unit_id;
          weight = weight;
          relation_ref = none;
          edge_id = none;
          subject = none;
        }
            ∷ softs,
        problems,
      )
    ]

abbrev default_problem : Option ℕ → List Diagnostic
default_problem none = fatal "DEFAULT_WEIGHT_INVALID" ("defaultExpansionWeight" ∷ []) ∷ []
default_problem (some n) = []

abbrev pub unit_lt : GraphUnit → GraphUnit → Bool
unit_lt a b = str_lt a.id b.id

abbrev pub relation_lt : String × RawSemantics → String × RawSemantics → Bool
relation_lt a b = str_lt a.0 b.0

abbrev soft_lt : SoftPreference → SoftPreference → Bool
soft_lt a b = str_lt a.ref b.ref

-- The edges in canonical order, read by the loop.
unfoldable pub built_of : DeriveInput → Built
built_of input =
    add_edges (read_relations (sort relation_lt input.relations)).0 input.default_expansion_weight
      empty_built (sort edge_lt input.edges)

unfoldable pub policies_of : DeriveInput → List RuntimePolicy × List Diagnostic
policies_of input =
    unit_policies input.policy_requirements input.deny_undeclared (sort unit_lt input.units)

unfoldable pub fatals_of : DeriveInput → List Diagnostic
fatals_of input =
    (read_relations (sort relation_lt input.relations)).1
    ++ (default_problem input.default_expansion_weight
        ++ ((built_of input).fatals ++ (request_softs input.request_preferences).1))

-- The requirements are read by the label; a label that a plain object inherits has a value that is
-- no requirement, whose capabilities are not a list, and reading them throws.
unfoldable pub reads_inherited : DeriveInput → Bool
reads_inherited input =
    any
      (λ (unit : GraphUnit).
        any (λ label. inherits label input.policy_requirements) unit.policy_labels)
      input.units

unfoldable pub derive_read : DeriveInput → DeriveResult
derive_read input =
    let views = (read_relations (sort relation_lt input.relations)).0 in
    let built = built_of input in
    let (policies, policy_notes) = policies_of input in
    elim (fatals_of input) [
      | f ∷ fs ↦ invalid ((f ∷ fs) ++ (built.notes ++ policy_notes))
      | [] ↦
          derived
            (record {
              hard_requirements = built.hard_requirements;
              hard_prohibitions = built.hard_prohibitions;
              soft_preferences =
                  sort soft_lt
                    (built.soft_preferences ++ (request_softs input.request_preferences).0);
              runtime_policies = policies;
              orderings = built.orderings;
              advisories = built.advisories;
            })
            views (built.notes ++ policy_notes)
    ]

-- `deriveConstraints`. The loop that throws comes before any result.
unfoldable pub derive_constraints : DeriveInput → DeriveResult
derive_constraints input = if reads_inherited input then derive_thrown else derive_read input
