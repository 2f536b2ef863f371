-- ===== src/ConstraintSolver/Examples.antt =====
-- Concrete inputs of the constraint solver.
use prime_system.Base.Sorting.{sort}
use prime_system.ConstraintSolver.Derive.{read_relations, add_edges}
use prime_system.ConstraintSolver.DeriveAll.{
  built_of, request_softs, policies_of, unit_policies, label_policies, policy_for,
}
use prime_system.ConstraintSolver.Constraints.{ConstraintSet}
use prime_system.ConstraintSolver.Solve.Candidates.{SolveRequest}
use prime_system.Base.{none, String, string_eq, ◌≡◌, refl, true, List, [], ◌∷◌, some, In, here}
use prime_system.Base.Maps.{get}
use prime_system.ConstraintSolver.Semantics.{
  RawValue, raw_text, transitive, expand, unordered, allow, no_conflict, RelationSemantics,
}
use prime_system.ConstraintSolver.Constraints.{HardRequirement, HardProhibition, RuntimePolicy}
use prime_system.ConstraintSolver.Graph.{GraphUnit, DeriveInput}
use prime_system.ConstraintSolver.DeriveAll.{
  derive_constraints, derive_read, reads_inherited, fatals_of,
}
use prime_system.Base.Objects.{inherits}
use prime_system.ConstraintSolver.DeriveAll.Policies.{policies_of_complete, undeclared_policy}
use prime_system.ConstraintSolver.Closure.{Closed, close_over}
use prime_system.ConstraintSolver.Closure.Outcome.{Promise, close_over-Promise}

abbrev fields : List (String × RawValue)
fields =
    ("traversal", raw_text "transitive")
    ∷ ("selection", raw_text "expand")
    ∷ ("loadOrder", raw_text "none")
    ∷ ("cyclePolicy", raw_text "allow")
    ∷ ("conflictSeverity", raw_text "none")
    ∷ []

abbrev view : RelationSemantics
view = record {
  traversal = transitive;
  selection = expand;
  load_order = unordered;
  cycle_policy = allow;
  conflict_severity = no_conflict;
}

abbrev needs : String → String → HardRequirement
needs a b = record {
  ref = a;
  relation_ref = "uses";
  edge_id = a;
  subject = a;
  target = b;
  traversal = transitive;
}

abbrev requirements : List HardRequirement
requirements = needs "a" "b" ∷ needs "b" "c" ∷ []

abbrev graph : List String
graph = "a" ∷ "b" ∷ "c" ∷ "d" ∷ []

close_over-Promise_example :
    (c : Closed) × (close_over ("a" ∷ []) requirements graph ≡ some c)
    × Promise ("a" ∷ []) graph requirements c
close_over-Promise_example = close_over-Promise ("a" ∷ []) graph requirements

abbrev labelled : GraphUnit
labelled = record { id = "a"; policy_labels = "internal" ∷ [] }

abbrev input : DeriveInput
input = record {
  relations = [];
  edges = [];
  units = labelled ∷ [];
  policy_requirements = [];
  deny_undeclared = true;
  request_preferences = [];
  default_expansion_weight = some 1;
}

abbrev derived_set : ConstraintSet
derived_set = record {
  hard_requirements = [];
  hard_prohibitions = [];
  soft_preferences = [];
  runtime_policies = undeclared_policy "a" "internal" ∷ [];
  orderings = [];
  advisories = [];
}

policies_of_complete_example : In (undeclared_policy "a" "internal") derived_set.runtime_policies
unfolding get derive_constraints derive_read reads_inherited inherits fatals_of read_relations sort
    built_of add_edges request_softs policies_of unit_policies label_policies policy_for
policies_of_complete_example =
    policies_of_complete input derived_set _ _ labelled "internal" refl refl (here refl) (here refl)

abbrev apart : HardProhibition
apart = record { ref = "p"; relation_ref = "excludes"; edge_id = "p"; left = "a"; right = "d" }

abbrev guarded : RuntimePolicy
guarded = undeclared_policy "d" "internal"

-- One mandatory unit without a label, a preferred one, and a preferred one that is absent.
abbrev solvable : SolveRequest
solvable = record {
  input = record input {
    units = record { id = "a"; policy_labels = [] } ∷ record { id = "b"; policy_labels = [] } ∷ [];
    request_preferences =
        record { unit_id = "b"; weight = some 2 }
        ∷ record { unit_id = "ghost"; weight = some 1 }
        ∷ [];
  };
  mandatory = "a" ∷ [];
  principal = none;
  max_tokens = some 10;
  unit_cost = ("a", some 4) ∷ ("b", some 5) ∷ [];
}
