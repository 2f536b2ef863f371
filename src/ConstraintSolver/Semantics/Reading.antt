-- ===== src/ConstraintSolver/Semantics/Reading.antt =====
-- readRelationSemantics of packages/constraint-solver/src/semantics.ts.
use prime_system.Base.{String, List, [], ◌∷◌, Option, some, ◌≡◌, ◌↔◌, string_eq, map}
use prime_system.ConstraintSolver.Semantics.{
  RawValue, raw_text, no_hop, one_hop, transitive, informational, expand, closure, exclude,
  unordered, before, after, allow, reject, collapse, no_conflict, warning, error, Traversal,
  SelectionSemantics, LoadOrder, CyclePolicy, ConflictSeverity,
}

-- How the values of the fields are spelled.
abbrev pub traversal_text : Traversal → String
traversal_text no_hop = "none"
traversal_text one_hop = "one-hop"
traversal_text transitive = "transitive"

abbrev pub selection_text : SelectionSemantics → String
selection_text informational = "informational"
selection_text expand = "expand"
selection_text closure = "closure"
selection_text exclude = "exclude"

abbrev pub load_order_text : LoadOrder → String
load_order_text unordered = "none"
load_order_text before = "before"
load_order_text after = "after"

abbrev pub cycle_policy_text : CyclePolicy → String
cycle_policy_text allow = "allow"
cycle_policy_text reject = "reject"
cycle_policy_text collapse = "collapse"

abbrev pub severity_text : ConflictSeverity → String
severity_text no_conflict = "none"
severity_text warning = "warning"
severity_text error = "error"

-- A reader gives a value exactly where the text that spells it is written.
abbrev Spells : {A : Type 0} → (Option RawValue → Option A) → (A → String) → Type 0
Spells {A} read spell =
    (o : Option RawValue) (a : A) → (read o ≡ some a) ↔ (o ≡ some (raw_text (spell a)))

-- The fields that a block of semantics may have.
abbrev pub five : List String
five = "traversal" ∷ "selection" ∷ "loadOrder" ∷ "cyclePolicy" ∷ "conflictSeverity" ∷ []

abbrev pub keys_of : List (String × RawValue) → List String
keys_of raw = map (λ (p : String × RawValue). p.0) raw
