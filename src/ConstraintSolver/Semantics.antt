-- ===== src/ConstraintSolver/Semantics.antt =====
-- packages/constraint-solver/src/semantics.ts, with the relation semantics and diagnostics of
-- packages/ir/src/index.ts. The messages of diagnostics are left out.
pub mod Reading
use prime_system.Base.{
  ℕ, String, Bool, true, false, ◌&&◌, List, [], ◌∷◌, ◌++◌, Option, none, some, if◌then◌else◌, ◌==◌,
  ltb, includes, string_eq, map, filter, not, str_lt,
}
use prime_system.Base.Maps.{get}
use prime_system.Base.Sorting.{sort}

pub data Traversal : Type 0 where
  no_hop one_hop transitive : Traversal

pub data SelectionSemantics : Type 0 where
  informational expand closure exclude : SelectionSemantics

pub data LoadOrder : Type 0 where
  unordered before after : LoadOrder

pub data CyclePolicy : Type 0 where
  allow reject collapse : CyclePolicy

pub data ConflictSeverity : Type 0 where
  no_conflict warning error : ConflictSeverity

pub record RelationSemantics : Type 0 where
  pub traversal : Traversal
  pub selection : SelectionSemantics
  pub load_order : LoadOrder
  pub cycle_policy : CyclePolicy
  pub conflict_severity : ConflictSeverity

pub data Severity : Type 0 where
  error_level warning_level info_level : Severity

pub record Diagnostic : Type 0 where
  pub code : String
  pub path : List String
  pub severity : Severity

-- A field of a JSON object as the reader sees it: a text, or something else.
pub data RawValue : Type 0 where
  raw_text : String → RawValue
  raw_other : RawValue

-- What stands under `semantics` in a payload.
pub data RawSemantics : Type 0 where
  no_object : RawSemantics
  raw_object : List (String × RawValue) → RawSemantics

-- `member(TRAVERSAL_VALUES, raw)` and its fellows, one for each field.
abbrev pub read_traversal : Option RawValue → Option Traversal
read_traversal (some (raw_text s)) =
    if s == "none"
    then some no_hop
    else if s == "one-hop"
    then some one_hop
    else if s == "transitive"
    then some transitive
    else none
read_traversal (some raw_other) = none
read_traversal none = none

abbrev pub read_selection : Option RawValue → Option SelectionSemantics
read_selection (some (raw_text s)) =
    if s == "informational"
    then some informational
    else if s == "expand"
    then some expand
    else if s == "closure"
    then some closure
    else if s == "exclude"
    then some exclude
    else none
read_selection (some raw_other) = none
read_selection none = none

abbrev pub read_load_order : Option RawValue → Option LoadOrder
read_load_order (some (raw_text s)) =
    if s == "none"
    then some unordered
    else if s == "before"
    then some before
    else if s == "after"
    then some after
    else none
read_load_order (some raw_other) = none
read_load_order none = none

abbrev pub read_cycle_policy : Option RawValue → Option CyclePolicy
read_cycle_policy (some (raw_text s)) =
    if s == "allow"
    then some allow
    else if s == "reject"
    then some reject
    else if s == "collapse"
    then some collapse
    else none
read_cycle_policy (some raw_other) = none
read_cycle_policy none = none

abbrev pub read_conflict_severity : Option RawValue → Option ConflictSeverity
read_conflict_severity (some (raw_text s)) =
    if s == "none"
    then some no_conflict
    else if s == "warning"
    then some warning
    else if s == "error"
    then some error
    else none
read_conflict_severity (some raw_other) = none
read_conflict_severity none = none

-- FIELD_NAMES, sorted as the source sorts them.
abbrev pub field_names : List String
field_names = "conflictSeverity" ∷ "cyclePolicy" ∷ "loadOrder" ∷ "selection" ∷ "traversal" ∷ []

abbrev problem : String → String → String → Diagnostic
problem code relation_ref field = record {
  code = code;
  path = "relations" ∷ relation_ref ∷ "semantics" ∷ field ∷ [];
  severity = error_level;
}

-- `Object.keys(raw).sort()` without the known fields.
abbrev pub unknown_keys : List (String × RawValue) → List String
unknown_keys raw =
    filter (λ k. not (includes field_names k))
      (sort str_lt (map (λ (p : String × RawValue). p.0) raw))

-- The diagnostic of a field that could not be read.
abbrev pub missing {ℓ} : {A : Type ℓ} → String → String → Option A → List Diagnostic
missing relation_ref field none = problem "RELATION_SEMANTICS_INVALID" relation_ref field ∷ []
missing relation_ref field (some a) = []

pub data ReadResult : Type 0 where
  readable : RelationSemantics → ReadResult
  unreadable : List Diagnostic → ReadResult

-- All five fields, or nothing.
abbrev combine :
    List Diagnostic
    → Option Traversal
    → Option SelectionSemantics
    → Option LoadOrder
    → Option CyclePolicy
    → Option ConflictSeverity
    → ReadResult
combine [] (some t) (some s) (some l) (some c) (some v) = readable (record {
  traversal = t;
  selection = s;
  load_order = l;
  cycle_policy = c;
  conflict_severity = v;
})
combine problems _ _ _ _ _ = unreadable problems

-- The diagnostics of the unknown keys and of the fields that could not be read, in this order.
unfoldable pub finish :
    String
    → List String
    → Option Traversal
    → Option SelectionSemantics
    → Option LoadOrder
    → Option CyclePolicy
    → Option ConflictSeverity
    → ReadResult
finish relation_ref unknown t s l c v =
    combine
      (map (problem "RELATION_SEMANTICS_UNKNOWN_FIELD" relation_ref) unknown
        ++ (missing relation_ref "conflictSeverity" v
            ++ (missing relation_ref "cyclePolicy" c
                ++ (missing relation_ref "loadOrder" l
                    ++ (missing relation_ref "selection" s
                        ++ missing relation_ref "traversal" t)))))
      t s l c v

unfoldable pub read_relation_semantics : String → RawSemantics → ReadResult
unfolding finish
read_relation_semantics relation_ref no_object = unreadable (
    record {
      code = "RELATION_SEMANTICS_INVALID";
      path = "relations" ∷ relation_ref ∷ "semantics" ∷ [];
      severity = error_level;
    }
    ∷ [])
read_relation_semantics relation_ref (raw_object raw) =
    finish relation_ref (unknown_keys raw) (read_traversal (get "traversal" raw))
      (read_selection (get "selection" raw)) (read_load_order (get "loadOrder" raw))
      (read_cycle_policy (get "cyclePolicy" raw))
      (read_conflict_severity (get "conflictSeverity" raw))

-- `depth >= maxHops(traversal)` is false: a unit at this depth may still hop.
unfoldable pub may_hop : Traversal → ℕ → Bool
may_hop no_hop depth = false
may_hop one_hop depth = ltb depth 1
may_hop transitive depth = true

unfoldable pub severity_of : ConflictSeverity → Severity
severity_of error = error_level
severity_of warning = warning_level
severity_of no_conflict = info_level
