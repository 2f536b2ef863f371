-- ===== src/ConstraintSolver/Derive.antt =====
-- packages/constraint-solver/src/derive.ts: a graph and its relation semantics become constraints.
use prime_system.Base.{
  ℕ, String, Bool, true, false, List, [], ◌∷◌, ◌++◌, Option, none, some, if◌then◌else◌, includes,
  string_eq, text_lt, codes, Text, ◌⧺◌,
}
use prime_system.Base.Maps.{get}
use prime_system.ConstraintSolver.Semantics.{
  Traversal, no_hop, transitive, SelectionSemantics, informational, expand, closure, exclude,
  LoadOrder, unordered, ConflictSeverity, error, RelationSemantics, error_level, info_level,
  Diagnostic, RawSemantics, readable, unreadable, read_relation_semantics,
}
use prime_system.ConstraintSolver.Constraints.{
  HardRequirement, HardProhibition, SoftPreference, OrderingObligation, AdvisoryExclusion,
  ordering_direction, sorted_pair,
}
use prime_system.ConstraintSolver.Graph.{
  GraphEdge, EdgeWeight, absent_weight, finite_weight, invalid_weight,
}

abbrev pub info : String → List String → Diagnostic
info code path = record { code = code; path = path; severity = info_level }

abbrev pub fatal : String → List String → Diagnostic
fatal code path = record { code = code; path = path; severity = error_level }

-- `edgeSortKey`: the four texts joined by NUL.
edge_sort_key : GraphEdge → Text
edge_sort_key edge =
    codes edge.relation_ref
    ++ (0 ∷ (codes edge.from ++ (0 ∷ (codes edge.to ++ (0 ∷ codes edge.id)))))

unfoldable pub edge_lt : GraphEdge → GraphEdge → Bool
unfolding edge_sort_key
edge_lt a b = text_lt (edge_sort_key a) (edge_sort_key b)

-- The loop over the relations: the readable ones, and the diagnostics of the others.
unfoldable pub read_relations :
    List (String × RawSemantics) → List (String × RelationSemantics) × List Diagnostic
read_relations [] = ([], [])
read_relations ((ref, raw) ∷ relations) =
    let (views, problems) = read_relations relations in
    elim (read_relation_semantics ref raw) [
      | readable view ↦ ((ref, view) ∷ views, problems)
      | unreadable found ↦ (views, found ++ problems)
    ]

-- What the loop over the edges has built.
pub record Built : Type 0 where
  pub seen : List String
  pub fatals : List Diagnostic
  pub notes : List Diagnostic
  pub hard_requirements : List HardRequirement
  pub hard_prohibitions : List HardProhibition
  pub soft_preferences : List SoftPreference
  pub orderings : List OrderingObligation
  pub advisories : List AdvisoryExclusion

abbrev pub empty_built : Built
empty_built = record {
  seen = [];
  fatals = [];
  notes = [];
  hard_requirements = [];
  hard_prohibitions = [];
  soft_preferences = [];
  orderings = [];
  advisories = [];
}

abbrev pub never_hops : Traversal → Bool
never_hops no_hop = true
never_hops _ = false

unfoldable pub add_closure : RelationSemantics → GraphEdge → Built → Built
add_closure view edge b =
    if never_hops view.traversal
    then record b {
      notes = b.notes ++ info "SELECTION_WITHOUT_TRAVERSAL" ("edges" ∷ edge.id ∷ []) ∷ [];
    }
    else record b {
      hard_requirements =
          b.hard_requirements
          ++ record {
            ref = "hr:" ⧺ edge.id;
            relation_ref = edge.relation_ref;
            edge_id = edge.id;
            subject = edge.from;
            target = edge.to;
            traversal = view.traversal;
          }
            ∷ [];
    }

-- `readEdgeWeight`; a fallback that is not finite is fatal elsewhere.
abbrev pub edge_weight : EdgeWeight → Option ℕ → Option ℕ
edge_weight absent_weight fallback = fallback
edge_weight (finite_weight n) fallback = some n
edge_weight invalid_weight fallback = none

abbrev is_invalid : EdgeWeight → Bool
is_invalid invalid_weight = true
is_invalid _ = false

unfoldable pub add_expand : Option ℕ → RelationSemantics → GraphEdge → Built → Built
add_expand fallback view edge b =
    if never_hops view.traversal
    then record b {
      notes = b.notes ++ info "SELECTION_WITHOUT_TRAVERSAL" ("edges" ∷ edge.id ∷ []) ∷ [];
    }
    else elim (edge_weight edge.weight fallback) [
      | some weight ↦ record b {
        soft_preferences =
            b.soft_preferences
            ++ record {
              ref = "sp:" ⧺ edge.id;
              target = edge.to;
              weight = weight;
              relation_ref = some edge.relation_ref;
              edge_id = some edge.id;
              subject = some edge.from;
            }
              ∷ [];
      }
      | none ↦ record b {
        fatals =
            b.fatals
            ++ (if is_invalid edge.weight
                then fatal "EDGE_WEIGHT_INVALID" ("edges" ∷ edge.id ∷ "attributes" ∷ "weight" ∷ [])
                  ∷ []
                else []);
      }
    ]

abbrev pub blocks : ConflictSeverity → Bool
blocks error = true
blocks _ = false

abbrev chains : Traversal → Bool
chains transitive = true
chains _ = false

unfoldable pub add_exclude : RelationSemantics → GraphEdge → Built → Built
add_exclude view edge b =
    let (left, right) = sorted_pair edge.from edge.to in
    let noted = record b {
      notes =
          b.notes
          ++ (if chains view.traversal
              then info "EXCLUSION_IS_PAIRWISE" ("edges" ∷ edge.id ∷ []) ∷ []
              else []);
    } in
    if blocks view.conflict_severity
    then record noted {
      hard_prohibitions =
          b.hard_prohibitions
          ++ record {
            ref = "hp:" ⧺ edge.id;
            relation_ref = edge.relation_ref;
            edge_id = edge.id;
            left = left;
            right = right;
          }
            ∷ [];
    }
    else record noted {
      advisories =
          b.advisories
          ++ record {
            ref = "ax:" ⧺ edge.id;
            relation_ref = edge.relation_ref;
            edge_id = edge.id;
            left = left;
            right = right;
            severity = view.conflict_severity;
          }
            ∷ [];
    }

abbrev pub orders : LoadOrder → Bool
orders unordered = false
orders _ = true

unfoldable pub add_order : RelationSemantics → GraphEdge → Built → Built
add_order view edge b =
    let (first, second) = ordering_direction view.load_order edge.from edge.to in
    if orders view.load_order
    then record b {
      orderings =
          b.orderings
          ++ record {
            ref = "ord:" ⧺ edge.id;
            relation_ref = edge.relation_ref;
            edge_id = edge.id;
            before = first;
            after = second;
            cycle_policy = view.cycle_policy;
          }
            ∷ [];
    }
    else b

unfoldable pub add_selection :
    SelectionSemantics → Option ℕ → RelationSemantics → GraphEdge → Built → Built
add_selection informational fallback view edge b = b
add_selection closure fallback view edge b = add_closure view edge b
add_selection expand fallback view edge b = add_expand fallback view edge b
add_selection exclude fallback view edge b = add_exclude view edge b

-- One round of the loop over the edges.
unfoldable pub add_edge : List (String × RelationSemantics) → Option ℕ → Built → GraphEdge → Built
add_edge views fallback b edge =
    if includes b.seen edge.id
    then record b { fatals = b.fatals ++ fatal "EDGE_ID_DUPLICATE" ("edges" ∷ edge.id ∷ []) ∷ [] }
    else let fresh = record b { seen = edge.id ∷ b.seen } in
      elim (get edge.relation_ref views) [
        | none ↦ record fresh {
          fatals =
              b.fatals
              ++ fatal "EDGE_RELATION_UNRESOLVED" ("edges" ∷ edge.id ∷ "relationRef" ∷ []) ∷ [];
        }
        | some view ↦ add_order view edge (add_selection view.selection fallback view edge fresh)
      ]

unfoldable pub add_edges :
    List (String × RelationSemantics) → Option ℕ → Built → List GraphEdge → Built
add_edges views fallback b [] = b
add_edges views fallback b (edge ∷ edges) =
    add_edges views fallback (add_edge views fallback b edge) edges
