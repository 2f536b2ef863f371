-- ===== src/QueryEngine/Examples.antt =====
-- Concrete inputs of the query engine.
use prime_system.Base.Maps.{get}
use prime_system.QueryEngine.Degrade.{DegradationResult, degraded, degrade_to_fit}
use prime_system.QueryEngine.Degrade.Laws.{IsHonest, degrade_to_fit-IsHonest}
use prime_system.Base.{ℕ, String, ◌≡◌, refl, arith, Bool, true, List, [], ◌∷◌, Option, none, any}
use prime_system.QueryEngine.Admission.{
  Edge, UnitIr, GraphIr, QueryRequest, admit, acl_reasons, sort_units, scrub, visible, is_cleared,
  scrub_index, lifecycle_reasons, required_facet_reasons,
}
use prime_system.QueryEngine.Admission.Laws.{may_see, admit-withholds}

-- No measured costs; a full view of 500 tokens and a summary of 80.
abbrev unmeasured : String → String → Option ℕ
unmeasured unit_id projection_ref = none

abbrev projections : List (String × ℕ)
projections = ("full", 500) ∷ ("summary", 80) ∷ []

abbrev edge_to_secret : Edge
edge_to_secret = record { id = "e"; from = "a"; to = "b"; relation_ref = "r"; attributes = [] }

abbrev open_unit : UnitIr
open_unit = record {
  id = "a";
  visibility = "public";
  policy_labels = [];
  lifecycle = "active";
  type_ref = "t";
  implements = [];
  version = "1";
  digest = "d";
  corpus = "c";
  relations = edge_to_secret ∷ [];
  fields = [];
  citations = [];
  provenance = [];
  projections = [];
}

abbrev secret_unit : UnitIr
secret_unit = record open_unit { id = "b"; visibility = "private"; relations = [] }

abbrev graph : GraphIr
graph = record {
  snapshot = [];
  diagnostics = [];
  units = open_unit ∷ secret_unit ∷ [];
  edges = edge_to_secret ∷ [];
  indexes = ("all", "a" ∷ "b" ∷ []) ∷ [];
}

abbrev request : QueryRequest String
request = record {
  principal = record { id = "p"; allowed_visibility = "public" ∷ []; granted_policy_labels = [] };
  lifecycles = none;
  required_facets = none;
}

abbrev no_facets : UnitIr → String → Bool
no_facets unit facet = true

admit-withholds_example : any (may_see no_facets request "a") graph.units ≡ true
unfolding admit acl_reasons sort_units scrub visible is_cleared scrub_index lifecycle_reasons
    required_facet_reasons
admit-withholds_example = admit-withholds no_facets graph request "a" refl

degrade_to_fit-IsHonest_example :
    (r : DegradationResult) × (degrade_to_fit unmeasured projections
        ("a" ∷ "b" ∷ [])
        ("full" ∷ "summary" ∷ [])
        600
      ≡ degraded r)
    × IsHonest unmeasured projections 600 ("full" ∷ "summary" ∷ []) ("a" ∷ "b" ∷ []) r
unfolding get
degrade_to_fit-IsHonest_example =
    degrade_to_fit-IsHonest unmeasured projections 600 "full" ("summary" ∷ []) ("a" ∷ "b" ∷ [])
      (omega arith) refl refl
