-- ===== src/QueryEngine/Admission.antt =====
-- packages/query-engine/src/admission.ts, over any facet evaluator: `matches_facet` stands for
-- matchesFacet of facets.ts. What admission passes on without reading it is a text.
pub mod Laws
use prime_system.Base.{
  Text, ℕ, zero, suc, String, Bool, true, false, ◌&&◌, List, [], ◌∷◌, ◌++◌, Option, none, some,
  if◌then◌else◌, not, filter, map, includes, str_lt,
}
use prime_system.Base.Sorting.{sort}

pub record Edge : Type 0 where
  pub id : String
  pub from : String
  pub to : String
  pub relation_ref : String
  pub attributes : Text

pub record UnitIr : Type 0 where
  pub id : String
  pub version : String
  pub digest : String
  pub corpus : String
  pub visibility : String
  pub policy_labels : List String
  pub lifecycle : String
  pub type_ref : String
  pub implements : List String
  pub relations : List Edge
  pub fields : Text
  pub citations : List String
  pub provenance : Text
  pub projections : Text

pub record GraphIr : Type 0 where
  pub snapshot : Text
  pub diagnostics : List Text
  pub units : List UnitIr
  pub edges : List Edge
  pub indexes : List (String × List String)

pub record Principal : Type 0 where
  pub id : String
  pub allowed_visibility : List String
  pub granted_policy_labels : List String

pub data AclReason : Type 0 where
  visibility_not_granted : (visibility : String) → AclReason
  missing_policy_labels : (labels : List String) → AclReason

pub data Reason (Facet : Type 0) : Type 0 where
  lifecycle_not_requested : (lifecycle : String) → Reason Facet
  facet_unsatisfied : Facet → Reason Facet

pub record AdmissionDenial (Facet : Type 0) : Type 0 where
  pub unit_id : String
  pub reasons : List (Reason Facet)

pub record AdmissionResult (Facet : Type 0) : Type 0 where
  pub graph : GraphIr
  pub filtered : List (AdmissionDenial Facet)
  pub acl_denied_count : ℕ

pub record QueryRequest (Facet : Type 0) : Type 0 where
  pub principal : Principal
  pub lifecycles : Option (List String)
  pub required_facets : Option (List Facet)

abbrev missing_labels : List String → List AclReason
missing_labels [] = []
missing_labels (l ∷ ls) = missing_policy_labels (sort str_lt (l ∷ ls)) ∷ []

unfoldable pub acl_reasons : UnitIr → Principal → List AclReason
acl_reasons unit principal =
    (if not (includes principal.allowed_visibility unit.visibility)
      then visibility_not_granted unit.visibility ∷ []
      else [])
    ++ missing_labels
        (filter (λ label. not (includes principal.granted_policy_labels label)) unit.policy_labels)

unfoldable pub is_cleared : UnitIr → Principal → Bool
is_cleared unit principal = elim (acl_reasons unit principal) [ [] ↦ true | r ∷ rs ↦ false ]

unfoldable pub visible : List String → Edge → Bool
visible admitted_ids edge = includes admitted_ids edge.from && includes admitted_ids edge.to

abbrev pub id_of : UnitIr → String
id_of unit = unit.id

-- A unit without the relations that lead out of the admitted units.
unfoldable pub scrub : List String → UnitIr → UnitIr
scrub admitted_ids unit = record unit { relations = filter (visible admitted_ids) unit.relations }

unfoldable pub scrub_index : List String → String × List String → String × List String
scrub_index admitted_ids (key, ids) = (key, filter (includes admitted_ids) ids)

module _ {Facet : Type 0} (matches_facet : UnitIr → Facet → Bool) where
  unfoldable pub lifecycle_reasons : UnitIr → Option (List String) → List (Reason Facet)
  lifecycle_reasons unit none = []
  lifecycle_reasons unit (some lifecycles) =
      if includes lifecycles unit.lifecycle then [] else lifecycle_not_requested unit.lifecycle ∷ []

  unfoldable pub required_facet_reasons : UnitIr → Option (List Facet) → List (Reason Facet)
  required_facet_reasons unit none = []
  required_facet_reasons unit (some facets) =
      map facet_unsatisfied (filter (λ f. not (matches_facet unit f)) facets)

  -- What the loop over the units has found.
  pub record Sorted : Type 0 where
    pub admitted : List UnitIr
    pub filtered : List (AdmissionDenial Facet)
    pub acl_denied_count : ℕ

  -- One unit that the principal may see, by its reasons.
  abbrev pub note : UnitIr → List (Reason Facet) → Sorted → Sorted
  note unit [] s = record s { admitted = unit ∷ s.admitted }
  note unit (r ∷ rs) s = record s {
    filtered = record { unit_id = unit.id; reasons = r ∷ rs } ∷ s.filtered;
  }

  unfoldable pub sort_units : QueryRequest Facet → List UnitIr → Sorted
  sort_units request [] = record { admitted = []; filtered = []; acl_denied_count = 0 }
  sort_units request (unit ∷ units) =
      let s = sort_units request units in
      let seen =
        note unit
          (lifecycle_reasons unit request.lifecycles
            ++ required_facet_reasons unit request.required_facets)
          s in
      if is_cleared unit request.principal
      then seen
      else record s { acl_denied_count = suc s.acl_denied_count }

  abbrev pub denial_lt : AdmissionDenial Facet → AdmissionDenial Facet → Bool
  denial_lt a b = str_lt a.unit_id b.unit_id

  abbrev key_lt : String × List String → String × List String → Bool
  key_lt a b = str_lt a.0 b.0

  unfoldable pub admit : GraphIr → QueryRequest Facet → AdmissionResult Facet
  admit graph request =
      let s = sort_units request graph.units in
      let admitted_ids = map id_of s.admitted in
      record {
        graph = record graph {
          units = map (scrub admitted_ids) s.admitted;
          edges = filter (visible admitted_ids) graph.edges;
          indexes = map (scrub_index admitted_ids) (sort key_lt graph.indexes);
        };
        filtered = sort denial_lt s.filtered;
        acl_denied_count = s.acl_denied_count;
      }
