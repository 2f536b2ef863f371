-- ===== src/PluginHost/Capabilities.antt =====
-- packages/plugin-host/src/capabilities.ts: deny-by-default authorization. A Set is a list without
-- repetitions; the texts of the reasons are left out.
pub mod Laws
use prime_system.Base.{
  ℕ, zero, suc, String, Bool, true, false, not, ◌&&◌, ◌||◌, Option, none, some, List, [], ◌∷◌, ◌++◌,
  map, if◌then◌else◌, leb, eqb, codes, includes, filter, unique, str_lt, get_elem?,
}
use prime_system.Base.Sorting.{sort}

unfoldable pub is_alnum : ℕ → Bool
is_alnum c = (leb b'a' c && leb c b'z') || (leb b'0' c && leb c b'9')

unfoldable pub is_segment_char : ℕ → Bool
unfolding is_alnum
is_segment_char c = is_alnum c || eqb c b'.' || eqb c b'-'

-- CAPABILITY_SHAPE as an automaton: `fresh` at the start of a segment, `colon` once a `:` was read.
pub shape_from : Bool → Bool → List ℕ → Bool
shape_from true colon [] = false
shape_from true colon (c ∷ cs) = is_alnum c && shape_from false colon cs
shape_from false colon [] = colon
shape_from false colon (c ∷ cs) =
    let next_segment = shape_from true true cs in
    let same_segment = shape_from false colon cs in
    if eqb c b':' then next_segment else is_segment_char c && same_segment

unfoldable pub is_well_formed_capability : String → Bool
unfolding shape_from is_alnum is_segment_char
is_well_formed_capability candidate = shape_from true false (codes candidate)

-- `capability.split(":")` over code points.
split_colon : List ℕ → List ℕ → List (List ℕ)
split_colon current [] = current ∷ []
split_colon current (c ∷ cs) =
    let next_segment = split_colon [] cs in
    let same_segment = split_colon (current ++ c ∷ []) cs in
    if eqb c b':' then current ∷ next_segment else same_segment

unfoldable pub capability_segments : String → List (List ℕ)
unfolding split_colon
capability_segments capability = split_colon [] (codes capability)

-- `split(":", 1)[0]`; splitting always gives a segment.
unfoldable pub capability_namespace : String → Option (List ℕ)
capability_namespace capability = get_elem? (capability_segments capability) 0

pub data CapabilityRefusalCode : Type 0 where
  capability_malformed capability_not_declared capability_not_granted : CapabilityRefusalCode

pub data CapabilityDecision : Type 0 where
  granted : String → CapabilityDecision
  refused : String → CapabilityRefusalCode → CapabilityDecision

pub record CapabilityGrantSet : Type 0 where
  pub granted : List String
  pub declared : List String

pub record Authorization : Type 0 where
  pub grants : CapabilityGrantSet
  pub malformed : List String
  pub grants_without_declaration : List String
  pub declarations_without_grant : List String

unfoldable pub authorize_capabilities : List String → List String → Authorization
authorize_capabilities declared operator_grants =
    let declared_set = unique (filter is_well_formed_capability declared) in
    let granted_set =
      unique
        (filter (λ c. is_well_formed_capability c && includes declared_set c) operator_grants) in
    record {
      grants = record { granted = granted_set; declared = declared_set };
      malformed =
          sort str_lt (
            filter (λ c. not (is_well_formed_capability c)) (unique (declared ++ operator_grants)));
      grants_without_declaration = sort str_lt (
          filter (λ c. is_well_formed_capability c && not (includes declared_set c))
            operator_grants);
      declarations_without_grant =
          sort str_lt (filter (λ c. not (includes granted_set c)) declared_set);
    }

unfoldable pub check_capability : CapabilityGrantSet → String → CapabilityDecision
check_capability grants requested =
    if not (is_well_formed_capability requested)
    then refused requested capability_malformed
    else if not (includes grants.declared requested)
    then refused requested capability_not_declared
    else if not (includes grants.granted requested)
    then refused requested capability_not_granted
    else granted requested

-- NO_CAPABILITIES
unfoldable pub no_capabilities : CapabilityGrantSet
no_capabilities = record { granted = []; declared = [] }
