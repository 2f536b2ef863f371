-- ===== src/PluginHost/Capabilities/Laws.antt =====
-- The grammar and the two gates of packages/plugin-host/src/capabilities.ts.
use prime_system.Base.{
  ℕ, ◌≤◌, String, ◌≡◌, refl, inl, inr, Bool, true, false, not, ◌&&◌, ◌||◌, List, [], ◌∷◌, ◌++◌,
  if◌then◌else◌, leb, eqb, codes, includes, filter, unique, arith, length, every, Bool-cases,
  includes-unique, includes-filter, includes-sort, includes-append,
}
use prime_system.PluginHost.Capabilities.{
  is_alnum, is_segment_char, shape_from, is_well_formed_capability, split_colon,
  capability_segments, capability_malformed, capability_not_declared, capability_not_granted,
  granted, refused, authorize_capabilities, check_capability,
}

-- One segment of the grammar, `[a-z0-9][a-z0-9.-]*`.
abbrev pub is_segment : List ℕ → Bool
is_segment [] = false
is_segment (c ∷ cs) = is_alnum c && every is_segment_char cs

every-snoc : (p : ℕ → Bool) (cs : List ℕ) (c : ℕ) → every p (cs ++ c ∷ []) ≡ (every p cs && p c)
every-snoc p [] c = ground arith
every-snoc p (d ∷ cs) c = ground (arith, every-snoc p cs c)

length-split_colon : (current cs : List ℕ) → 1 ≤ length (split_colon current cs)
unfolding split_colon
length-split_colon current [] = omega arith
length-split_colon current (c ∷ cs) = ground (arith, length-split_colon (current ++ c ∷ []) cs)

colon-not_alnum : (c : ℕ) → eqb c b':' ≡ true → is_alnum c ≡ false
unfolding is_alnum
colon-not_alnum c h = ground arith

bad_segment :
    (d : ℕ) (ds cs : List ℕ)
    → is_segment (d ∷ ds) ≡ false
    → every is_segment (split_colon (d ∷ ds) cs) ≡ false
unfolding split_colon
bad_segment d ds [] h = ground arith
bad_segment d ds (c ∷ cs) h =
    ground (arith, every-snoc is_segment_char ds c, bad_segment d (ds ++ c ∷ []) cs)

mutual
  unfolding shape_from split_colon

  shape_fresh :
      (cs : List ℕ) (colon : Bool)
      → shape_from true colon cs
        ≡ (every is_segment (split_colon [] cs) && (colon || leb 2 (length (split_colon [] cs))))
  shape_fresh [] colon = refl
  shape_fresh (c ∷ cs) colon =
      ground (arith, colon-not_alnum c, shape_inside cs colon c [], bad_segment c [] cs)

  shape_inside :
      (cs : List ℕ) (colon : Bool) (d : ℕ) (ds : List ℕ)
      → is_segment (d ∷ ds) ≡ true
      → shape_from false colon cs ≡ (
          every is_segment (split_colon (d ∷ ds) cs)
          && (colon || leb 2 (length (split_colon (d ∷ ds) cs))))
  shape_inside [] colon d ds h = ground arith
  shape_inside (c ∷ cs) colon d ds h = elim (Bool-cases (eqb c b':')) [
    | inl e ↦ rw (e, h, shape_fresh cs true) (ground (arith, length-split_colon [] cs))
    | inr e ↦ rw e (elim (Bool-cases (is_segment_char c)) [
      | inl ok ↦
          rw ok (
            shape_inside cs colon d (ds ++ c ∷ [])
              (ground (arith, every-snoc is_segment_char ds c)))
      | inr bad ↦
          rw
            (bad, bad_segment d (ds ++ c ∷ []) cs (ground (arith, every-snoc is_segment_char ds c)))
    ])
  ]

-- A text is a capability exactly when splitting it at `:` gives at least two segments, each of
-- which starts with a lower-case letter or digit and goes on with such, dots and dashes.
pub well_formed-segments :
    (c : String)
    → is_well_formed_capability c
      ≡ (every is_segment (capability_segments c) && leb 2 (length (capability_segments c)))
unfolding is_well_formed_capability capability_segments
well_formed-segments c = shape_fresh (codes c) false

-- After authorization a request is granted exactly when it is well formed, stands in the manifest
-- and stands among the operator's grants; otherwise the first of these gates that is shut, in this
-- order, is the reason of the refusal.
pub check-authorize :
    (declared operator_grants : List String) (requested : String)
    → check_capability (authorize_capabilities declared operator_grants).grants requested ≡ (
        if is_well_formed_capability requested
        then if includes declared requested
          then if includes operator_grants requested
            then granted requested
            else refused requested capability_not_granted
          else refused requested capability_not_declared
        else refused requested capability_malformed)
unfolding check_capability authorize_capabilities
check-authorize declared operator_grants requested =
    let declared_set = unique (filter is_well_formed_capability declared) in
    ground (
      arith,
      includes-unique (filter is_well_formed_capability declared) requested,
      includes-filter is_well_formed_capability declared requested,
      includes-unique
          (filter (λ c. is_well_formed_capability c && includes declared_set c) operator_grants)
          requested,
      includes-filter (λ c. is_well_formed_capability c && includes declared_set c) operator_grants
          requested,
    )

-- What an operator may grant of what the plugin declares, as the lists that are reported: the
-- effective grants are the declared ones that are granted, and every well-formed entry of either
-- list that the other lacks is named.
pub authorize_reports :
    (declared operator_grants : List String) (c : String)
    → let a = authorize_capabilities declared operator_grants in
      (includes a.grants.granted c
        ≡ (is_well_formed_capability c && includes declared c && includes operator_grants c))
      × (includes a.grants_without_declaration c ≡ (
          is_well_formed_capability c && not (includes declared c) && includes operator_grants c))
      × (includes a.declarations_without_grant c ≡ (
          is_well_formed_capability c && includes declared c && not (includes operator_grants c)))
      × (includes a.malformed c ≡ (
          not (is_well_formed_capability c) && (includes declared c || includes operator_grants c)))
unfolding authorize_capabilities
authorize_reports declared operator_grants c = (
  grind (arith, includes-unique, includes-filter),
  grind (arith, includes-unique, includes-filter, includes-sort),
  grind (arith, includes-unique, includes-filter, includes-sort),
  grind (arith, includes-unique, includes-filter, includes-sort, includes-append),
)

pub granted_least :
    (declared operator_grants : List String) (c : String)
    → includes (authorize_capabilities declared operator_grants).grants.granted c ≡ true
    → (includes declared c && includes operator_grants c) ≡ true
unfolding authorize_capabilities
granted_least declared operator_grants c h =
    let declared_set = unique (filter is_well_formed_capability declared) in
    ground (
      arith,
      h,
      includes-unique
          (filter (λ x. is_well_formed_capability x && includes declared_set x) operator_grants) c,
      includes-filter (λ x. is_well_formed_capability x && includes declared_set x) operator_grants
          c,
      includes-unique (filter is_well_formed_capability declared) c,
      includes-filter is_well_formed_capability declared c,
    )
