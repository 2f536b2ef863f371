-- ===== src/QueryEngine/Admission/Laws.antt =====
-- admit of packages/query-engine/src/admission.ts.
use prime_system.Base.{
  ℕ, String, ◌≡◌, refl, sym, ap, ◌∙◌, Bool, true, false, ◌&&◌, ◌||◌, List, [], ◌∷◌, ◌++◌, ◌==◌,
  eq_iff, suc, if◌then◌else◌, filter, map, includes, any, arith, includes-append, includes-filter,
  length-sort, length, ◌+◌,
}
use prime_system.QueryEngine.Admission.{
  Edge, UnitIr, GraphIr, QueryRequest, Reason, Sorted, denial_lt, is_cleared, visible, id_of, scrub,
  scrub_index, note, sort_units, admit, lifecycle_reasons, required_facet_reasons,
}

abbrev pub endpoints : List Edge → List String
endpoints [] = []
endpoints (e ∷ es) = e.from ∷ e.to ∷ endpoints es

abbrev pub unit_mentions : List UnitIr → List String
unit_mentions [] = []
unit_mentions (u ∷ us) = u.id ∷ endpoints u.relations ++ unit_mentions us

abbrev pub index_mentions : List (String × List String) → List String
index_mentions [] = []
index_mentions ((key, ids) ∷ rest) = ids ++ index_mentions rest

-- The ids in the places of a graph that hold unit ids: units, ends of edges and relations, indexes.
abbrev pub mentions : GraphIr → List String
mentions g = unit_mentions g.units ++ (endpoints g.edges ++ index_mentions g.indexes)

endpoints-visible :
    (ids : List String) (es : List Edge) (a : String)
    → includes (endpoints (filter (visible ids) es)) a ≡ true
    → includes ids a ≡ true
unfolding visible
endpoints-visible ids [] a h = ground arith
endpoints-visible ids (e ∷ es) a h =
    ground (arith, endpoints-visible ids es a, eq_iff e.from a, eq_iff e.to a)

unit_mentions-scrub :
    (ids : List String) (us : List UnitIr) (a : String)
    → includes (unit_mentions (map (scrub ids) us)) a ≡ true
    → (includes ids a || includes (map id_of us) a) ≡ true
unfolding scrub
unit_mentions-scrub ids [] a h = ground arith
unit_mentions-scrub ids (u ∷ us) a h = ground (
  arith,
  unit_mentions-scrub ids us a,
  endpoints-visible ids u.relations a,
  includes-append (endpoints (filter (visible ids) u.relations))
      (unit_mentions (map (scrub ids) us)) a,
)

index_mentions-scrub :
    (ids : List String) (rows : List (String × List String)) (a : String)
    → includes (index_mentions (map (scrub_index ids) rows)) a ≡ true
    → includes ids a ≡ true
unfolding scrub_index
index_mentions-scrub ids [] a h = ground arith
index_mentions-scrub ids ((key, names) ∷ rows) a h = ground (
  arith,
  index_mentions-scrub ids rows a,
  includes-filter (includes ids) names a,
  includes-append (filter (includes ids) names) (index_mentions (map (scrub_index ids) rows)) a,
)

scrubbed-mentions :
    (ids : List String) (us : List UnitIr) (es : List Edge) (rows : List (String × List String))
    (a : String)
    → map id_of us ≡ ids
    → includes
        (unit_mentions (map (scrub ids) us)
          ++ (endpoints (filter (visible ids) es) ++ index_mentions (map (scrub_index ids) rows)))
        a
      ≡ true
    → includes ids a ≡ true
scrubbed-mentions ids us es rows a e h = ground (
  arith,
  e,
  unit_mentions-scrub ids us a,
  endpoints-visible ids es a,
  index_mentions-scrub ids rows a,
  ap (λ l. includes l a) e,
  includes-append (unit_mentions (map (scrub ids) us))
      (endpoints (filter (visible ids) es) ++ index_mentions (map (scrub_index ids) rows)) a,
  includes-append (endpoints (filter (visible ids) es))
      (index_mentions (map (scrub_index ids) rows)) a,
  h,
)

length-scrub : (ids : List String) (us : List UnitIr) → length (map (scrub ids) us) ≡ length us
length-scrub ids [] = refl
length-scrub ids (u ∷ us) = ap suc (length-scrub ids us)

module _ {Facet : Type 0} (matches_facet : UnitIr → Facet → Bool) where
  -- A unit with this id that the principal may see.
  abbrev pub may_see : QueryRequest Facet → String → UnitIr → Bool
  may_see request a unit = unit.id == a && is_cleared unit request.principal

  note-admitted :
      (unit : UnitIr) (reasons : List (Reason Facet)) (s : Sorted matches_facet) (a : String)
      → includes (map id_of (note matches_facet unit reasons s).admitted) a ≡ true
      → (unit.id == a || includes (map id_of s.admitted) a) ≡ true
  note-admitted unit [] s a h = h
  note-admitted unit (r ∷ rs) s a h = ground (arith, h)

  admitted-if :
      (b : Bool) (x y : Sorted matches_facet) (a : String)
      → includes (map id_of (if b then x else y).admitted) a
        ≡ (if b then includes (map id_of x.admitted) a else includes (map id_of y.admitted) a)
  admitted-if true x y a = refl
  admitted-if false x y a = refl

  admitted-cleared :
      (request : QueryRequest Facet) (units : List UnitIr) (a : String)
      → includes (map id_of (sort_units matches_facet request units).admitted) a ≡ true
      → any (may_see request a) units ≡ true
  unfolding sort_units
  admitted-cleared request [] a h = ground arith
  admitted-cleared request (unit ∷ units) a h = ground (
    arith,
    admitted-cleared request units a,
    sym (admitted-if (is_cleared unit request.principal) _ _ a) ∙ h,
    note-admitted unit
        (lifecycle_reasons matches_facet unit request.lifecycles
          ++ required_facet_reasons matches_facet unit request.required_facets)
        (sort_units matches_facet request units) a,
  )

  -- For whatever id the admitted graph has as a unit, at an end of an edge or of a unit's relation,
  -- or in an index, some unit of the graph has that id and the principal is cleared for it. Of the
  -- texts that are passed on, such as diagnostics and fields, nothing is stated.
  pub admit-withholds :
      (graph : GraphIr) (request : QueryRequest Facet) (a : String)
      → includes (mentions (admit matches_facet graph request).graph) a ≡ true
      → any (may_see request a) graph.units ≡ true
  unfolding admit
  admit-withholds graph request a h =
      let ids = map id_of (sort_units matches_facet request graph.units).admitted in
      admitted-cleared request graph.units a (scrubbed-mentions ids _ graph.edges _ a refl h)

  note-accounts :
      (unit : UnitIr) (reasons : List (Reason Facet)) (s : Sorted matches_facet)
      → length (note matches_facet unit reasons s).admitted
          + length (note matches_facet unit reasons s).filtered
          + (note matches_facet unit reasons s).acl_denied_count
        ≡ suc (length s.admitted + length s.filtered + s.acl_denied_count)
  note-accounts unit [] s = ground arith
  note-accounts unit (r ∷ rs) s = ground arith

  accounts-if :
      (b : Bool) (x y : Sorted matches_facet) (n : ℕ)
      → length x.admitted + length x.filtered + x.acl_denied_count ≡ n
      → length y.admitted + length y.filtered + y.acl_denied_count ≡ n
      → length (if b then x else y).admitted
          + length (if b then x else y).filtered
          + (if b then x else y).acl_denied_count
        ≡ n
  accounts-if true x y n h k = h
  accounts-if false x y n h k = k

  sort_units-accounts :
      (request : QueryRequest Facet) (units : List UnitIr)
      → length (sort_units matches_facet request units).admitted
          + length (sort_units matches_facet request units).filtered
          + (sort_units matches_facet request units).acl_denied_count
        ≡ length units
  unfolding sort_units
  sort_units-accounts request [] = refl
  sort_units-accounts request (unit ∷ units) =
      accounts-if (is_cleared unit request.principal) _ _ (suc (length units))
        (note-accounts unit _ (sort_units matches_facet request units)
          ∙ ap suc (sort_units-accounts request units))
        (ground (arith, sort_units-accounts request units))

  -- Every unit of the graph is admitted, filtered with reasons, or counted as denied.
  pub admit-accounts :
      (graph : GraphIr) (request : QueryRequest Facet)
      → length (admit matches_facet graph request).graph.units
          + length (admit matches_facet graph request).filtered
          + (admit matches_facet graph request).acl_denied_count
        ≡ length graph.units
  unfolding admit
  admit-accounts graph request =
      rw
        (
          length-scrub (map id_of (sort_units matches_facet request graph.units).admitted)
              (sort_units matches_facet request graph.units).admitted,
          length-sort (denial_lt matches_facet)
              (sort_units matches_facet request graph.units).filtered,
        )
        (sort_units-accounts request graph.units)
