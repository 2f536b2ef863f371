-- ===== src/QueryEngine/Degrade/Loads.antt =====
-- groupLoads of packages/query-engine/src/degrade.ts.
use prime_system.Base.{
  String, string_eq, ◌==◌, ◌≡◌, refl, eq_refl, sym, ap, ◌∙◌, arith, Bool, true, not, ◌&&◌, List, [],
  ◌∷◌, ◌++◌, if-holds, eq_iff, every,
}
use mathlib.Core.Path.{subst}
use mathlib.Core.List.{append-nil, append_assoc}
use prime_system.QueryEngine.Degrade.{ProjectionLoad, current, add_load, group_from, group_loads}

abbrev pub units_of : List ProjectionLoad → List String
units_of [] = []
units_of (l ∷ ls) = l.unit_ids ++ units_of ls

abbrev pub differs : ProjectionLoad → List ProjectionLoad → Bool
differs l [] = true
differs l (l' ∷ ls) = not (l.projection_ref == l'.projection_ref)

-- Two loads that follow each other have different tiers.
abbrev pub is_grouped : List ProjectionLoad → Bool
is_grouped [] = true
is_grouped (l ∷ ls) = differs l ls && is_grouped ls

-- Every unit of a load has the load's tier.
abbrev pub has_tier : (String → String) → ProjectionLoad → Bool
has_tier tier l = every (λ u. tier u == l.projection_ref) l.unit_ids

every-append {ℓ} :
    {A : Type ℓ} (p : A → Bool) (xs ys : List A) → every p (xs ++ ys) ≡ (every p xs && every p ys)
every-append p [] ys = refl
every-append p (x ∷ xs) ys = ground (arith, every-append p xs ys)

units_of-add_load :
    (u ref : String) (ls : List ProjectionLoad)
    → units_of (add_load u ref ls) ≡ units_of ls ++ u ∷ []
unfolding add_load
units_of-add_load u ref [] = refl
units_of-add_load u ref (l ∷ []) =
    if-holds (λ ls. units_of ls ≡ (l.unit_ids ++ []) ++ u ∷ []) (l.projection_ref == ref) _ _
      (λ h. simp append-nil) (λ h. simp append-nil)
units_of-add_load u ref (l ∷ l' ∷ ls) =
    ap (λ us. l.unit_ids ++ us) (units_of-add_load u ref (l' ∷ ls))
    ∙ sym (append_assoc l.unit_ids _ (u ∷ []))

tiers-add_load :
    (tier : String → String) (u : String) (ls : List ProjectionLoad)
    → every (has_tier tier) ls ≡ true
    → every (has_tier tier) (add_load u (tier u) ls) ≡ true
unfolding add_load
tiers-add_load tier u [] h = ground (arith, eq_refl (tier u))
tiers-add_load tier u (l ∷ []) h =
    if-holds (λ ls. every (has_tier tier) ls ≡ true) (l.projection_ref == tier u) _ _
      (λ e. ground (
        arith,
        h,
        eq_refl (tier u),
        every-append (λ v. tier v == tier u) l.unit_ids (u ∷ []),
        ap (λ ref. every (λ v. tier v == ref) l.unit_ids) ((eq_iff l.projection_ref (tier u)).0 e),
      ))
      (λ e. ground (arith, h, eq_refl (tier u)))
tiers-add_load tier u (l ∷ l' ∷ ls) h = ground (arith, h, tiers-add_load tier u (l' ∷ ls))

differs-add_load :
    (l l' : ProjectionLoad) (u ref : String) (ls : List ProjectionLoad)
    → differs l (add_load u ref (l' ∷ ls)) ≡ differs l (l' ∷ ls)
unfolding add_load
differs-add_load l l' u ref [] =
    if-holds (λ ls. differs l ls ≡ differs l (l' ∷ [])) (l'.projection_ref == ref) _ _
      (λ e. ap (λ r. not (l.projection_ref == r)) (sym ((eq_iff l'.projection_ref ref).0 e)))
      (λ e. refl)
differs-add_load l l' u ref (l'' ∷ ls) = refl

is_grouped-add_load :
    (u ref : String) (ls : List ProjectionLoad)
    → is_grouped ls ≡ true
    → is_grouped (add_load u ref ls) ≡ true
unfolding add_load
is_grouped-add_load u ref [] h = refl
is_grouped-add_load u ref (l ∷ []) h =
    if-holds (λ ls. is_grouped ls ≡ true) (l.projection_ref == ref) _ _ (λ e. refl)
      (λ e. ground (arith, e))
is_grouped-add_load u ref (l ∷ l' ∷ ls) h =
    ground (arith, h, differs-add_load l l' u ref ls, is_grouped-add_load u ref (l' ∷ ls))

-- Loads of the order, in runs of one tier each.
pub record IsLoading (tier : String → String) (ordered : List String) (loads : List ProjectionLoad)
    : Type 0 where
  pub units : units_of loads ≡ ordered
  pub tiers : every (has_tier tier) loads ≡ true
  pub runs : is_grouped loads ≡ true

group_from-IsLoading :
    (m : List (String × String)) (done us : List String) (loads : List ProjectionLoad)
    → IsLoading (current m) done loads
    → IsLoading (current m) (done ++ us) (group_from m us loads)
unfolding group_from
group_from-IsLoading m done [] loads h = record {
  units = h.units ∙ sym (append-nil done);
  tiers = h.tiers;
  runs = h.runs;
}
group_from-IsLoading m done (u ∷ us) loads h =
    subst (λ all. IsLoading (current m) all (group_from m us (add_load u (current m u) loads)))
      (append_assoc done (u ∷ []) us)
      (group_from-IsLoading m (done ++ u ∷ []) us _ (record {
        units = units_of-add_load u (current m u) loads ∙ ap (λ xs. xs ++ u ∷ []) h.units;
        tiers = tiers-add_load (current m) u loads h.tiers;
        runs = is_grouped-add_load u (current m u) loads h.runs;
      }))

pub group_loads-IsLoading :
    (m : List (String × String)) (ordered : List String)
    → IsLoading (current m) ordered (group_loads ordered m)
unfolding group_loads
group_loads-IsLoading m ordered =
    group_from-IsLoading m [] ordered [] (record { units = refl; tiers = refl; runs = refl })
