-- ===== src/QueryEngine/Degrade/Laws.antt =====
-- degradeToFit of packages/query-engine/src/degrade.ts.
use prime_system.Base.{
  distinct, ℕ, ◌+◌, ◌≤◌, String, string_eq, ◌==◌, ◌≡◌, ◌≢◌, refl, sym, ap, ◌∙◌, arith, Bool, true,
  false, not, List, [], ◌∷◌, Option, none, if◌then◌else◌, find, any, leb, map, eq_iff, eq_refl,
  includes, Option-cases, find_holds, Bool-cases, inl, inr,
}
use prime_system.QueryEngine.Budget.{ProjectionAssignment}
use prime_system.QueryEngine.Budget.Laws.{total}
use prime_system.QueryEngine.Degrade.{
  within_budget, degraded_to_fit, exceeded_at_cheapest, DegradationResult, degraded, assign_all,
  current, richer_than, Upgrading, total_at, upgrade, assignment_in, assignment_at, is_degraded,
  exceeded, fitted, degrade_checked, undeclared, degrade_to_fit, last_of,
}
use prime_system.QueryEngine.Degrade.Loads.{IsLoading, group_loads-IsLoading}
use prime_system.QueryEngine.Degrade.Spent.{
  current-assign_all, spent-assignments, spent-base, upgrade-IsPaid,
}

find-none : (p : String → Bool) (xs : List String) → find p xs ≡ none → any p xs ≡ false
find-none p [] h = refl
find-none p (x ∷ xs) h = elim (Bool-cases (p x)) [
  | inl e ↦ ground (arith, h, e)
  | inr e ↦ ground (arith, find-none p xs, h, e)
]

any-false :
    (p : String → Bool) (xs : List String) (x : String)
    → any p xs ≡ false
    → includes xs x ≡ true
    → p x ≡ false
any-false p [] x h i = ground (arith, i)
any-false p (y ∷ xs) x h i = elim (Bool-cases (y == x)) [
  | inl e ↦ ap p (sym ((eq_iff y x).0 e)) ∙ ground (arith, h)
  | inr e ↦ any-false p xs x (ground (arith, h)) (ground (arith, i, e))
]

not_exceeded :
    (cheaper : Bool)
    → (if cheaper then degraded_to_fit else within_budget) ≡ exceeded_at_cheapest
    → ⊥
not_exceeded true h = ground (arith, h)
not_exceeded false h = ground (arith, h)

not_cheaper :
    (cheaper : Bool)
    → (if cheaper then degraded_to_fit else within_budget) ≡ within_budget
    → cheaper ≡ false
not_cheaper true h = ground (arith, h)
not_cheaper false h = refl

includes-last_of :
    (ref : String) (refs : List String) → includes (ref ∷ refs) (last_of ref refs) ≡ true
includes-last_of ref [] = ground (arith, eq_refl ref)
includes-last_of ref (r ∷ rs) = ground (arith, includes-last_of r rs)

module _ (token_cost : String → String → Option ℕ) (projections : List (String × ℕ)) where
  -- A degradation that keeps every unit and says what it spends: `tier` is the tier of each unit.
  pub record IsHonest (max_tokens : ℕ) (chain ordered : List String) (r : DegradationResult)
      : Type 0 where
    pub keeps : map ProjectionAssignment.unit_id r.assignments ≡ ordered
    pub sums : total r.assignments ≡ r.handoff.consumed_tokens
    pub tier : String → String
    pub assigned : map ProjectionAssignment.projection_ref r.assignments ≡ map tier ordered
    pub loads : IsLoading tier ordered r.projection_loads
    pub fits :
        r.handoff.state ≢ exceeded_at_cheapest
        → (r.handoff.consumed_tokens ≤ max_tokens) × (r.handoff.shortfall ≡ 0)
    pub exceeds :
        r.handoff.state ≡ exceeded_at_cheapest
        → (r.handoff.consumed_tokens ≡ max_tokens + r.handoff.shortfall)
          × any (λ ref. leb (total_at token_cost projections ordered ref) max_tokens) chain ≡ false
    pub preferred :
        r.handoff.state ≡ within_budget
        → (u : String) → includes ordered u ≡ true
        → tier u ≡ r.handoff.preferred_projection

  map-assignments :
      (m : List (String × String)) (us : List String)
      → (map ProjectionAssignment.unit_id (map (assignment_in token_cost projections m) us) ≡ us)
        × (map ProjectionAssignment.projection_ref (map (assignment_in token_cost projections m) us)
            ≡ map (current m) us)
  map-assignments m [] = (refl, refl)
  map-assignments m (u ∷ us) =
      let (e, f) = map-assignments m us in (ap (λ l. u ∷ l) e, ap (λ l. current m u ∷ l) f)

  assignments_at :
      (base : String) (m : List (String × String)) (us : List String)
      → ((u : String) → includes us u ≡ true → current m u ≡ base)
      → map (assignment_at token_cost projections base) us
        ≡ map (assignment_in token_cost projections m) us
  assignments_at base m [] h = refl
  assignments_at base m (u ∷ us) h = rw (h u (ground (arith, eq_refl u))) (
      ap (λ l. assignment_at token_cost projections base u ∷ l)
        (assignments_at base m us (λ v i. h v (ground (arith, i)))))

  current-base :
      (base : String) (us : List String) (u : String)
      → includes us u ≡ true
      → current (assign_all base us []) u ≡ base
  current-base base us u i = current-assign_all base u us [] ∙ ground (arith, i)

  exceeded-IsHonest :
      (max_tokens : ℕ) (chain : List String) (preferred cheapest : String) (ordered : List String)
      → any (λ ref. leb (total_at token_cost projections ordered ref) max_tokens) chain ≡ false
      → leb (total_at token_cost projections ordered cheapest) max_tokens ≡ false
      → IsHonest max_tokens chain ordered
          (exceeded token_cost projections max_tokens preferred cheapest ordered)
  unfolding exceeded
  exceeded-IsHonest max_tokens chain preferred cheapest ordered none_fits too_much =
      let m = assign_all cheapest ordered [] in
      let at = assignments_at cheapest m ordered (current-base cheapest ordered) in
      let (ids, refs) = map-assignments m ordered in
      record {
        keeps = ap (map ProjectionAssignment.unit_id) at ∙ ids;
        sums =
            ap total at
            ∙ spent-assignments token_cost projections m ordered
            ∙ spent-base token_cost projections cheapest m ordered (current-base cheapest ordered);
        tier = current m;
        assigned = ap (map ProjectionAssignment.projection_ref) at ∙ refs;
        loads = group_loads-IsLoading m ordered;
        fits = λ h. absurd (h refl);
        exceeds = λ h. (ground (arith, too_much), none_fits);
        preferred = λ h. ground (arith, h);
      }

  fitted-IsHonest :
      (max_tokens : ℕ) (preferred : String) (chain : List String) (base : String)
      (ordered : List String)
      → distinct ordered ≡ true
      → leb (total_at token_cost projections ordered base) max_tokens ≡ true
      → IsHonest max_tokens chain ordered
          (fitted token_cost projections max_tokens preferred chain base ordered)
  unfolding fitted
  fitted-IsHonest max_tokens preferred chain base ordered d enough =
      let start : Upgrading = record {
        assigned = assign_all base ordered [];
        consumed = total_at token_cost projections ordered base;
      } in
      let s = upgrade token_cost projections max_tokens (richer_than base chain) ordered start in
      let paid =
        upgrade-IsPaid token_cost projections max_tokens (richer_than base chain) ordered ordered
          start d (λ u i. i)
          (record {
            sums =
                spent-base token_cost projections base start.assigned ordered
                  (current-base base ordered);
            fits = ground (arith, enough);
          }) in
      let (ids, refs) = map-assignments s.assigned ordered in
      let cheaper = is_degraded token_cost projections s.assigned preferred ordered in
      record {
        keeps = ids;
        sums = spent-assignments token_cost projections s.assigned ordered ∙ paid.sums;
        tier = current s.assigned;
        assigned = refs;
        loads = group_loads-IsLoading s.assigned ordered;
        fits = λ h. (paid.fits, refl);
        exceeds = λ h. absurd (not_exceeded cheaper h);
        preferred = λ h u i. (eq_iff _ _).0 (
            ground (
              arith,
              any-false (λ v. not (current s.assigned v == preferred)) ordered u
                  (not_cheaper cheaper h) i,
            ));
      }

  degrade_checked-IsHonest :
      (max_tokens : ℕ) (preferred : String) (refs ordered : List String)
      → distinct ordered ≡ true
      → IsHonest max_tokens
          (preferred ∷ refs)
          ordered
          (degrade_checked token_cost projections max_tokens preferred refs ordered)
  unfolding degrade_checked
  degrade_checked-IsHonest max_tokens preferred refs [] d = record {
    keeps = refl;
    sums = refl;
    tier = λ u. u;
    assigned = refl;
    loads = record { units = refl; tiers = refl; runs = refl };
    fits = λ h. (omega arith, refl);
    exceeds = λ h. ground (arith, h);
    preferred = λ h u i. ground (arith, i);
  }
  degrade_checked-IsHonest max_tokens preferred refs (u ∷ us) d =
      let fits_at : String → Bool =
        λ ref. leb (total_at token_cost projections (u ∷ us) ref) max_tokens in
      elim (Option-cases (find fits_at (preferred ∷ refs))) [
        | inl e ↦
            let none_fits = find-none fits_at (preferred ∷ refs) e in
            rw (e, degrade_checked)
              (exceeded-IsHonest max_tokens (preferred ∷ refs) preferred (last_of preferred refs)
                (u ∷ us) none_fits
                (any-false fits_at (preferred ∷ refs) (last_of preferred refs) none_fits
                  (includes-last_of preferred refs)))
        | inr (base, e) ↦
            rw (e, degrade_checked)
              (fitted-IsHonest max_tokens preferred (preferred ∷ refs) base (u ∷ us) d
                (find_holds fits_at (preferred ∷ refs) base e))
      ]

  -- With a positive budget and a chain of declared projections, distinct units are never dropped:
  -- the assignments have the units in load order, the loads are runs of one tier each that make up
  -- the same order, and the tokens consumed are those of the assignments. Unless it says that the
  -- cheapest projection is too much, these are at most the budget; if it says so, no projection of
  -- the chain fits the whole order and the shortfall is what is missing. A result within budget
  -- gives every unit the preferred projection.
  pub degrade_to_fit-IsHonest :
      (max_tokens : ℕ) (preferred : String) (refs ordered : List String)
      → 1 ≤ max_tokens
      → undeclared token_cost projections (preferred ∷ refs) ≡ []
      → distinct ordered ≡ true
      → (r : DegradationResult) × (degrade_to_fit token_cost projections ordered
            (preferred ∷ refs)
            max_tokens
          ≡ degraded r)
        × IsHonest max_tokens (preferred ∷ refs) ordered r
  unfolding degrade_to_fit
  degrade_to_fit-IsHonest max_tokens preferred refs ordered h known d =
      (_, ground (arith, known), degrade_checked-IsHonest max_tokens preferred refs ordered d)
