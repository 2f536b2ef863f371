-- ===== src/QueryEngine/Budget/Placed.antt =====
-- Which units planBudget of packages/query-engine/src/budget.ts assigns or rejects, and at what cost.
use prime_system.Base.{
  ℕ, ◌-◌, String, ◌==◌, ◌≡◌, refl, ap, ◌∙◌, arith, Bool, true, false, ◌||◌, List, [], ◌∷◌, ◌++◌,
  Option, none, some, some_injective, find, leb, map, string_eq, includes, includes-append,
  Bool-cases, inl, inr, eq_refl, In, here, there,
}
use mathlib.Core.Path.{subst}
use prime_system.Base.Maps.{get}
use prime_system.QueryEngine.Budget.{
  ProjectionAssignment, BudgetRejection, BudgetResult, cost_of, settle, rejection_of, assignment_of,
  place, place_all,
}

abbrev pub assigned : BudgetResult → List String
assigned r = map (λ (a : ProjectionAssignment). a.unit_id) r.assignments

abbrev pub rejected : BudgetResult → List String
rejected r = map (λ (x : BudgetRejection). x.unit_id) r.rejections

map-snoc {ℓ} :
    {A : Type ℓ} (f : A → String) (xs : List A) (x : A)
    → map f (xs ++ x ∷ []) ≡ map f xs ++ f x ∷ []
map-snoc f [] x = refl
map-snoc f (y ∷ xs) x = ap (λ l. f y ∷ l) (map-snoc f xs x)

includes-snoc :
    (xs : List String) (x a : String) → includes (xs ++ x ∷ []) a ≡ (includes xs a || x == a)
includes-snoc xs x a = includes-append xs (x ∷ []) a ∙ ground arith

module _ (token_cost : String → String → Option ℕ) (projections : List (String × ℕ)) where
  -- What an assignment costs: what the host measures, or else what the projection declares.
  pub record IsPriced (chain : List String) (x : ProjectionAssignment) : Type 0 where
    pub offered : includes chain x.projection_ref ≡ true
    pub measured : (n : ℕ) → token_cost x.unit_id x.projection_ref ≡ some n → x.tokens ≡ n
    pub declared :
        (n : ℕ)
        → token_cost x.unit_id x.projection_ref ≡ none
        → get x.projection_ref projections ≡ some n
        → x.tokens ≡ n

  -- The units that are settled so far, each assigned or rejected.
  pub record IsPlaced (chain : List String) (settled : String → Bool) (r : BudgetResult)
      : Type 0 where
    pub covers : (a : String) → settled a ≡ (includes (assigned r) a || includes (rejected r) a)
    pub priced : (x : ProjectionAssignment) → In x r.assignments → IsPriced chain x

  cost-IsPriced :
      (chain : List String) (unit_id ref : String)
      → includes chain ref ≡ true
      → IsPriced chain (assignment_of unit_id (ref, cost_of token_cost projections unit_id ref))
  unfolding cost_of
  cost-IsPriced chain unit_id ref i = record {
    offered = i;
    measured = λ n e. rw (e, cost_of) refl;
    declared = λ n e d. rw (e, d, cost_of) refl;
  }

  abbrev priced_in : String → List String → List (String × ℕ)
  priced_in unit_id chain = map (λ ref. (ref, cost_of token_cost projections unit_id ref)) chain

  find-cost :
      (unit_id : String) (n : ℕ) (chain : List String) (c : String × ℕ)
      → find (λ (entry : String × ℕ). leb entry.1 n) (priced_in unit_id chain) ≡ some c
      → (ref : String) × (includes chain ref ≡ true)
        × ((ref, cost_of token_cost projections unit_id ref) ≡ c)
  find-cost unit_id n [] c h = ground (arith, h)
  find-cost unit_id n (ref ∷ chain) c h =
      elim (Bool-cases (leb (cost_of token_cost projections unit_id ref) n)) [
        | inl e ↦ (ref, ground (arith, eq_refl ref), some_injective (ground (arith, h, e)))
        | inr e ↦
            let (other, i, s) = find-cost unit_id n chain c (ground (arith, h, e)) in
            (other, ground (arith, i), s)
      ]

  In-snoc {ℓ} :
      {A : Type ℓ} (P : A → Type 0) (xs : List A) (x : A)
      → ((a : A) → In a xs → P a)
      → P x
      → (a : A) → In a (xs ++ x ∷ [])
      → P a
  In-snoc P [] x f p a (here e) = subst P e p
  In-snoc P [] x f p a (there i) = elim i [ ]
  In-snoc P (y ∷ xs) x f p a (here e) = f a (here e)
  In-snoc P (y ∷ xs) x f p a (there i) = In-snoc P xs x (λ b j. f b (there j)) p a i

  settle-IsPlaced :
      (max_tokens : ℕ) (unit_id : String) (chain : List String) (cost : String × ℕ)
      (costs : List (String × ℕ)) (settled : String → Bool) (r : BudgetResult)
      (found : Option (String × ℕ))
      → ((c : String × ℕ) → found ≡ some c → IsPriced chain (assignment_of unit_id c))
      → IsPlaced chain settled r
      → IsPlaced chain
          (λ a. settled a || unit_id == a)
          (settle max_tokens unit_id cost costs r found)
  unfolding settle
  settle-IsPlaced max_tokens unit_id chain cost costs settled r none f p = record {
    covers = λ a. ground (
      arith,
      p.covers a,
      ap (λ l. includes l a)
          (map-snoc (λ (x : BudgetRejection). x.unit_id) r.rejections
            (rejection_of max_tokens unit_id cost costs r)),
      includes-snoc (rejected r) unit_id a,
    );
    priced = p.priced;
  }
  settle-IsPlaced max_tokens unit_id chain cost costs settled r (some c) f p = record {
    covers = λ a. ground (
      arith,
      p.covers a,
      ap (λ l. includes l a)
          (map-snoc (λ (x : ProjectionAssignment). x.unit_id) r.assignments
            (assignment_of unit_id c)),
      includes-snoc (assigned r) unit_id a,
    );
    priced = In-snoc (IsPriced chain) r.assignments (assignment_of unit_id c) p.priced (f c refl);
  }

  pub place_all-IsPlaced :
      (max_tokens : ℕ) (ref : String) (refs ordered : List String) (settled : String → Bool)
      (r last : BudgetResult)
      → IsPlaced (ref ∷ refs) settled r
      → place_all token_cost projections max_tokens (ref ∷ refs) ordered r ≡ some last
      → IsPlaced (ref ∷ refs) (λ a. settled a || includes ordered a) last
  unfolding place_all place
  place_all-IsPlaced max_tokens ref refs [] settled r last p h =
      subst (IsPlaced (ref ∷ refs) (λ a. settled a || false)) (some_injective h)
        (record { covers = λ a. ground (arith, p.covers a); priced = p.priced })
  place_all-IsPlaced max_tokens ref refs (unit_id ∷ ordered) settled r last p h =
      let rest =
        place_all-IsPlaced max_tokens ref refs ordered (λ a. settled a || unit_id == a) _ last
          (settle-IsPlaced max_tokens unit_id (ref ∷ refs) _ _ settled r _
            (λ c f.
              let (found, i, s) =
                find-cost unit_id (max_tokens - r.consumed_tokens) (ref ∷ refs) c f in
              subst (λ x. IsPriced (ref ∷ refs) (assignment_of unit_id x)) s
                (cost-IsPriced (ref ∷ refs) unit_id found i))
            p)
          h in
      record { covers = λ a. ground (arith, rest.covers a); priced = rest.priced }
