-- ===== src/QueryEngine/Degrade/Spent.antt =====
-- What the upgrade pass of degradeToFit spends, packages/query-engine/src/degrade.ts.
use prime_system.Base.{
  distinct, ℕ, ◌+◌, ◌≤◌, String, string_eq, ◌==◌, ◌≡◌, refl, ap, ◌∙◌, arith, true, false, List, [],
  ◌∷◌, Option, none, some, if◌then◌else◌, find, map, eq_iff, eq_refl, includes, find_holds,
  Bool-cases, inl, inr,
}
use prime_system.Base.Maps.{set, get-set}
use prime_system.QueryEngine.Budget.{cost_of}
use prime_system.QueryEngine.Budget.Laws.{total}
use prime_system.QueryEngine.Degrade.{
  assign_all, current, Upgrading, total_at, affords, take_up, upgrade_unit, upgrade, assignment_in,
}

current-set :
    (k u v : String) (m : List (String × String))
    → current (set k v m) u ≡ (if k == u then v else current m u)
current-set k u v m = ground (arith, get-set k u v m)

current-set_self : (k v : String) (m : List (String × String)) → current (set k v m) k ≡ v
current-set_self k v m = current-set k k v m ∙ ground (arith, eq_refl k)

pub current-assign_all :
    (base u : String) (us : List String) (m : List (String × String))
    → current (assign_all base us m) u ≡ (if includes us u then base else current m u)
current-assign_all base u [] m = refl
current-assign_all base u (v ∷ us) m =
    ground (arith, current-assign_all base u us (set v base m), current-set v u base m)

module _ (token_cost : String → String → Option ℕ) (projections : List (String × ℕ)) where
  abbrev pub price : List (String × String) → String → ℕ
  price m u = cost_of token_cost projections u (current m u)

  abbrev pub spent : List (String × String) → List String → ℕ
  spent m [] = 0
  spent m (u ∷ us) = price m u + spent m us

  pub spent-assignments :
      (m : List (String × String)) (us : List String)
      → total (map (assignment_in token_cost projections m) us) ≡ spent m us
  spent-assignments m [] = refl
  spent-assignments m (u ∷ us) = ap (λ n. price m u + n) (spent-assignments m us)

  pub spent-base :
      (base : String) (m : List (String × String)) (us : List String)
      → ((u : String) → includes us u ≡ true → current m u ≡ base)
      → spent m us ≡ total_at token_cost projections us base
  unfolding total_at
  spent-base base m [] h = refl
  spent-base base m (u ∷ us) h = rw (h u (ground (arith, eq_refl u))) (
      ap (λ n. cost_of token_cost projections u base + n)
        (spent-base base m us (λ v i. h v (ground (arith, i)))))

  price-set_other :
      (k v u : String) (m : List (String × String))
      → (k == u) ≡ false
      → price (set k v m) u ≡ price m u
  price-set_other k v u m h =
      ap (cost_of token_cost projections u) (current-set k u v m ∙ ground (arith, h))

  spent-set_other :
      (k v : String) (m : List (String × String)) (us : List String)
      → includes us k ≡ false
      → spent (set k v m) us ≡ spent m us
  spent-set_other k v m [] h = refl
  spent-set_other k v m (u ∷ us) h = ground (
    arith,
    price-set_other k v u m (ground (arith, h, eq_iff k u, eq_iff u k)),
    spent-set_other k v m us,
    h,
  )

  spent-set :
      (k v : String) (m : List (String × String)) (us : List String)
      → distinct us ≡ true
      → includes us k ≡ true
      → spent (set k v m) us + price m k ≡ spent m us + cost_of token_cost projections k v
  spent-set k v m [] d i = ground (arith, i)
  spent-set k v m (u ∷ us) d i = elim (Bool-cases (u == k)) [
    | inl e ↦ ground (
      arith,
      d,
      (eq_iff u k).0 e,
      ap (λ w. includes us w) ((eq_iff u k).0 e),
      ap (price m) ((eq_iff u k).0 e),
      ap (price (set k v m)) ((eq_iff u k).0 e),
      ap (cost_of token_cost projections k) (current-set_self k v m),
      spent-set_other k v m us,
    )
    | inr e ↦ ground (
      arith,
      d,
      i,
      e,
      price-set_other k v u m (ground (arith, e, eq_iff k u, eq_iff u k)),
      spent-set k v m us,
    )
  ]

  -- The books of the upgrade pass.
  pub record IsPaid (max_tokens : ℕ) (ordered : List String) (s : Upgrading) : Type 0 where
    pub sums : spent s.assigned ordered ≡ s.consumed
    pub fits : s.consumed ≤ max_tokens

  take_up-IsPaid :
      (max_tokens : ℕ) (ordered : List String) (u : String) (o : Option String) (s : Upgrading)
      → distinct ordered ≡ true
      → includes ordered u ≡ true
      → ((ref : String) → o ≡ some ref → affords token_cost projections max_tokens s u ref ≡ true)
      → IsPaid max_tokens ordered s
      → IsPaid max_tokens ordered (take_up token_cost projections s u o)
  take_up-IsPaid max_tokens ordered u none s d i h b = b
  take_up-IsPaid max_tokens ordered u (some ref) s d i h b =
      let afforded = h ref refl in
      let moved = spent-set u ref s.assigned ordered d i in
      record { sums = ground (arith, moved, b.sums); fits = ground (arith, afforded, b.fits) }

  pub upgrade-IsPaid :
      (max_tokens : ℕ) (richer ordered us : List String) (s : Upgrading)
      → distinct ordered ≡ true
      → ((u : String) → includes us u ≡ true → includes ordered u ≡ true)
      → IsPaid max_tokens ordered s
      → IsPaid max_tokens ordered (upgrade token_cost projections max_tokens richer us s)
  unfolding upgrade upgrade_unit
  upgrade-IsPaid max_tokens richer ordered [] s d h b = b
  upgrade-IsPaid max_tokens richer ordered (u ∷ us) s d h b =
      upgrade-IsPaid max_tokens richer ordered us _ d (λ v i. h v (ground (arith, i)))
        (take_up-IsPaid max_tokens ordered u
          (find (affords token_cost projections max_tokens s u) richer) s d
          (h u (ground (arith, eq_refl u)))
          (λ ref e. find_holds (affords token_cost projections max_tokens s u) richer ref e) b)
