-- ===== src/CorpusSchema/SemVer/Resolve.antt =====
-- resolveVersion of packages/corpus-schema/src/semver.ts.
use prime_system.Base.{
  ◌≡◌, refl, sym, ap, arith, Bool, true, false, List, [], ◌∷◌, filter, In, here, there, Bool-cases,
  if-holds, inl, inr, In-sort, In-sort_back, In-insert_sorted_back,
}
use mathlib.Core.Path.{subst}
use Prim.Native.Nat.{Ordering, compare, ℕ}
use prime_system.Base.Sorting.{sort, insert_sorted}
use prime_system.CorpusSchema.SemVer.{
  Identifier, then_by, compare_prerelease, SemVer, compare_sem_ver,
}
use prime_system.CorpusSchema.SemVer.Order.{compare_sem_ver-IsVersionOrder, precedence}
use prime_system.CorpusSchema.SemVer.Ranges.{Clause}
use prime_system.CorpusSchema.SemVer.Satisfies.{
  is_less, satisfies, Resolution, resolved, no_candidates, no_matching_version, before_in, choose,
  resolve_version,
}

-- None of the list is greater than the version.
abbrev Tops : SemVer → List SemVer → Type 0
Tops x xs = (v : SemVer) → In v xs → before_in v x ≡ false

abbrev Descending : List SemVer → Type 0
Descending [] = Unit {0}
Descending (x ∷ xs) = Tops x xs × Descending xs

before_asym : (x y : SemVer) → before_in y x ≡ true → before_in x y ≡ false
before_asym x y h = ground (arith, h, compare_sem_ver-IsVersionOrder.swaps x y)

before_irrefl : (x : SemVer) → before_in x x ≡ false
before_irrefl x = ground (arith, compare_sem_ver-IsVersionOrder.swaps x x)

compare_sem_ver_like :
    (x y z : SemVer) → precedence y ≡ precedence z → compare_sem_ver x y ≡ compare_sem_ver x z
unfolding compare_sem_ver
compare_sem_ver_like x y z h =
    ap
      (λ (k : ℕ × (ℕ × (ℕ × List Identifier))). then_by (compare x.major k.0) (
        then_by (compare x.minor k.1.0)
          (then_by (compare x.patch k.1.1.0) (compare_prerelease x.prerelease k.1.1.1))))
      h

before_trans :
    (x y z : SemVer) → before_in y x ≡ false → before_in z y ≡ false → before_in z x ≡ false
before_trans x y z h k = elim (Bool-cases (before_in z x)) [
  | inr e ↦ e
  | inl e ↦ ground (
    arith,
    e,
    h,
    k,
    compare_sem_ver-IsVersionOrder.swaps y z,
    compare_sem_ver-IsVersionOrder.chains x z y,
    λ (s : compare_sem_ver y z ≡ Ordering.eq).
        compare_sem_ver_like x y z ((compare_sem_ver-IsVersionOrder.same y z).0 s),
  )
]

Tops-insert_sorted :
    (x y : SemVer) (ys : List SemVer)
    → before_in x y ≡ false
    → Tops y ys
    → Tops y (insert_sorted before_in x ys)
Tops-insert_sorted x y ys h t v i = at (In-insert_sorted_back before_in x ys v i)
  where
    at : In v (x ∷ ys) → before_in v y ≡ false
    at (here e) = subst (λ w. before_in w y ≡ false) e h
    at (there j) = t v j

Descending-insert_sorted :
    (x : SemVer) (ys : List SemVer) → Descending ys → Descending (insert_sorted before_in x ys)
unfolding insert_sorted
Descending-insert_sorted x [] d = ((λ v i. elim i [ ]), tt)
Descending-insert_sorted x (y ∷ ys) (t, d) =
    if-holds Descending (before_in y x) _ _
      (λ e. (Tops-insert_sorted x y ys (before_asym x y e) t, Descending-insert_sorted x ys d))
      (λ e. (above e, (t, d)))
  where
    above : before_in y x ≡ false → Tops x (y ∷ ys)
    above e v (here s) = subst (λ w. before_in w x ≡ false) s e
    above e v (there j) = before_trans x y v e (t v j)

Descending-sort : (xs : List SemVer) → Descending (sort before_in xs)
unfolding sort
Descending-sort [] = tt
Descending-sort (x ∷ xs) = Descending-insert_sorted x (sort before_in xs) (Descending-sort xs)

-- The first that passes, of a list with the greatest first.
filter-first :
    (p : SemVer → Bool) (xs : List SemVer) (best : SemVer) (more : List SemVer)
    → filter p xs ≡ best ∷ more
    → Descending xs
    → In best xs
      × (p best ≡ true)
      × ((v : SemVer) → In v xs → p v ≡ true → before_in v best ≡ false)
filter-first p [] best more h d = ground (arith, h)
filter-first p (x ∷ xs) best more h (t, d) = elim (Bool-cases (p x)) [
  | inl e ↦ first e (ground (arith, h, e))
  | inr e ↦ later e (filter-first p xs best more (ground (arith, h, e)) d)
]
  where
    first :
        p x ≡ true
        → x ≡ best
        → In best (x ∷ xs)
          × (p best ≡ true)
          × ((v : SemVer) → In v (x ∷ xs) → p v ≡ true → before_in v best ≡ false)
    first e s = (here s, subst (λ w. p w ≡ true) s e, λ v i q. top v i s)
      where
        top : (v : SemVer) → In v (x ∷ xs) → x ≡ best → before_in v best ≡ false
        top v (here s') s = rw (← s, ← s') (before_irrefl x)
        top v (there j) s = rw (← s) (t v j)

    later :
        p x ≡ false
        → In best xs
          × (p best ≡ true)
          × ((v : SemVer) → In v xs → p v ≡ true → before_in v best ≡ false)
        → In best (x ∷ xs)
          × (p best ≡ true)
          × ((v : SemVer) → In v (x ∷ xs) → p v ≡ true → before_in v best ≡ false)
    later e (i, q, m) = (there i, q, top)
      where
        top : (v : SemVer) → In v (x ∷ xs) → p v ≡ true → before_in v best ≡ false
        top v (here s) r = ground (arith, e, r, ap p s)
        top v (there j) r = m v j r

filter-none :
    (p : SemVer → Bool) (xs : List SemVer) (v : SemVer) → filter p xs ≡ [] → In v xs → p v ≡ false
filter-none p [] v h i = elim i [ ]
filter-none p (x ∷ xs) v h (here s) = rw (← s) (ground (arith, h))
filter-none p (x ∷ xs) v h (there j) = filter-none p xs v (ground (arith, h)) j

-- What a resolution says of the range and of the versions that are available.
unfoldable pub Best : List Clause → List SemVer → Resolution → Type 0
Best range available (resolved best candidates) =
    In best available
    × (satisfies best range ≡ true)
    × ((v : SemVer)
        → In v available
        → satisfies v range ≡ true
        → (compare_sem_ver best v ≡ Ordering.lt → ⊥))
Best range available no_candidates = available ≡ []
Best range available (no_matching_version versions) =
    (v : SemVer) → In v available → satisfies v range ≡ false

not_less : (o : Ordering) → is_less o ≡ false → o ≡ Ordering.lt → ⊥
not_less o h e = ground (arith, h, e)

choose-Best :
    (range : List Clause) (available versions matching : List SemVer)
    → sort before_in available ≡ versions
    → filter (λ v. satisfies v range) versions ≡ matching
    → Best range available (choose versions matching)
unfolding Best
choose-Best range available [] matching s f =
    empty available (λ a i. subst (In a) s (In-sort before_in available a i))
  where
    empty : (xs : List SemVer) → ((a : SemVer) → In a xs → In a []) → xs ≡ []
    empty [] k = refl
    empty (x ∷ xs) k = absurd (elim (k x (here refl)) [ ])
choose-Best range available (v ∷ vs) [] s f = λ w i.
    filter-none (λ v. satisfies v range) (v ∷ vs) w f
      (subst (In w) s (In-sort before_in available w i))
choose-Best range available (v ∷ vs) (best ∷ more) s f =
    let (i, q, m) =
      filter-first (λ v. satisfies v range) (v ∷ vs) best more f
        (subst Descending s (Descending-sort available)) in
    (
      In-sort_back before_in available best (subst (In best) (sym s) i),
      q,
      λ w j r.
          not_less (compare_sem_ver best w)
            (m w (subst (In w) s (In-sort before_in available w j)) r),
    )

-- A resolved version is one of those that are available, satisfies the range, and none that is
-- available and satisfies it is greater. A resolution fails only if nothing is available, or if
-- nothing that is available satisfies the range.
pub resolve_version-Best :
    (range : List Clause) (available : List SemVer)
    → Best range available (resolve_version range available)
unfolding resolve_version
resolve_version-Best range available = choose-Best range available _ _ refl refl
