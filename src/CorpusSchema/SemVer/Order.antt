-- ===== src/CorpusSchema/SemVer/Order.antt =====
-- compareSemVer of packages/corpus-schema/src/semver.ts as an order.
use prime_system.Base.{ℕ, ◌≡◌, ◌↔◌, ◌∙◌, refl, sym, ap, arith, List, [], ◌∷◌}
use Prim.Native.Nat.{compare, Ordering}
use prime_system.CorpusSchema.SemVer.{
  Identifier, numeric, alphanumeric, SemVer, then_by, lex_order, compare_identifier,
  compare_prerelease, compare_sem_ver,
}

abbrev pub swap : Ordering → Ordering
swap Ordering.lt = Ordering.gt
swap Ordering.eq = Ordering.eq
swap Ordering.gt = Ordering.lt

-- A comparison that is a total order.
pub record IsOrder {A : Type 0} (cmp : A → A → Ordering) : Type 0 where
  pub swaps : (a b : A) → cmp b a ≡ swap (cmp a b)
  pub same : (a b : A) → cmp a b ≡ Ordering.eq → a ≡ b
  pub chains : (a b c : A) → cmp a b ≡ Ordering.lt → cmp b c ≡ Ordering.lt → cmp a c ≡ Ordering.lt

compare-IsOrder : IsOrder compare
compare-IsOrder = record {
  swaps = λ a b. ground arith;
  same = λ a b h. ground arith;
  chains = λ a b c h k. ground arith;
}

then_by-swap : (o1 o2 : Ordering) → then_by (swap o1) (swap o2) ≡ swap (then_by o1 o2)
then_by-swap Ordering.lt o2 = refl
then_by-swap Ordering.eq o2 = refl
then_by-swap Ordering.gt o2 = refl

then_by-eq :
    (o1 o2 : Ordering) → then_by o1 o2 ≡ Ordering.eq → (o1 ≡ Ordering.eq) × (o2 ≡ Ordering.eq)
then_by-eq Ordering.lt o2 h = ground (arith, h)
then_by-eq Ordering.eq o2 h = (refl, h)
then_by-eq Ordering.gt o2 h = ground (arith, h)

then_by-step :
    (o p q : Ordering)
    → (p ≡ Ordering.lt → q ≡ Ordering.lt)
    → then_by o p ≡ Ordering.lt
    → then_by o q ≡ Ordering.lt
then_by-step Ordering.lt p q g h = refl
then_by-step Ordering.eq p q g h = g h
then_by-step Ordering.gt p q g h = h

module _ {A : Type 0} {cmp : A → A → Ordering} (o : IsOrder cmp) where
  -- The first comparison chains, if what follows it does.
  then_by-chains :
      (a b c : A) (o1 o2 p q r : Ordering)
      → cmp a b ≡ o1
      → cmp b c ≡ o2
      → (p ≡ Ordering.lt → q ≡ Ordering.lt → r ≡ Ordering.lt)
      → then_by o1 p ≡ Ordering.lt
      → then_by o2 q ≡ Ordering.lt
      → then_by (cmp a c) r ≡ Ordering.lt
  then_by-chains a b c Ordering.lt Ordering.lt p q r e f g h k = rw (o.chains a b c e f) refl
  then_by-chains a b c Ordering.lt Ordering.eq p q r e f g h k = rw (← o.same b c f, e) refl
  then_by-chains a b c Ordering.lt Ordering.gt p q r e f g h k = ground (arith, k)
  then_by-chains a b c Ordering.eq o2 p q r e f g h k =
      rw (o.same a b e, f) (then_by-step o2 q r (g h) k)
  then_by-chains a b c Ordering.gt o2 p q r e f g h k = ground (arith, h)

  lex_order-IsOrder : IsOrder (lex_order cmp)
  unfolding lex_order
  lex_order-IsOrder = record { swaps = swaps; same = same; chains = chains }
    where
      swaps : (xs ys : List A) → lex_order cmp ys xs ≡ swap (lex_order cmp xs ys)
      swaps [] [] = refl
      swaps [] (y ∷ ys) = refl
      swaps (x ∷ xs) [] = refl
      swaps (x ∷ xs) (y ∷ ys) =
          rw (o.swaps x y, swaps xs ys) (then_by-swap (cmp x y) (lex_order cmp xs ys))

      same : (xs ys : List A) → lex_order cmp xs ys ≡ Ordering.eq → xs ≡ ys
      same [] [] h = refl
      same [] (y ∷ ys) h = ground (arith, h)
      same (x ∷ xs) [] h = ground (arith, h)
      same (x ∷ xs) (y ∷ ys) h =
          let (e, f) = then_by-eq (cmp x y) (lex_order cmp xs ys) h in
          λ i. o.same x y e i ∷ same xs ys f i

      chains :
          (xs ys zs : List A)
          → lex_order cmp xs ys ≡ Ordering.lt
          → lex_order cmp ys zs ≡ Ordering.lt
          → lex_order cmp xs zs ≡ Ordering.lt
      chains [] [] zs h k = ground (arith, h)
      chains [] (y ∷ ys) [] h k = ground (arith, k)
      chains [] (y ∷ ys) (z ∷ zs) h k = refl
      chains (x ∷ xs) [] zs h k = ground (arith, h)
      chains (x ∷ xs) (y ∷ ys) [] h k = ground (arith, k)
      chains (x ∷ xs) (y ∷ ys) (z ∷ zs) h k =
          then_by-chains x y z _ _ (lex_order cmp xs ys) (lex_order cmp ys zs) (lex_order cmp xs zs)
            refl refl (chains xs ys zs) h k

-- One comparison after another, on pairs.
abbrev both : {A B : Type 0} → (A → A → Ordering) → (B → B → Ordering) → A × B → A × B → Ordering
both cmp cmp' x y = then_by (cmp x.0 y.0) (cmp' x.1 y.1)

both-IsOrder :
    {A B : Type 0} {cmp : A → A → Ordering} {cmp' : B → B → Ordering}
    → IsOrder cmp
    → IsOrder cmp'
    → IsOrder (both cmp cmp')
both-IsOrder {cmp} {cmp'} o o' = record {
  swaps = λ x y. rw (o.swaps x.0 y.0, o'.swaps x.1 y.1) (then_by-swap (cmp x.0 y.0) (cmp' x.1 y.1));
  same = λ x y h.
      let (e, f) = then_by-eq (cmp x.0 y.0) (cmp' x.1 y.1) h in
      λ i. (o.same x.0 y.0 e i, o'.same x.1 y.1 f i);
  chains =
      λ x y z h k. then_by-chains o x.0 y.0 z.0 _ _ _ _ _ refl refl (o'.chains x.1 y.1 z.1) h k;
}

compare_identifier-IsOrder : IsOrder compare_identifier
unfolding compare_identifier
compare_identifier-IsOrder = record { swaps = swaps; same = same; chains = chains }
  where
    texts : IsOrder (lex_order compare)
    texts = lex_order-IsOrder compare-IsOrder

    swaps : (a b : Identifier) → compare_identifier b a ≡ swap (compare_identifier a b)
    swaps (numeric a) (numeric b) = compare-IsOrder.swaps a b
    swaps (numeric a) (alphanumeric b) = refl
    swaps (alphanumeric a) (numeric b) = refl
    swaps (alphanumeric a) (alphanumeric b) = texts.swaps a b

    same : (a b : Identifier) → compare_identifier a b ≡ Ordering.eq → a ≡ b
    same (numeric a) (numeric b) h = ap numeric (compare-IsOrder.same a b h)
    same (numeric a) (alphanumeric b) h = ground (arith, h)
    same (alphanumeric a) (numeric b) h = ground (arith, h)
    same (alphanumeric a) (alphanumeric b) h = ap alphanumeric (texts.same a b h)

    chains :
        (a b c : Identifier)
        → compare_identifier a b ≡ Ordering.lt
        → compare_identifier b c ≡ Ordering.lt
        → compare_identifier a c ≡ Ordering.lt
    chains (numeric a) (numeric b) (numeric c) h k = compare-IsOrder.chains a b c h k
    chains (numeric a) (numeric b) (alphanumeric c) h k = refl
    chains (numeric a) (alphanumeric b) (numeric c) h k = ground (arith, k)
    chains (numeric a) (alphanumeric b) (alphanumeric c) h k = refl
    chains (alphanumeric a) (numeric b) c h k = ground (arith, h)
    chains (alphanumeric a) (alphanumeric b) (numeric c) h k = ground (arith, k)
    chains (alphanumeric a) (alphanumeric b) (alphanumeric c) h k = texts.chains a b c h k

compare_prerelease-IsOrder : IsOrder compare_prerelease
unfolding compare_prerelease
compare_prerelease-IsOrder = record { swaps = swaps; same = same; chains = chains }
  where
    lists : IsOrder (lex_order compare_identifier)
    lists = lex_order-IsOrder compare_identifier-IsOrder

    swaps : (a b : List Identifier) → compare_prerelease b a ≡ swap (compare_prerelease a b)
    swaps [] [] = refl
    swaps [] (y ∷ ys) = refl
    swaps (x ∷ xs) [] = refl
    swaps (x ∷ xs) (y ∷ ys) = lists.swaps (x ∷ xs) (y ∷ ys)

    same : (a b : List Identifier) → compare_prerelease a b ≡ Ordering.eq → a ≡ b
    same [] [] h = refl
    same [] (y ∷ ys) h = ground (arith, h)
    same (x ∷ xs) [] h = ground (arith, h)
    same (x ∷ xs) (y ∷ ys) h = lists.same (x ∷ xs) (y ∷ ys) h

    chains :
        (a b c : List Identifier)
        → compare_prerelease a b ≡ Ordering.lt
        → compare_prerelease b c ≡ Ordering.lt
        → compare_prerelease a c ≡ Ordering.lt
    chains [] [] c h k = ground (arith, h)
    chains [] (y ∷ ys) c h k = ground (arith, h)
    chains (x ∷ xs) [] [] h k = ground (arith, k)
    chains (x ∷ xs) [] (z ∷ zs) h k = ground (arith, k)
    chains (x ∷ xs) (y ∷ ys) [] h k = refl
    chains (x ∷ xs) (y ∷ ys) (z ∷ zs) h k = lists.chains (x ∷ xs) (y ∷ ys) (z ∷ zs) h k

-- What versions are ordered by: all but the build metadata and the text as it was written.
abbrev pub precedence : SemVer → ℕ × (ℕ × (ℕ × List Identifier))
precedence v = (v.major, (v.minor, (v.patch, v.prerelease)))

-- A comparison that is a total order of what versions are ordered by.
pub record IsVersionOrder (cmp : SemVer → SemVer → Ordering) : Type 0 where
  pub swaps : (a b : SemVer) → cmp b a ≡ swap (cmp a b)
  pub same : (a b : SemVer) → (cmp a b ≡ Ordering.eq) ↔ (precedence a ≡ precedence b)
  pub chains :
      (a b c : SemVer) → cmp a b ≡ Ordering.lt → cmp b c ≡ Ordering.lt → cmp a c ≡ Ordering.lt

swap_fixed : (o : Ordering) → o ≡ swap o → o ≡ Ordering.eq
swap_fixed Ordering.lt h = ground (arith, h)
swap_fixed Ordering.eq h = refl
swap_fixed Ordering.gt h = ground (arith, h)

-- The comparison of versions is a total order: turned round it is the opposite, versions compare as
-- equal exactly when their numbers and their pre-releases are equal, whatever their build metadata
-- and the texts they were read from, and what is less than a lesser version is less.
pub compare_sem_ver-IsVersionOrder : IsVersionOrder compare_sem_ver
unfolding compare_sem_ver
compare_sem_ver-IsVersionOrder =
    let o =
      both-IsOrder compare-IsOrder
        (both-IsOrder compare-IsOrder (both-IsOrder compare-IsOrder compare_prerelease-IsOrder)) in
    record {
      swaps = λ a b. o.swaps (precedence a) (precedence b);
      same = λ a b. (
        o.same (precedence a) (precedence b),
        λ h. ap (cmp (precedence a)) (sym h) ∙ swap_fixed _ (o.swaps (precedence a) (precedence a)),
      );
      chains = λ a b c. o.chains (precedence a) (precedence b) (precedence c);
    }
  where
    cmp : ℕ × (ℕ × (ℕ × List Identifier)) → ℕ × (ℕ × (ℕ × List Identifier)) → Ordering
    cmp = both compare (both compare (both compare compare_prerelease))
