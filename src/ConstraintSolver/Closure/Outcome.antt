-- ===== src/ConstraintSolver/Closure/Outcome.antt =====
-- The outcome of closeOver, packages/constraint-solver/src/solve.ts.
use prime_system.Base.{
  ℕ, zero, suc, String, ◌≡◌, refl, eq_refl, sym, ◌∙◌, inl, inr, Bool, true, false, not, ◌&&◌, ◌||◌,
  List, some, arith, includes, every, Bool-cases, str_lt, In, In-sort, every-In, every-includes,
  length, includes-sort, includes-unique, unique,
}
use mathlib.Core.Path.{subst}
use prime_system.Base.Sorting.{sort}
use prime_system.ConstraintSolver.Semantics.{Traversal, transitive, no_hop, one_hop, may_hop}
use prime_system.ConstraintSolver.Constraints.{HardRequirement}
use prime_system.ConstraintSolver.Closure.{
  Walk, Found, found, Closed, closed, missing_target, names_of, depth_of, visit_frontier, advance,
  close_from, close_over, start, requirement_lt, sorted, is_empty,
}
use prime_system.ConstraintSolver.Closure.Laws.{
  is_fresh, nothing_yet, Round-cases, close_from-empty, close_from-stopped, close_from-found,
  advance-included, found-fresh, close_over-ends, visit_frontier-fresh, FoundFresh,
}
use prime_system.ConstraintSolver.Closure.Covers.{covers, CoversAll, visit_frontier-CoversAll}

abbrev pub is_transitive : Traversal → Bool
is_transitive transitive = true
is_transitive _ = false

transitive-may_hop : (t : Traversal) (n : ℕ) → is_transitive t ≡ true → may_hop t n ≡ true
unfolding may_hop
transitive-may_hop no_hop n h = ground (arith, h)
transitive-may_hop one_hop n h = ground (arith, h)
transitive-may_hop transitive n h = refl

same_outcome : (a b : Closed) → some a ≡ some b → a ≡ b
same_outcome a b h = ground (arith, h)

-- What has been included contains the seeds, and only them and units of the graph.
pub record Sound (seeds universe : List String) (w : Walk) : Type 0 where
  pub keeps : (a : String) → includes seeds a ≡ true → includes w.included a ≡ true
  pub within :
      (a : String) → includes w.included a ≡ true → (includes seeds a || includes universe a) ≡ true

module _ (seeds universe : List String) (rs : List HardRequirement) where
  -- A transitive requirement of an included unit has its target in the graph, and included.
  abbrev pub is_met : Walk → HardRequirement → Bool
  is_met w r =
      not (is_transitive r.traversal)
      || not (includes w.included r.subject)
      || includes universe r.target && includes w.included r.target

  record Good (w : Walk) : Type 0 where
    sound : Sound seeds universe w
    settled : (r : HardRequirement) → In r rs → (includes w.frontier r.subject || is_met w r) ≡ true

  -- What the outcome promises.
  unfoldable pub Promise : Closed → Type 0
  Promise (closed w) =
      Sound seeds universe w × ((r : HardRequirement) → In r rs → is_met w r ≡ true)
  Promise (missing_target w m) =
      Sound seeds universe w × (includes universe m.requirement.target ≡ false)

  advance-frontier :
      (w : Walk) (f : Found) (a : String)
      → includes (advance w f).frontier a ≡ includes (names_of f.discovered) a
  unfolding advance
  advance-frontier w f a = includes-sort str_lt (names_of f.discovered) a

  covered :
      (w : Walk) (f : Found) (r : HardRequirement)
      → In r rs
      → visit_frontier universe rs w w.frontier (nothing_yet universe rs w) ≡ found f
      → includes w.frontier r.subject ≡ true
      → covers universe w f r.subject r ≡ true
  covered w f r i e m =
      let (all, extends) =
        subst (CoversAll universe w w.frontier rs (nothing_yet universe rs w)) e
          (visit_frontier-CoversAll universe w w.frontier rs (nothing_yet universe rs w)) in
      every-In (covers universe w f r.subject) rs r
        (every-includes (λ s. every (covers universe w f s) rs) w.frontier r.subject all m) i

  settle :
      (w : Walk) (f : Found) (r : HardRequirement) (included frontier : List String)
      → includes included r.subject
        ≡ (includes w.included r.subject || includes (names_of f.discovered) r.subject)
      → includes included r.target
        ≡ (includes w.included r.target || includes (names_of f.discovered) r.target)
      → includes frontier r.subject ≡ includes (names_of f.discovered) r.subject
      → (includes w.frontier r.subject ≡ true → covers universe w f r.subject r ≡ true)
      → (includes w.frontier r.subject || is_met w r) ≡ true
      → (includes frontier r.subject
          || (not (is_transitive r.traversal)
              || not (includes included r.subject)
              || includes universe r.target && includes included r.target))
        ≡ true
  settle w f r included frontier e1 e2 e3 c s = ground (
    arith,
    e1,
    e2,
    e3,
    c,
    s,
    eq_refl r.subject,
    transitive-may_hop r.traversal (depth_of w.hops r.relation_ref r.subject),
  )

  advance-Good :
      (w : Walk) (f : Found)
      → visit_frontier universe rs w w.frontier (nothing_yet universe rs w) ≡ found f
      → Good w
      → Good (advance w f)
  advance-Good w f e g = record {
    sound = record {
      keeps = λ a h. advance-included universe rs w f a ∙ ground (arith, g.sound.keeps a h);
      within = λ a h. ground (
        arith,
        advance-included universe rs w f a,
        h,
        g.sound.within a,
        every-includes (is_fresh universe w) (names_of f.discovered) a
            (found-fresh universe rs w f e),
      );
    };
    settled = λ r i.
        settle w f r (advance w f).included (advance w f).frontier
          (advance-included universe rs w f r.subject) (advance-included universe rs w f r.target)
          (advance-frontier w f r.subject) (covered w f r i e) (g.settled r i);
  }

  sorted-Sound : (w : Walk) → Sound seeds universe w → Sound seeds universe (sorted w)
  unfolding sorted
  sorted-Sound w s = record {
    keeps = λ a h. includes-sort str_lt w.included a ∙ s.keeps a h;
    within = λ a h. s.within a (sym (includes-sort str_lt w.included a) ∙ h);
  }

  sorted-is_met :
      (w : Walk) (r : HardRequirement)
      → is_empty w.frontier ≡ true
      → (includes w.frontier r.subject || is_met w r) ≡ true
      → is_met (sorted w) r ≡ true
  unfolding sorted
  sorted-is_met w r e h =
      rw (includes-sort str_lt w.included r.subject, includes-sort str_lt w.included r.target)
        (ground (arith, e, h))

  close_from-zero : (w : Walk) (c : Closed) → close_from zero universe rs w ≡ some c → Promise c
  unfolding close_from
  close_from-zero w c h = ground (arith, h)

  close_from-Promise :
      (fuel : ℕ) (w : Walk) (c : Closed)
      → Good w
      → close_from fuel universe rs w ≡ some c
      → Promise c
  unfolding Promise
  close_from-Promise zero w c g h = close_from-zero w c h
  close_from-Promise (suc fuel) w c g h = elim (Bool-cases (is_empty w.frontier)) [
    | inl e ↦
        subst Promise (same_outcome _ c (sym (close_from-empty universe rs fuel w e) ∙ h))
          (sorted-Sound w g.sound, λ r i. sorted-is_met w r e (g.settled r i))
    | inr e ↦
        elim (Round-cases (visit_frontier universe rs w w.frontier (nothing_yet universe rs w))) [
          | inr (f, m, k) ↦
              subst Promise
                (same_outcome _ c (sym (close_from-stopped universe rs fuel w f m e k) ∙ h))
                (
                  sorted-Sound (record w { support = f.support })
                      (record { keeps = g.sound.keeps; within = g.sound.within }),
                  subst (FoundFresh universe w) k (
                      visit_frontier-fresh universe rs w w.frontier (nothing_yet universe rs w)
                        refl),
                )
          | inl (f, k) ↦
              close_from-Promise fuel (advance w f) c (advance-Good w f k g)
                (sym (close_from-found universe rs fuel w f e k) ∙ h)
        ]
  ]

  sort-unique : (a : String) → includes (sort str_lt (unique seeds)) a ≡ includes seeds a
  sort-unique a = includes-sort str_lt (unique seeds) a ∙ includes-unique seeds a

  start-Good : Good (start seeds)
  unfolding start
  start-Good = record {
    sound = record {
      keeps = λ a h. sort-unique a ∙ h;
      within = λ a h. ground (arith, sort-unique a, h);
    };
    settled = λ r i. ground arith;
  }

sorted-Promise :
    (seeds universe : List String) (rs : List HardRequirement) (c : Closed)
    → Promise seeds universe (sort requirement_lt rs) c
    → Promise seeds universe rs c
unfolding Promise
sorted-Promise seeds universe rs (closed w) (sound, met) =
    (sound, λ r i. met r (In-sort requirement_lt rs r i))
sorted-Promise seeds universe rs (missing_target w m) p = p

-- The outcome of the mandatory closure. Where it succeeds, it contains the seeds, every unit it
-- contains is a seed or a unit of the graph, and each transitive requirement whose subject it
-- contains has its target in the graph and in the outcome. Where it reports a missing target, what
-- it had included is sound in the same way, and that target is not in the graph.
pub close_over-Promise :
    (seeds universe : List String) (rs : List HardRequirement)
    → (c : Closed) × (close_over seeds rs universe ≡ some c) × Promise seeds universe rs c
unfolding close_over
close_over-Promise seeds universe rs =
    let (c, e) = close_over-ends seeds universe rs in
    (
      c,
      e,
      sorted-Promise seeds universe rs c (
          close_from-Promise seeds universe (sort requirement_lt rs) (suc (suc (length universe)))
            (start seeds) c (start-Good seeds universe (sort requirement_lt rs)) e),
    )
