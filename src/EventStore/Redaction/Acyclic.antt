-- ===== src/EventStore/Redaction/Acyclic.antt =====
-- fieldRedactor of packages/event-store/src/redaction.ts on values without a cycle.
use prime_system.Base.{
  ℕ, zero, suc, ◌<◌, ◌≤◌, ◌≡◌, ap, inl, inr, Bool, true, false, Text, List, [], ◌∷◌, length, arith,
  eqb, if◌then◌else◌, Bool-cases,
}
use prime_system.EventStore.Values.{
  JsValue, text, array, object, ref, Items, nil, cons, Fields, end, field, Outcome, done, Objects,
  content,
}
use prime_system.EventStore.Seen.{seen_has}
use prime_system.EventStore.Redaction.{
  is_target, redact_value, redact_items, redact_fields, redact_ref, redact,
}
use prime_system.EventStore.Redaction.Secrets.{IsTree, IsTreeItems, IsTreeFields, Holds, Holds-bind}

-- Every shared object that a value refers to, at any depth, has a rank below a bound.
abbrev mutual
  pub Below : (ℕ → ℕ) → ℕ → JsValue → Type 0
  Below rank n (array vs) = BelowItems rank n vs
  Below rank n (object fs) = BelowFields rank n fs
  Below rank n (ref a) = rank a < n
  Below rank n _ = Unit

  pub BelowItems : (ℕ → ℕ) → ℕ → Items → Type 0
  BelowItems rank n nil = Unit
  BelowItems rank n (cons v vs) = Below rank n v × BelowItems rank n vs

  pub BelowFields : (ℕ → ℕ) → ℕ → Fields → Type 0
  BelowFields rank n end = Unit
  BelowFields rank n (field k v fs) = Below rank n v × BelowFields rank n fs

module _ (lower : Text → Text) (field_names : List Text) (marker : Text) (rank : ℕ → ℕ) where
  redacted_field :
      (target : Bool) (m : Outcome JsValue)
      → Holds IsTree m
      → Holds IsTree (if target then done (text marker) else m)
  redacted_field true m h = tt
  redacted_field false m h = h

  module _ (n : ℕ) (deref : ℕ → Outcome JsValue)
      (flat : (a : ℕ) → rank a < n → Holds IsTree (deref a)) where
    mutual
      unfolding redact_value

      redact_value-IsTree :
          (v : JsValue)
          → Below rank n v
          → Holds IsTree (redact_value lower field_names marker deref v)
      redact_value-IsTree (array vs) b =
          Holds-bind IsTreeItems IsTree _ _ (redact_items-IsTree vs b) (λ ws t. t)
      redact_value-IsTree (object fs) b =
          Holds-bind IsTreeFields IsTree _ _ (redact_fields-IsTree fs b) (λ gs t. t)
      redact_value-IsTree (ref a) b = flat a b
      redact_value-IsTree _ b = tt

      redact_items-IsTree :
          (vs : Items)
          → BelowItems rank n vs
          → Holds IsTreeItems (redact_items lower field_names marker deref vs)
      redact_items-IsTree nil b = tt
      redact_items-IsTree (cons v vs) (b, bs) =
          Holds-bind IsTree IsTreeItems _ _ (redact_value-IsTree v b) (λ w t.
            Holds-bind IsTreeItems IsTreeItems _ _ (redact_items-IsTree vs bs) (λ ws ts. (t, ts)))

      redact_fields-IsTree :
          (fs : Fields)
          → BelowFields rank n fs
          → Holds IsTreeFields (redact_fields lower field_names marker deref fs)
      redact_fields-IsTree end b = tt
      redact_fields-IsTree (field k v fs) (b, bs) =
          Holds-bind IsTree IsTreeFields _ _
            (redacted_field (is_target lower field_names marker k) _ (redact_value-IsTree v b))
            (λ w t.
              Holds-bind IsTreeFields IsTreeFields _ _ (redact_fields-IsTree fs bs)
                (λ gs ts. (t, ts)))

  -- The objects on a path rank at least as high as a bound.
  abbrev Above : ℕ → List ℕ → Type 0
  Above n [] = Unit
  Above n (b ∷ seen) = n ≤ rank b × Above n seen

  Above-fresh : (n a : ℕ) (seen : List ℕ) → Above n seen → rank a < n → seen_has seen a ≡ false
  Above-fresh n a [] s h = ground arith
  Above-fresh n a (b ∷ seen) (l, s) h = elim (Bool-cases (eqb b a)) [
    | inl e ↦ absurd (same (eqb_eq b a e))
    | inr e ↦ ground (arith, e, Above-fresh n a seen s h)
  ]
    where
      eqb_eq : (b a : ℕ) → eqb b a ≡ true → b ≡ a
      eqb_eq b a e = ground (arith, e)

      same : b ≡ a → ⊥
      same e = omega (arith, l, h, ap rank e)

  Above-lower : (n m : ℕ) (seen : List ℕ) → m ≤ n → Above n seen → Above m seen
  Above-lower n m [] h s = tt
  Above-lower n m (b ∷ seen) h (l, s) = (omega (arith, l, h), Above-lower n m seen h s)

  module _ (objects : Objects) (falls : (a : ℕ) → Below rank (rank a) (content objects a)) where
    redact_ref-IsTree :
        (fuel n a : ℕ) (seen : List ℕ)
        → Above n seen
        → rank a < n
        → Holds IsTree (redact_ref lower field_names marker objects fuel seen a)
    unfolding redact_ref
    redact_ref-IsTree zero n a seen s h = tt
    redact_ref-IsTree (suc fuel) n a seen s h = rw (Above-fresh n a seen s h) (
        redact_value-IsTree (rank a) (redact_ref lower field_names marker objects fuel (a ∷ seen))
          (λ b k.
            redact_ref-IsTree fuel (rank a) b (a ∷ seen)
              (omega arith, Above-lower n (rank a) seen (omega (arith, h)) s) k)
          (content objects a) (falls a))

    -- What redaction gives on a value without a cycle refers to no shared object.
    pub redact-IsTree :
        (n : ℕ) (v : JsValue)
        → Below rank n v
        → Holds IsTree (redact lower field_names marker objects v)
    unfolding redact
    redact-IsTree n v b =
        redact_value-IsTree n
          (redact_ref lower field_names marker objects (suc (length objects)) [])
          (λ a h. redact_ref-IsTree (suc (length objects)) n a [] tt h) v b
