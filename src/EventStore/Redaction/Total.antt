-- ===== src/EventStore/Redaction/Total.antt =====
-- Termination of fieldRedactor, packages/event-store/src/redaction.ts.
use prime_system.Base.{
  ℕ, zero, suc, ◌<◌, ◌≤◌, ◌≡◌, refl, inl, inr, Bool, true, false, Text, List, [], ◌∷◌, length,
  if◌then◌else◌, arith, Bool-cases, ltb, ltb→lt,
}
use prime_system.EventStore.Values.{
  JsValue, undefined, text, array, object, ref, Items, nil, cons, Fields, end, field, Outcome, done,
  thrown, exhausted, ◌>>=◌, Objects, content,
}
use prime_system.EventStore.Seen.{seen_has, unseen, unseen-lt, unseen-nil}
use prime_system.EventStore.Redaction.{
  is_target, redact_value, redact_items, redact_fields, redact_ref, redact,
}

abbrev IsDone : {A : Type 0} → Outcome A → Type 0
IsDone (done a) = Unit
IsDone thrown = ⊥
IsDone exhausted = ⊥

IsDone-bind :
    {A B : Type 0} (m : Outcome A) (f : A → Outcome B)
    → IsDone m
    → ((a : A) → IsDone (f a))
    → IsDone (m >>= f)
IsDone-bind (done a) f h k = k a
IsDone-bind thrown f h k = absurd h
IsDone-bind exhausted f h k = absurd h

is_done : {A : Type 0} (m : Outcome A) → IsDone m → (a : A) × (m ≡ done a)
is_done (done a) h = (a, refl)
is_done thrown h = absurd h
is_done exhausted h = absurd h

content_outside : (objects : Objects) (a : ℕ) → length objects ≤ a → content objects a ≡ undefined
content_outside [] a h = refl
content_outside (v ∷ vs) zero h = absurd (omega arith)
content_outside (v ∷ vs) (suc a) h = content_outside vs a (omega arith)

module _ (lower : Text → Text) (field_names : List Text) (marker : Text) where
  redacted_field :
      (target : Bool) (m : Outcome JsValue)
      → IsDone m
      → IsDone (if target then done (text marker) else m)
  redacted_field true m h = tt
  redacted_field false m h = h

  module _ (deref : ℕ → Outcome JsValue) (h : (a : ℕ) → IsDone (deref a)) where
    mutual
      unfolding redact_value

      redact_value-IsDone : (v : JsValue) → IsDone (redact_value lower field_names marker deref v)
      redact_value-IsDone (array vs) = IsDone-bind _ _ (redact_items-IsDone vs) (λ ws. tt)
      redact_value-IsDone (object fs) = IsDone-bind _ _ (redact_fields-IsDone fs) (λ gs. tt)
      redact_value-IsDone (ref a) = h a
      redact_value-IsDone _ = tt

      redact_items-IsDone : (vs : Items) → IsDone (redact_items lower field_names marker deref vs)
      redact_items-IsDone nil = tt
      redact_items-IsDone (cons v vs) =
          IsDone-bind _ _ (redact_value-IsDone v)
            (λ w. IsDone-bind _ _ (redact_items-IsDone vs) (λ ws. tt))

      redact_fields-IsDone :
          (fs : Fields) → IsDone (redact_fields lower field_names marker deref fs)
      redact_fields-IsDone end = tt
      redact_fields-IsDone (field k v fs) =
          IsDone-bind _ _
            (redacted_field (is_target lower field_names marker k) _ (redact_value-IsDone v))
            (λ w. IsDone-bind _ _ (redact_fields-IsDone fs) (λ gs. tt))

  redact_ref-IsDone :
      (objects : Objects) (fuel : ℕ) (seen : List ℕ) (a : ℕ)
      → unseen (length objects) seen < fuel
      → IsDone (redact_ref lower field_names marker objects fuel seen a)
  unfolding redact_ref
  redact_ref-IsDone objects zero seen a h = elim h [ ]
  redact_ref-IsDone objects (suc fuel) seen a h = elim (Bool-cases (seen_has seen a)) [
    | inl old ↦ rw old tt
    | inr new ↦ rw new (elim (Bool-cases (ltb a (length objects))) [
      | inl inside ↦
          redact_value-IsDone (redact_ref lower field_names marker objects fuel (a ∷ seen))
            (λ b.
              redact_ref-IsDone objects fuel (a ∷ seen) b
                (omega (arith, unseen-lt (length objects) a seen (ltb→lt _ _ inside) new)))
            (content objects a)
      | inr outside ↦ rw (content_outside objects a (ground arith)) tt
    ])
  ]

  pub redact_returns :
      (objects : Objects) (v : JsValue)
      → (w : JsValue) × (redact lower field_names marker objects v ≡ done w)
  unfolding redact
  redact_returns objects v = is_done _ (
      redact_value-IsDone (redact_ref lower field_names marker objects (suc (length objects)) [])
        (λ a.
          redact_ref-IsDone objects (suc (length objects)) [] a
            (omega (arith, unseen-nil (length objects))))
        v)
