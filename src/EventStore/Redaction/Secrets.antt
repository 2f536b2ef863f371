-- ===== src/EventStore/Redaction/Secrets.antt =====
-- Named fields in the values that fieldRedactor and encode of packages/event-store/src give.
use prime_system.Base.{
  ℕ, zero, suc, ◌≡◌, refl, sym, inl, inr, Bool, true, false, Text, List, ◌∷◌, if◌then◌else◌,
  Bool-cases, if-holds, codes, same_text,
}
use mathlib.Core.Path.{subst}
use prime_system.EventStore.Values.{
  JsValue, null, undefined, non_finite, bigint, function, symbol, bool, number, text, array, object,
  ref, Items, nil, cons, Fields, end, field, Json, json_text, json_array, json_object, JsonItems,
  json_nil, json_cons, JsonFields, json_end, json_field, Outcome, done, thrown, exhausted, ◌>>=◌,
  Objects, content,
}
use prime_system.EventStore.Seen.{seen_has}
use prime_system.EventStore.Serialize.Keys.{key_lt}
use prime_system.EventStore.Serialize.{
  unstorable, unstorable_key, marker_for, place_field, insert_field, encode_value, encode_items,
  encode_fields,
}
use prime_system.EventStore.Redaction.{
  is_target, redact_value, redact_items, redact_fields, redact_ref,
}

-- A value with no occurrence of a shared object.
abbrev mutual
  pub IsTree : JsValue → Type 0
  IsTree (array vs) = IsTreeItems vs
  IsTree (object fs) = IsTreeFields fs
  IsTree (ref a) = ⊥
  IsTree _ = Unit

  pub IsTreeItems : Items → Type 0
  IsTreeItems nil = Unit
  IsTreeItems (cons v vs) = IsTree v × IsTreeItems vs

  pub IsTreeFields : Fields → Type 0
  IsTreeFields end = Unit
  IsTreeFields (field k v fs) = IsTree v × IsTreeFields fs

-- What an outcome is held to, if it is a value.
abbrev pub Holds : {A : Type 0} → (A → Type 0) → Outcome A → Type 0
Holds P (done a) = P a
Holds P _ = Unit

pub Holds-bind :
    {A B : Type 0} (P : A → Type 0) (Q : B → Type 0) (m : Outcome A) (f : A → Outcome B)
    → Holds P m
    → ((a : A) → P a → Holds Q (f a))
    → Holds Q (m >>= f)
Holds-bind P Q (done a) f h k = k a h
Holds-bind P Q thrown f h k = tt
Holds-bind P Q exhausted f h k = tt

module _ (lower : Text → Text) (field_names : List Text) (marker : Text) where
  abbrev mutual
    -- Every field that is named, at any depth, holds the marker.
    pub Clean : JsValue → Type 0
    Clean (array vs) = CleanItems vs
    Clean (object fs) = CleanFields fs
    Clean _ = Unit

    pub CleanItems : Items → Type 0
    CleanItems nil = Unit
    CleanItems (cons v vs) = Clean v × CleanItems vs

    pub CleanFields : Fields → Type 0
    CleanFields end = Unit
    CleanFields (field k v fs) =
        (is_target lower field_names marker k ≡ true → v ≡ text marker) × Clean v × CleanFields fs

  abbrev mutual
    pub JsonClean : Json → Type 0
    JsonClean (json_array js) = JsonCleanItems js
    JsonClean (json_object fs) = JsonCleanFields fs
    JsonClean _ = Unit

    pub JsonCleanItems : JsonItems → Type 0
    JsonCleanItems json_nil = Unit
    JsonCleanItems (json_cons j js) = JsonClean j × JsonCleanItems js

    pub JsonCleanFields : JsonFields → Type 0
    JsonCleanFields json_end = Unit
    JsonCleanFields (json_field k j fs) =
        (is_target lower field_names marker k ≡ true → j ≡ json_text marker)
        × JsonClean j
        × JsonCleanFields fs

  redacted_field :
      (target : Bool) (m : Outcome JsValue)
      → Holds Clean m
      → Holds
          (λ w. (target ≡ true → w ≡ text marker) × Clean w)
          (if target then done (text marker) else m)
  redacted_field true m h = ((λ e. refl), tt)
  redacted_field false (done w) h = ((λ e. cc), h)
  redacted_field false thrown h = tt
  redacted_field false exhausted h = tt

  module _ (deref : ℕ → Outcome JsValue) (clean : (a : ℕ) → Holds Clean (deref a)) where
    mutual
      unfolding redact_value

      pub redact_value-Clean :
          (v : JsValue) → Holds Clean (redact_value lower field_names marker deref v)
      redact_value-Clean (array vs) =
          Holds-bind CleanItems Clean _ _ (redact_items-Clean vs) (λ ws c. c)
      redact_value-Clean (object fs) =
          Holds-bind CleanFields Clean _ _ (redact_fields-Clean fs) (λ gs c. c)
      redact_value-Clean (ref a) = clean a
      redact_value-Clean _ = tt

      redact_items-Clean :
          (vs : Items) → Holds CleanItems (redact_items lower field_names marker deref vs)
      redact_items-Clean nil = tt
      redact_items-Clean (cons v vs) =
          Holds-bind Clean CleanItems _ _ (redact_value-Clean v)
            (λ w c. Holds-bind CleanItems CleanItems _ _ (redact_items-Clean vs) (λ ws cs. (c, cs)))

      redact_fields-Clean :
          (fs : Fields) → Holds CleanFields (redact_fields lower field_names marker deref fs)
      redact_fields-Clean end = tt
      redact_fields-Clean (field k v fs) =
          Holds-bind
            (λ w. (is_target lower field_names marker k ≡ true → w ≡ text marker) × Clean w)
            CleanFields _ _
            (redacted_field (is_target lower field_names marker k)
              (redact_value lower field_names marker deref v) (redact_value-Clean v))
            (λ w h.
              Holds-bind CleanFields CleanFields _ _ (redact_fields-Clean fs)
                (λ gs cs. (h.0, h.1, cs)))

  pub redact_ref-Clean :
      (objects : Objects) (fuel : ℕ) (seen : List ℕ) (a : ℕ)
      → Holds Clean (redact_ref lower field_names marker objects fuel seen a)
  unfolding redact_ref
  redact_ref-Clean objects zero seen a = tt
  redact_ref-Clean objects (suc fuel) seen a = elim (Bool-cases (seen_has seen a)) [
    | inl old ↦ rw old tt
    | inr new ↦ rw new (
        redact_value-Clean (redact_ref lower field_names marker objects fuel (a ∷ seen))
          (redact_ref-Clean objects fuel (a ∷ seen)) (content objects a))
  ]

  abbrev pub CleanOut : Json × Bool → Type 0
  CleanOut (j, lossy) = JsonClean j

  abbrev pub CleanItemsOut : JsonItems × Bool → Type 0
  CleanItemsOut (js, lossy) = JsonCleanItems js

  abbrev pub CleanFieldsOut : JsonFields × Bool → Type 0
  CleanFieldsOut (fs, lossy) = JsonCleanFields fs

  abbrev TargetOut : Text → Json × Bool → Type 0
  TargetOut k (j, lossy) =
      (is_target lower field_names marker k ≡ true → j ≡ json_text marker) × JsonClean j

  place_field-Clean :
      (k : Text) (j : Json) (fs : JsonFields)
      → (is_target lower field_names marker k ≡ true → j ≡ json_text marker)
      → JsonClean j
      → JsonCleanFields fs
      → JsonCleanFields (place_field k j fs)
  unfolding place_field
  place_field-Clean k j json_end h c cs = (h, c, tt)
  place_field-Clean k j (json_field l i fs) h c (g, d, ds) = elim (Bool-cases (key_lt l k)) [
    | inl e ↦ rw e (g, d, place_field-Clean k j fs h c ds)
    | inr e ↦ rw e (h, c, (g, d, ds))
  ]

  insert_field-Clean :
      (k : Text) (j : Json) (fs : JsonFields)
      → (is_target lower field_names marker k ≡ true → j ≡ json_text marker)
      → JsonClean j
      → JsonCleanFields fs
      → JsonCleanFields (insert_field k j fs)
  unfolding insert_field
  insert_field-Clean k j fs h c cs =
      if-holds JsonCleanFields (same_text k (codes "__proto__")) _ _ (λ e. cs)
        (λ e. place_field-Clean k j fs h c cs)

  marker-Clean :
      (kind : Text)
      → is_target lower field_names marker unstorable_key ≡ false
      → JsonClean (marker_for kind)
  marker-Clean kind h = ((λ e. cc), tt, tt)

  module _ (deref : ℕ → Outcome (Json × Bool))
      (fresh : is_target lower field_names marker unstorable_key ≡ false) where
    unstorable-Clean : (kind : Text) → Holds CleanOut (unstorable false kind)
    unfolding unstorable
    unstorable-Clean kind = marker-Clean kind fresh

    untargeted :
        (k : Text) (m : Outcome (Json × Bool))
        → is_target lower field_names marker k ≡ false
        → Holds CleanOut m
        → Holds (TargetOut k) m
    untargeted k (done (j, lossy)) e h = ((λ t. cc), h)
    untargeted k thrown e h = tt
    untargeted k exhausted e h = tt

    encoded_field :
        (k : Text) (v : JsValue)
        → (is_target lower field_names marker k ≡ true → v ≡ text marker)
        → Holds CleanOut (encode_value false deref v)
        → Holds (TargetOut k) (encode_value false deref v)
    unfolding encode_value
    encoded_field k v h c = elim (Bool-cases (is_target lower field_names marker k)) [
      | inl e ↦
          subst (λ u. Holds (TargetOut k) (encode_value false deref u)) (sym (h e))
            ((λ _. refl), tt)
      | inr e ↦ untargeted k (encode_value false deref v) e c
    ]

    mutual
      unfolding encode_value

      pub encode_value-Clean :
          (v : JsValue) → IsTree v → Clean v → Holds CleanOut (encode_value false deref v)
      encode_value-Clean (array vs) t c =
          Holds-bind CleanItemsOut CleanOut _ _ (encode_items-Clean vs t c) (λ p h. h)
      encode_value-Clean (object fs) t c =
          Holds-bind CleanFieldsOut CleanOut _ _ (encode_fields-Clean fs t c) (λ p h. h)
      encode_value-Clean (ref a) t c = absurd t
      encode_value-Clean (bool b) t c = tt
      encode_value-Clean (number n) t c = tt
      encode_value-Clean (text s) t c = tt
      encode_value-Clean null t c = tt
      encode_value-Clean undefined t c = unstorable-Clean (codes "undefined")
      encode_value-Clean non_finite t c = unstorable-Clean (codes "non-finite-number")
      encode_value-Clean bigint t c = unstorable-Clean (codes "bigint")
      encode_value-Clean function t c = unstorable-Clean (codes "function")
      encode_value-Clean symbol t c = unstorable-Clean (codes "symbol")

      encode_items-Clean :
          (vs : Items)
          → IsTreeItems vs
          → CleanItems vs
          → Holds CleanItemsOut (encode_items false deref vs)
      encode_items-Clean nil t c = tt
      encode_items-Clean (cons v vs) (t, ts) (c, cs) =
          Holds-bind CleanOut CleanItemsOut _ _ (encode_value-Clean v t c) (λ p h.
            Holds-bind CleanItemsOut CleanItemsOut _ _ (encode_items-Clean vs ts cs)
              (λ q g. (h, g)))

      encode_fields-Clean :
          (fs : Fields)
          → IsTreeFields fs
          → CleanFields fs
          → Holds CleanFieldsOut (encode_fields false deref fs)
      encode_fields-Clean end t c = tt
      encode_fields-Clean (field k v fs) (t, ts) (h, c, cs) =
          Holds-bind (TargetOut k) CleanFieldsOut _ _
            (encoded_field k v h (encode_value-Clean v t c))
            (λ p g.
              Holds-bind CleanFieldsOut CleanFieldsOut _ _ (encode_fields-Clean fs ts cs)
                (λ q gs. insert_field-Clean k p.0 q.0 g.0 g.1 gs))
