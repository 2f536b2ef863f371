-- ===== src/EventStore/Redaction.antt =====
-- packages/event-store/src/redaction.ts: the redactor of named fields. `lower` stands for
-- String.prototype.toLowerCase.
pub mod Secrets
pub mod Total
pub mod Acyclic
pub mod Stored
pub mod Compose
use prime_system.Base.{
  ℕ, zero, suc, Text, Bool, false, ◌||◌, List, [], ◌∷◌, if◌then◌else◌, length, codes, map,
  same_text,
}
use prime_system.EventStore.Values.{
  JsValue, text, array, object, ref, Items, nil, cons, Fields, end, field, Outcome, done, exhausted,
  ◌>>=◌, Objects, content,
}
use prime_system.EventStore.Seen.{seen_has}

-- REDACTED
abbrev pub redacted_marker : Text
redacted_marker = codes "[redacted]"

abbrev pub has_text : List Text → Text → Bool
has_text [] t = false
has_text (s ∷ ss) t = same_text s t || has_text ss t

module _ (lower : Text → Text) (field_names : List Text) (marker : Text) where
  -- `targets.has(key.toLowerCase())`
  abbrev pub is_target : Text → Bool
  is_target key = has_text (map lower field_names) (lower key)

  unfoldable mutual
    -- `walk`, where `deref` walks a shared object.
    pub redact_value : (ℕ → Outcome JsValue) → JsValue → Outcome JsValue
    redact_value deref (array vs) = redact_items deref vs >>= λ ws. done (array ws)
    redact_value deref (object fs) = redact_fields deref fs >>= λ gs. done (object gs)
    redact_value deref (ref a) = deref a
    redact_value deref v = done v

    pub redact_items : (ℕ → Outcome JsValue) → Items → Outcome Items
    redact_items deref nil = done nil
    redact_items deref (cons v vs) =
        redact_value deref v >>= λ w. redact_items deref vs >>= λ ws. done (cons w ws)

    pub redact_fields : (ℕ → Outcome JsValue) → Fields → Outcome Fields
    redact_fields deref end = done end
    redact_fields deref (field k v fs) =
        (if is_target k then done (text marker) else redact_value deref v) >>= λ w.
        redact_fields deref fs >>= λ gs. done (field k w gs)

  -- A shared object that stands on its own path is returned as it is; any other is copied.
  unfoldable pub redact_ref : Objects → ℕ → List ℕ → ℕ → Outcome JsValue
  unfolding redact_value
  redact_ref objects zero seen a = exhausted
  redact_ref objects (suc fuel) seen a =
      let copied = redact_value (redact_ref objects fuel (a ∷ seen)) (content objects a) in
      if seen_has seen a then done (ref a) else copied

  unfoldable pub redact : Objects → JsValue → Outcome JsValue
  unfolding redact_ref
  redact objects value = redact_value (redact_ref objects (suc (length objects)) []) value
