-- ===== src/EventStore/Redaction/Stored.antt =====
-- Redaction followed by encoding, as appendIn and saveIn chain them.
use prime_system.Base.{
  ℕ, suc, ◌<◌, ◌≡◌, refl, Bool, true, false, Text, List, [], ◌∷◌, length, arith, eqb, codes,
  same_text,
}
use mathlib.Core.Path.{subst}
use prime_system.EventStore.Values.{
  JsValue, text, object, ref, end, field, Json, json_text, json_object, json_end, json_field, done,
  Objects, content,
}
use prime_system.EventStore.Serialize.{
  unstorable, unstorable_key, marker_for, insert_field, place_field, encode_value, encode_ref,
  encode,
}
use prime_system.EventStore.Redaction.{is_target, redact_value, redact_ref, redact}
use prime_system.EventStore.Redaction.Total.{redact_returns}
use prime_system.EventStore.Redaction.Acyclic.{Below, redact-IsTree}
use prime_system.EventStore.Serialize.Total.{encode_total, has_unstorable}
use prime_system.EventStore.Redaction.Secrets.{
  IsTree, Clean, JsonClean, Holds, redact_value-Clean, redact_ref-Clean, encode_value-Clean,
  CleanOut,
}

eqb_self : (a : ℕ) → eqb a a ≡ true
eqb_self a = ground arith

module _ (lower : Text → Text) (field_names : List Text) (marker : Text) where
  redact-Clean :
      (objects : Objects) (v : JsValue)
      → Holds (Clean lower field_names marker) (redact lower field_names marker objects v)
  unfolding redact
  redact-Clean objects v =
      redact_value-Clean lower field_names marker
        (redact_ref lower field_names marker objects (suc (length objects)) [])
        (redact_ref-Clean lower field_names marker objects (suc (length objects)) []) v

  -- Redaction always ends, also on shared objects that refer to one another in a cycle, and in the
  -- value that it gives every named field that is written in place, at any depth, holds the marker.
  pub redact_total :
      (objects : Objects) (v : JsValue)
      → (w : JsValue) × (redact lower field_names marker objects v ≡ done w)
        × Clean lower field_names marker w
  redact_total objects v =
      let (w, e) = redact_returns lower field_names marker objects v in
      (w, e, subst (Holds (Clean lower field_names marker)) e (redact-Clean objects v))

  -- Where no shared object can be reached from itself, which a rank of the objects shows that falls
  -- from each object to those that it refers to, a value is redacted and then encoded, and in the
  -- JSON that is stored every named field, at any depth and also in objects that are referred to
  -- from several places, holds the marker. (The key of the encoder's own markers must not be a named
  -- field.)
  pub stored-Clean :
      (rank : ℕ → ℕ) (n : ℕ) (objects : Objects) (v : JsValue)
      → is_target lower field_names marker unstorable_key ≡ false
      → ((a : ℕ) → Below rank (rank a) (content objects a))
      → Below rank n v
      → (w : JsValue) × (j : Json) × (lossy : Bool) × (redact lower field_names marker objects v
          ≡ done w)
        × (encode objects false w ≡ done (j, lossy))
        × JsonClean lower field_names marker j
  unfolding encode
  stored-Clean rank n objects v fresh falls below =
      let (w, redacted, clean) = redact_total objects v in
      let tree : IsTree w =
        subst (Holds IsTree) redacted
          (redact-IsTree lower field_names marker rank objects falls n v below) in
      let (j, encoded, strict) = encode_total objects w in
      (
        w,
        j,
        has_unstorable objects w,
        redacted,
        encoded,
        subst (Holds (CleanOut lower field_names marker)) encoded (
            encode_value-Clean lower field_names marker
              (encode_ref objects false (suc (length objects)) []) fresh w tree clean),
      )

  -- A shared object that refers to itself is stored with its secret: the copy that is redacted
  -- still refers to the original, which the encoder then walks. This holds for every such object,
  -- whatever its secret text, if neither key is "__proto__", which is never stored.
  pub cyclic_leak :
      (objects : Objects) (a : ℕ) (key self secret : Text)
      → content objects a ≡ object (field key (text secret) (field self (ref a) end))
      → a < length objects
      → is_target lower field_names marker key ≡ true
      → is_target lower field_names marker self ≡ false
      → same_text key (codes "__proto__") ≡ false
      → same_text self (codes "__proto__") ≡ false
      → (redact lower field_names marker objects (ref a)
          ≡ done (object (field key (text marker) (field self (ref a) end))))
        × (encode objects false (object (field key (text marker) (field self (ref a) end)))
            ≡ done (
              json_object (
                  place_field key (json_text marker) (
                    json_field self
                      (json_object (
                        place_field key
                          (json_text secret)
                          (json_field self (marker_for (codes "cycle")) json_end)))
                      json_end)),
              true,
            ))
  unfolding redact encode redact_ref encode_ref redact_value encode_value unstorable insert_field
      place_field
  cyclic_leak [] a key self secret at_a inside named other open_key open_self = absurd (omega arith)
  cyclic_leak (o ∷ os) a key self secret at_a inside named other open_key open_self = (
    rw (at_a, named, other, eqb_self a),
    rw (at_a, eqb_self a, open_key, open_self, insert_field) refl,
  )
