-- ===== src/EventStore/Serialize.antt =====
-- packages/event-store/src/serialize.ts. The text of JSON is represented by the tree that it
-- spells, the error by `thrown`, without its message; keys are sorted as they are stored, which
-- gives what the source gets by walking them in sorted order, array indices first.
pub mod Keys
pub mod Total
use prime_system.Base.{
  ℕ, zero, suc, Text, Bool, true, false, ◌||◌, List, [], ◌∷◌, if◌then◌else◌, eqb, same_text, length,
  codes,
}
use prime_system.EventStore.Values.{
  JsValue, null, undefined, non_finite, bigint, function, symbol, bool, number, text, array, object,
  ref, Items, nil, cons, Fields, end, field, Json, json_null, json_bool, json_number, json_text,
  json_array, json_object, JsonItems, json_nil, json_cons, JsonFields, json_end, json_field,
  Outcome, done, thrown, exhausted, ◌>>=◌, Objects, content,
}
use prime_system.EventStore.Serialize.Keys.{key_lt}
use prime_system.EventStore.Seen.{seen_has}

-- The marker `{ $unstorable: kind }`.
abbrev pub unstorable_key : Text
unstorable_key = codes "$unstorable"

abbrev pub marker_for : Text → Json
marker_for kind = json_object (json_field unstorable_key (json_text kind) json_end)

-- A leaf that JSON cannot carry: an error in strict mode, else its marker, and the record is lossy.
unfoldable pub unstorable : Bool → Text → Outcome (Json × Bool)
unstorable true kind = thrown
unstorable false kind = done (marker_for kind, true)

unfoldable pub place_field : Text → Json → JsonFields → JsonFields
place_field k v json_end = json_field k v json_end
place_field k v (json_field j w fs) =
    if key_lt j k then json_field j w (place_field k v fs) else json_field k v (json_field j w fs)

-- `result[key] = value`: the key "__proto__" sets the prototype and is no field.
unfoldable pub insert_field : Text → Json → JsonFields → JsonFields
insert_field k v fs = if same_text k (codes "__proto__") then fs else place_field k v fs

unfoldable mutual
  unfolding unstorable insert_field

  -- `walk`, where `deref` walks a shared object.
  pub encode_value : Bool → (ℕ → Outcome (Json × Bool)) → JsValue → Outcome (Json × Bool)
  encode_value strict deref null = done (json_null, false)
  encode_value strict deref undefined = unstorable strict (codes "undefined")
  encode_value strict deref non_finite = unstorable strict (codes "non-finite-number")
  encode_value strict deref bigint = unstorable strict (codes "bigint")
  encode_value strict deref function = unstorable strict (codes "function")
  encode_value strict deref symbol = unstorable strict (codes "symbol")
  encode_value strict deref (bool b) = done (json_bool b, false)
  encode_value strict deref (number n) = done (json_number n, false)
  encode_value strict deref (text t) = done (json_text t, false)
  encode_value strict deref (array vs) =
      encode_items strict deref vs >>= λ (js, lossy). done (json_array js, lossy)
  encode_value strict deref (object fs) =
      encode_fields strict deref fs >>= λ (js, lossy). done (json_object js, lossy)
  encode_value strict deref (ref a) = deref a

  pub encode_items : Bool → (ℕ → Outcome (Json × Bool)) → Items → Outcome (JsonItems × Bool)
  encode_items strict deref nil = done (json_nil, false)
  encode_items strict deref (cons v vs) = encode_value strict deref v >>= λ (j, lossy).
      encode_items strict deref vs >>= λ (js, lossy'). done (json_cons j js, lossy || lossy')

  pub encode_fields : Bool → (ℕ → Outcome (Json × Bool)) → Fields → Outcome (JsonFields × Bool)
  encode_fields strict deref end = done (json_end, false)
  encode_fields strict deref (field k v fs) = encode_value strict deref v >>= λ (j, lossy).
      encode_fields strict deref fs >>= λ (js, lossy'). done (insert_field k j js, lossy || lossy')

-- A shared object that stands on its own path is a cycle.
unfoldable pub encode_ref : Objects → Bool → ℕ → List ℕ → ℕ → Outcome (Json × Bool)
unfolding encode_value unstorable
encode_ref objects strict zero seen a = exhausted
encode_ref objects strict (suc fuel) seen a =
    let inside =
      encode_value strict (encode_ref objects strict fuel (a ∷ seen)) (content objects a) in
    if seen_has seen a then unstorable strict (codes "cycle") else inside

-- A path holds each shared object once, so one round more than there are objects is enough.
unfoldable pub encode : Objects → Bool → JsValue → Outcome (Json × Bool)
unfolding encode_ref
encode objects strict value =
    encode_value strict (encode_ref objects strict (suc (length objects)) []) value
