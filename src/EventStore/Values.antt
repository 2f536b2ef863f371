-- ===== src/EventStore/Values.antt =====
-- The JavaScript values that packages/event-store is given, and the JSON that it stores. A literal
-- array or object that nothing else refers to is written in place; an object that can be met
-- twice is `ref`, an index into the list of shared objects.
use prime_system.Base.{ℕ, zero, suc, Text, Bool, List, [], ◌∷◌}

mutual
  pub data JsValue : Type 0 where
    null undefined non_finite bigint function symbol : JsValue
    bool : Bool → JsValue
    number : ℕ → JsValue
    text : Text → JsValue
    array : Items → JsValue
    object : Fields → JsValue
    ref : ℕ → JsValue

  pub data Items : Type 0 where
    nil : Items
    cons : JsValue → Items → Items

  pub data Fields : Type 0 where
    end : Fields
    field : Text → JsValue → Fields → Fields

mutual
  pub data Json : Type 0 where
    json_null : Json
    json_bool : Bool → Json
    json_number : ℕ → Json
    json_text : Text → Json
    json_array : JsonItems → Json
    json_object : JsonFields → Json

  pub data JsonItems : Type 0 where
    json_nil : JsonItems
    json_cons : Json → JsonItems → JsonItems

  pub data JsonFields : Type 0 where
    json_end : JsonFields
    json_field : Text → Json → JsonFields → JsonFields

-- What a walk over a value ends in: a value, a SerializationError, or fuel that ran out.
pub data Outcome {ℓ} (A : Type ℓ) : Type ℓ where
  done : A → Outcome A
  thrown : Outcome A
  exhausted : Outcome A

infixl 5 ◌>>=◌
abbrev pub ◌>>=◌ {ℓ κ} : {A : Type ℓ} {B : Type κ} → Outcome A → (A → Outcome B) → Outcome B
done a >>= f = f a
thrown >>= f = thrown
exhausted >>= f = exhausted

-- The shared objects, by identity; an index out of the list is no object.
abbrev pub Objects : Type 0
Objects = List JsValue

abbrev pub content : Objects → ℕ → JsValue
content [] a = undefined
content (v ∷ vs) zero = v
content (v ∷ vs) (suc a) = content vs a
