-- ===== src/EventStore/Operations.antt =====
-- packages/event-store/src/base.ts over the memory backend. An operation returns the store also
-- where it throws, since a throw does not undo what was written before it. A run is an object of
-- the caller, by reference: the store keeps the reference, and the caller may change the object.
use prime_system.Base.{
  ℕ, ◌+◌, Text, Bool, true, false, not, ◌&&◌, List, [], ◌∷◌, eqb, text_eq, same_text,
}
use prime_system.EventStore.Keys.{RunScope, RunScopeSource}
use prime_system.EventStore.Values.{
  JsValue, null, bool, number, text, array, object, Items, nil, cons, Fields, end, field, Json,
  json_null, json_bool, json_number, json_text, json_array, json_object, JsonItems, json_nil,
  json_cons, JsonFields, json_end, json_field, Outcome, done, thrown, exhausted, Objects,
}
use prime_system.EventStore.Serialize.{encode}
use prime_system.EventStore.Memory.{StoredEventRow, StoredRevisionRow, MemoryBackend, empty}

pub data StoreError : Type 0 where
  run_scope_conflict idempotency_key_required idempotency_conflict : StoreError
  serialization_failed sequence_broken append_only_violation walk_exhausted : StoreError

pub data Result (A : Type 0) : Type 0 where
  ok : A → Result A
  err : StoreError → Result A

-- A run object and what the store reads off it.
pub record RunObject : Type 0 where
  pub id : Text
  pub context : RunScopeSource
  pub value : JsValue

-- What an operation meets outside the store: the shared objects, the caller's runs, the clock.
pub record World : Type 0 where
  pub objects : Objects
  pub run_at : ℕ → RunObject
  pub now : ℕ

-- EventStoreOptions; the two functions are the redactor's, over scope, run id and, of an event, its
-- type.
pub record Options : Type 0 where
  pub redact_event : RunScope → Text → Text → Objects → JsValue → Outcome JsValue
  pub redact_run : RunScope → Text → Objects → JsValue → Outcome JsValue
  pub strict : Bool
  pub default_scope : RunScope

pub record EventRecord : Type 0 where
  pub sequence : ℕ
  pub run_id : Text
  pub type : Text
  pub at : ℕ
  pub payload : JsValue

pub record RunRevision : Type 0 where
  pub revision : ℕ
  pub run_id : Text
  pub scope : RunScope
  pub at : ℕ
  pub run : JsValue
  pub lossy : Bool

pub record EventStore : Type 0 where
  pub backend : MemoryBackend
  pub run_scopes : List (Text × RunScope)
  pub live : List (Text × ℕ)

unfoldable pub new_store : EventStore
unfolding empty
new_store = record { backend = empty; run_scopes = []; live = [] }

-- `JSON.parse`
unfoldable mutual
  pub decode : Json → JsValue
  decode json_null = null
  decode (json_bool b) = bool b
  decode (json_number n) = number n
  decode (json_text t) = text t
  decode (json_array js) = array (decode_items js)
  decode (json_object fs) = object (decode_fields fs)

  pub decode_items : JsonItems → Items
  decode_items json_nil = nil
  decode_items (json_cons j js) = cons (decode j) (decode_items js)

  pub decode_fields : JsonFields → Fields
  decode_fields json_end = end
  decode_fields (json_field k j fs) = field k (decode j) (decode_fields fs)

-- Equality of two texts of JSON.
unfoldable mutual
  pub same_json : Json → Json → Bool
  same_json json_null json_null = true
  same_json (json_bool true) (json_bool b) = b
  same_json (json_bool false) (json_bool b) = not b
  same_json (json_number n) (json_number m) = eqb n m
  same_json (json_text s) (json_text t) = same_text s t
  same_json (json_array js) (json_array is) = same_items js is
  same_json (json_object fs) (json_object gs) = same_fields fs gs
  same_json _ _ = false

  pub same_items : JsonItems → JsonItems → Bool
  same_items json_nil json_nil = true
  same_items (json_cons j js) (json_cons i is) = same_json j i && same_items js is
  same_items _ _ = false

  pub same_fields : JsonFields → JsonFields → Bool
  same_fields json_end json_end = true
  same_fields (json_field k j fs) (json_field l i gs) =
      same_text k l && same_json j i && same_fields fs gs
  same_fields _ _ = false

-- `encode(redact(value))`, an error where either throws.
unfoldable pub prepare : Objects → Bool → Outcome JsValue → Result (JsValue × Json × Bool)
prepare objects strict thrown = err serialization_failed
prepare objects strict exhausted = err walk_exhausted
prepare objects strict (done redacted) = elim (encode objects strict redacted) [
  | done (json, lossy) ↦ ok (redacted, json, lossy)
  | thrown ↦ err serialization_failed
  | exhausted ↦ err walk_exhausted
]

-- The loop of `eventsIn`: the rows must be numbered without a gap.
unfoldable pub event_records : ℕ → Text → List StoredEventRow → Result (List EventRecord)
event_records index run_id [] = ok []
event_records index run_id (row ∷ rows) = elim (eqb row.sequence (index + 1)) [
  | false ↦ err sequence_broken
  | true ↦ elim (event_records (index + 1) run_id rows) [
    | err e ↦ err e
    | ok records ↦ ok (
        record {
          sequence = row.sequence;
          run_id = run_id;
          type = row.type;
          at = row.at;
          payload = decode row.payload;
        }
        ∷ records)
  ]
]

-- The loop of `foldRevisions`.
unfoldable pub run_revisions :
    ℕ → RunScope → Text → List StoredRevisionRow → Result (List RunRevision)
run_revisions index scope run_id [] = ok []
run_revisions index scope run_id (row ∷ rows) = elim (eqb row.revision (index + 1)) [
  | false ↦ err sequence_broken
  | true ↦ elim (run_revisions (index + 1) scope run_id rows) [
    | err e ↦ err e
    | ok revisions ↦ ok (
        record {
          revision = row.revision;
          run_id = run_id;
          scope = scope;
          at = row.at;
          run = decode row.run;
          lossy = row.lossy;
        }
        ∷ revisions)
  ]
]
