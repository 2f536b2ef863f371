-- ===== src/EventStore/Examples.antt =====
-- Concrete inputs of the event store.
use prime_system.Base.{
  ℕ, zero, suc, ◌+◌, ◌≡◌, refl, Bool, true, false, Text, codes, none, some, List, [], ◌∷◌, ◌++◌,
  length, arith,
}
use prime_system.Base.Strings.{same_text}
use prime_system.EventStore.Keys.{
  RunScope, quote, escape, stringify, row_key, scope_key, idempotency_key_of,
}
use prime_system.EventStore.Keys.Injective.{row_key-injective}
use prime_system.EventStore.Values.{
  JsValue, text, object, ref, bigint, number, end, field, Json, json_text, json_object, json_field,
  json_end, json_number, done, thrown, Objects, array, cons, nil, content,
}
use prime_system.EventStore.Serialize.{encode, marker_for, insert_field, place_field}
use prime_system.EventStore.Serialize.Total.{encode_total, has_unstorable, replaces}
use prime_system.EventStore.Redaction.{redact}
use prime_system.EventStore.Redaction.Secrets.{Clean, JsonClean}
use prime_system.EventStore.Redaction.Acyclic.{Below}
use prime_system.EventStore.Redaction.Stored.{redact_total, stored-Clean, cyclic_leak}
use prime_system.EventStore.Operations.{
  ok, World, Options, RunObject, EventRecord, RunRevision, EventStore, new_store, prepare, decode,
  run_revisions, event_records,
}
use prime_system.EventStore.Memory.{read_revisions, read_events, get_idempotency, append_event}
use prime_system.Base.Maps.{get, set}
use prime_system.EventStore.Methods.{
  append_in, events_in, revisions_in, save_in, get_in, replay_in, replay_equivalence,
  claim_idempotency, lookup_idempotency, IdempotencyClaim, ReplayResult, replayed, live_run,
}
use prime_system.EventStore.Methods.Calls.{Call, append_call, save_call, perform_all}
use prime_system.EventStore.Methods.Append.{Numbered}
use prime_system.EventStore.Methods.Log.{events-append, append-others}
use prime_system.EventStore.Methods.Reach.{perform_all-readable, empty-IsNumbered}
use prime_system.EventStore.Methods.Runs.{replay_equivalence-save, replay-save, replay-lossy_event}
use prime_system.EventStore.Methods.Idempotency.{claim-claim, record_of}

abbrev acme : RunScope
acme = record { tenant = codes "acme"; workspace = codes "w"; snapshot = codes "s1" }

abbrev other : RunScope
other = record { tenant = codes "other"; workspace = codes "w"; snapshot = codes "s1" }

-- Options that redact nothing, and a world of one run.
abbrev plain : Options
plain = record {
  redact_event = λ scope run_id type objects v. done v;
  redact_run = λ scope run_id objects v. done v;
  strict = false;
  default_scope = acme;
}

abbrev run : RunObject
run = record {
  id = codes "r1";
  context = record {
    snapshot = codes "s1";
    tenant = some (codes "acme");
    workspace = some (codes "w");
  };
  value = object (field (codes "id") (text (codes "r1")) end);
}

abbrev now : World
now = record { objects = []; run_at = λ i. run; now = 7 }

abbrev payload : JsValue
payload = object (field (codes "n") (number 3) end)

abbrev payload_json : Json
payload_json = json_object (json_field (codes "n") (json_number 3) json_end)

abbrev run_json : Json
run_json = json_object (json_field (codes "id") (json_text (codes "r1")) json_end)

row_key-injective_example : (acme ≡ acme) × (codes "r1" ≡ codes "r1")
row_key-injective_example = row_key-injective acme acme (codes "r1") (codes "r1") refl

-- Marshalling of leaves that JSON has no place for is not met here.
abbrev marked : JsValue
marked = object (field (codes "token") (text (codes "hunter2")) (field (codes "big") bigint end))

encode_total_example :
    (j : Json) × (encode [] false marked ≡ done (j, true)) × (encode [] true marked ≡ thrown)
unfolding has_unstorable replaces
encode_total_example = encode_total [] marked

abbrev secret_names : List Text
secret_names = codes "token" ∷ []

abbrev as_is : Text → Text
as_is t = t

redact_total_example :
    (w : JsValue) × (redact as_is secret_names (codes "***") [] marked ≡ done w)
    × Clean as_is secret_names (codes "***") w
redact_total_example = redact_total as_is secret_names (codes "***") [] marked

abbrev safe : JsValue
safe = object (field (codes "token") (text (codes "***")) end)

-- An object with a secret that is referred to twice.
abbrev shared_objects : Objects
shared_objects = object (field (codes "token") (text (codes "hunter2")) end) ∷ []

abbrev twice : JsValue
twice = array (cons (ref 0) (cons (ref 0) nil))

shared_falls : (a : ℕ) → Below (λ b. 0) (0) (content shared_objects a)
shared_falls zero = (tt, tt)
shared_falls (suc a) = tt

stored-Clean_example :
    (w : JsValue) × (j : Json) × (lossy : Bool) × (redact as_is secret_names
        (codes "***")
        shared_objects
        twice
      ≡ done w)
    × (encode shared_objects false w ≡ done (j, lossy))
    × JsonClean as_is secret_names (codes "***") j
unfolding same_text
stored-Clean_example =
    stored-Clean as_is secret_names (codes "***") (λ a. 0) 1 shared_objects twice refl shared_falls
      (omega arith, (omega arith, tt))

abbrev loop_objects : Objects
loop_objects =
    object (field (codes "token") (text (codes "hunter2")) (field (codes "self") (ref 0) end)) ∷ []

cyclic_leak_example :
    redact as_is secret_names (codes "***") loop_objects (ref 0)
    ≡ done (object (field (codes "token") (text (codes "***")) (field (codes "self") (ref 0) end)))
unfolding same_text
cyclic_leak_example =
    (cyclic_leak as_is secret_names (codes "***") loop_objects 0 (codes "token") (codes "self")
      (codes "hunter2") refl (omega arith) refl refl refl refl).0

events-append_example :
    (es : List EventRecord) × (events_in plain now acme (codes "r1") new_store ≡ ok es)
    × (events_in plain now acme
          (codes "r1")
          (append_in plain now acme (codes "r1") (codes "started") payload new_store).0
        ≡ ok (
            es
            ++ record {
              sequence = length es + 1;
              run_id = codes "r1";
              type = codes "started";
              at = 7;
              payload = decode payload_json;
            }
              ∷ []))
    × ((append_in plain now acme (codes "r1") (codes "started") payload new_store).1
        ≡ ok (record {
          sequence = length es + 1;
          run_id = codes "r1";
          type = codes "started";
          at = 7;
          payload = payload;
        }))
unfolding prepare encode insert_field place_field new_store same_text
events-append_example =
    events-append plain now acme (codes "r1") (codes "started") payload payload payload_json false
      new_store empty-IsNumbered refl

append-others_example :
    (¬ ((acme ≡ other) × (codes "r1" ≡ codes "r1"))
      → events_in plain now other
          (codes "r1")
          (append_in plain now acme (codes "r1") (codes "started") payload new_store).0
        ≡ events_in plain now other (codes "r1") new_store)
    × (revisions_in plain now other
          (codes "r1")
          (append_in plain now acme (codes "r1") (codes "started") payload new_store).0
        ≡ revisions_in plain now other (codes "r1") new_store)
append-others_example =
    append-others plain now acme (codes "r1") (codes "started") payload new_store other (codes "r1")

abbrev calls : List (World × Call)
calls = (now, save_call 0) ∷ (now, append_call (codes "r1") (codes "started") payload) ∷ []

perform_all-readable_example :
    ((es : List EventRecord) × (events_in plain now acme
          (codes "r1")
          (perform_all plain calls new_store)
        ≡ ok es)
      × Numbered EventRecord.sequence 0 es)
    × ((rs : List RunRevision) × (revisions_in plain now acme
            (codes "r1")
            (perform_all plain calls new_store)
          ≡ ok rs)
        × Numbered RunRevision.revision 0 rs)
perform_all-readable_example = perform_all-readable plain calls now acme (codes "r1")

replay_equivalence-save_example :
    replay_equivalence plain now acme (codes "r1") (save_in plain now acme 0 new_store).0
    ≡ ok (record { equivalent = true; lossy = false; live = some run_json; stored = some run_json })
unfolding prepare encode insert_field place_field same_text
replay_equivalence-save_example =
    replay_equivalence-save plain now acme 0 run.value run_json false new_store refl

replay-save_example :
    get_in plain now acme (codes "r1") (save_in plain now acme 0 new_store).0
    ≡ ok (some (live_run 0))
unfolding prepare encode insert_field place_field new_store revisions_in events_in run_revisions
    read_revisions get same_text event_records read_events
replay-save_example =
    (replay-save plain now acme 0 run.value run_json false new_store empty-IsNumbered refl [] []
      refl refl).0

-- A claim of one action.
abbrev claim : IdempotencyClaim
claim = record {
  scope = acme;
  action = codes "pay";
  idempotency_key = codes "k1";
  fingerprint = codes "f";
  run_id = codes "r1";
}

claim-claim_example :
    claim_idempotency plain now claim (claim_idempotency plain now claim new_store).0
    ≡ ((claim_idempotency plain now claim new_store).0, ok (replayed (record_of claim 7)))
unfolding lookup_idempotency new_store same_text idempotency_key_of get_idempotency get
claim-claim_example = (claim-claim plain now now claim claim new_store refl refl refl refl refl).1

-- An event with a leaf that JSON has no place for.
abbrev odd_event : JsValue
odd_event = object (field (codes "n") bigint end)

abbrev odd_log : EventStore
odd_log = (append_in plain now acme (codes "r1") (codes "odd") odd_event new_store).0

abbrev odd_replay : ReplayResult
odd_replay = record {
  run_id = codes "r1";
  scope = acme;
  run = none;
  events =
      record {
        sequence = 1;
        run_id = codes "r1";
        type = codes "odd";
        at = 7;
        payload = object (field (codes "n") (decode (marker_for (codes "bigint"))) end);
      }
      ∷ [];
  revisions = [];
  lossy = false;
}

replay-lossy_event_example : odd_replay.lossy ≡ false
unfolding prepare encode insert_field place_field new_store revisions_in events_in run_revisions
    read_revisions get same_text event_records read_events replay_in append_in append_event set
    row_key scope_key stringify quote escape decode
replay-lossy_event_example =
    replay-lossy_event plain now acme (codes "r1") (codes "odd") odd_event new_store [] odd_replay
      refl refl refl
