-- ===== src/EventStore/Memory.antt =====
-- packages/event-store/src/memory.ts: the backend that keeps its rows in maps; and the record types
-- of contracts.ts and base.ts.
use prime_system.Base.{
  ℕ, ◌+◌, Text, Bool, true, false, List, [], ◌∷◌, ◌++◌, Option, none, some, if◌then◌else◌, eqb,
  length, any, text_eq,
}
use prime_system.Base.Maps.{get, set}
use prime_system.EventStore.Keys.{RunScope, row_key}
use prime_system.EventStore.Values.{Json}

pub record StoredEventRow : Type 0 where
  pub sequence : ℕ
  pub type : Text
  pub at : ℕ
  pub payload : Json
  pub lossy : Bool

pub record StoredRevisionRow : Type 0 where
  pub revision : ℕ
  pub at : ℕ
  pub run : Json
  pub lossy : Bool

-- IdempotencyRecord: a claim with its time.
pub record IdempotencyRecord : Type 0 where
  pub scope : RunScope
  pub action : Text
  pub idempotency_key : Text
  pub fingerprint : Text
  pub run_id : Text
  pub at : ℕ

pub record MemoryBackend : Type 0 where
  pub events : List (Text × List StoredEventRow)
  pub revisions : List (Text × List StoredRevisionRow)
  pub idempotency : List (Text × IdempotencyRecord)

unfoldable pub empty : MemoryBackend
empty = record { events = []; revisions = []; idempotency = [] }

-- `map.get(id) ?? []`
abbrev pub rows_of : {A : Type 0} → Option (List A) → List A
rows_of none = []
rows_of (some rows) = rows

unfoldable pub read_events : Text → Text → MemoryBackend → List StoredEventRow
read_events key run_id b = rows_of (get (row_key key run_id) b.events)

unfoldable pub read_revisions : Text → Text → MemoryBackend → List StoredRevisionRow
read_revisions key run_id b = rows_of (get (row_key key run_id) b.revisions)

-- The new row's number; `none` is an AppendOnlyViolationError.
unfoldable pub append_event :
    Text → Text → Text → ℕ → Json → Bool → MemoryBackend → MemoryBackend × Option ℕ
append_event key run_id type at payload lossy b =
    let id = row_key key run_id in
    let rows = rows_of (get id b.events) in
    let sequence = length rows + 1 in
    let row : StoredEventRow = record {
      sequence = sequence;
      type = type;
      at = at;
      payload = payload;
      lossy = lossy;
    } in
    if any (λ (r : StoredEventRow). eqb r.sequence sequence) rows
    then (b, none)
    else (record b { events = set id (rows ++ row ∷ []) b.events }, some sequence)

unfoldable pub append_revision : Text → Text → ℕ → Json → Bool → MemoryBackend → MemoryBackend × ℕ
append_revision key run_id at run lossy b =
    let id = row_key key run_id in
    let rows = rows_of (get id b.revisions) in
    let revision = length rows + 1 in
    let row : StoredRevisionRow = record {
      revision = revision;
      at = at;
      run = run;
      lossy = lossy;
    } in
    (record b { revisions = set id (rows ++ row ∷ []) b.revisions }, revision)

-- The record that holds the key, and whether this call inserted it.
unfoldable pub put_idempotency :
    Text → IdempotencyRecord → MemoryBackend → MemoryBackend × IdempotencyRecord × Bool
put_idempotency tuple_key new_record b = elim (get tuple_key b.idempotency) [
  | some existing ↦ (b, existing, false)
  | none ↦ (record b { idempotency = set tuple_key new_record b.idempotency }, new_record, true)
]

unfoldable pub get_idempotency : Text → MemoryBackend → Option IdempotencyRecord
get_idempotency tuple_key b = get tuple_key b.idempotency
