-- ===== src/EventStore/Methods/Append.antt =====
-- appendEvent and appendRevision of packages/event-store/src/memory.ts, for the logs of one run.
use prime_system.Base.{
  ℕ, ◌+◌, ◌≡◌, refl, ◌⊎◌, inl, inr, arith, Text, Bool, false, List, [], ◌∷◌, ◌++◌, some, eqb,
  length, any, text_eq, same_text, map,
}
use prime_system.Base.Maps.{get, set, get-set_other}
use prime_system.EventStore.Keys.{RunScope, scope_key, row_key}
use prime_system.EventStore.Values.{JsValue, Json}
use prime_system.EventStore.Memory.{
  StoredEventRow, StoredRevisionRow, MemoryBackend, read_events, rows_of, append_event,
}
use prime_system.EventStore.Operations.{
  StoreError, Result, ok, err, World, Options, EventRecord, RunRevision, EventStore, decode,
  prepare, event_records, run_revisions,
}
use prime_system.EventStore.Methods.{append_in}

-- Rows numbered without a gap from n + 1.
abbrev pub Numbered {ℓ} : {A : Type ℓ} → (A → ℕ) → ℕ → List A → Type 0
Numbered number n [] = Unit
Numbered number n (r ∷ rs) = (number r ≡ n + 1) × Numbered number (n + 1) rs

abbrev pub snoc {ℓ} : {A : Type ℓ} → List A → A → List A
snoc xs x = xs ++ x ∷ []

module _ {ℓ} {A : Type ℓ} (number : A → ℕ) where
  pub Numbered-snoc :
      (n : ℕ) (rs : List A) (r : A)
      → Numbered number n rs
      → number r ≡ n + length rs + 1
      → Numbered number n (snoc rs r)
  Numbered-snoc n [] r h e = (omega arith, tt)
  Numbered-snoc n (q ∷ rs) r (p, h) e = (p, Numbered-snoc (n + 1) rs r h (omega arith))

  pub Numbered-fresh :
      (n k : ℕ) (rs : List A)
      → Numbered number n rs
      → n + length rs + 1 ≡ k
      → any (λ r. eqb (number r) k) rs ≡ false
  Numbered-fresh n k [] h e = refl
  Numbered-fresh n k (q ∷ rs) (p, h) e = ground (arith, Numbered-fresh (n + 1) k rs h)

unfoldable pub event_of : Text → StoredEventRow → EventRecord
event_of run_id row = record {
  sequence = row.sequence;
  run_id = run_id;
  type = row.type;
  at = row.at;
  payload = decode row.payload;
}

unfoldable pub revision_of : RunScope → Text → StoredRevisionRow → RunRevision
revision_of scope run_id row = record {
  revision = row.revision;
  run_id = run_id;
  scope = scope;
  at = row.at;
  run = decode row.run;
  lossy = row.lossy;
}

pub event_records_lem :
    (n : ℕ) (run_id : Text) (rows : List StoredEventRow)
    → Numbered StoredEventRow.sequence n rows
    → event_records n run_id rows ≡ ok (map (event_of run_id) rows)
unfolding event_records event_of
event_records_lem n run_id [] h = refl
event_records_lem n run_id (r ∷ rs) (p, h) = ground (arith, event_records_lem (n + 1) run_id rs h)

pub run_revisions_lem :
    (n : ℕ) (scope : RunScope) (run_id : Text) (rows : List StoredRevisionRow)
    → Numbered StoredRevisionRow.revision n rows
    → run_revisions n scope run_id rows ≡ ok (map (revision_of scope run_id) rows)
unfolding run_revisions revision_of
run_revisions_lem n scope run_id [] h = refl
run_revisions_lem n scope run_id (r ∷ rs) (p, h) =
    ground (arith, run_revisions_lem (n + 1) scope run_id rs h)

-- Every log is numbered from 1 without a gap.
pub record IsNumbered (b : MemoryBackend) : Type 0 where
  pub events_numbered : (id : Text) → Numbered StoredEventRow.sequence 0 (rows_of (get id b.events))
  pub revisions_numbered :
      (id : Text) → Numbered StoredRevisionRow.revision 0 (rows_of (get id b.revisions))

unfoldable pub event_row : Text → ℕ → Json → Bool → List StoredEventRow → StoredEventRow
event_row type at json lossy rows = record {
  sequence = length rows + 1;
  type = type;
  at = at;
  payload = json;
  lossy = lossy;
}

pub append_event_lem :
    (key run_id type : Text) (at : ℕ) (json : Json) (lossy : Bool) (b : MemoryBackend)
    → IsNumbered b
    → let rows = read_events key run_id b in
      append_event key run_id type at json lossy b ≡ (
        record b {
          events =
              set (row_key key run_id) (snoc rows (event_row type at json lossy rows)) b.events;
        },
        some (length rows + 1),
      )
unfolding append_event read_events event_row
append_event_lem key run_id type at json lossy b h =
    let rows = rows_of (get (row_key key run_id) b.events) in
    rw (
      Numbered-fresh StoredEventRow.sequence 0 (length rows + 1) rows
        (h.events_numbered (row_key key run_id)) (omega arith))

pub append_event-others :
    (key run_id type : Text) (at : ℕ) (json : Json) (lossy : Bool) (b : MemoryBackend) (id : Text)
    → same_text (row_key key run_id) id ≡ false
    → get id (append_event key run_id type at json lossy b).0.events ≡ get id b.events
unfolding append_event
append_event-others key run_id type at json lossy b id h =
    let rows = rows_of (get (row_key key run_id) b.events) in
    let row : StoredEventRow = record {
      sequence = length rows + 1;
      type = type;
      at = at;
      payload = json;
      lossy = lossy;
    } in
    ground (arith, get-set_other (row_key key run_id) id (rows ++ row ∷ []) b.events h)

pub append_event-revisions :
    (key run_id type : Text) (at : ℕ) (json : Json) (lossy : Bool) (b : MemoryBackend)
    → (append_event key run_id type at json lossy b).0.revisions ≡ b.revisions
unfolding append_event
append_event-revisions key run_id type at json lossy b = ground arith

pub Result-cases :
    {A : Type 0} (r : Result A) → ((a : A) × (r ≡ ok a)) ⊎ ((e : StoreError) × (r ≡ err e))
Result-cases (ok a) = inl (a, refl)
Result-cases (err e) = inr (e, refl)

-- What an append does to the backend: nothing, or one call of the backend's append.
pub append_in-backend :
    (o : Options) (w : World) (scope : RunScope) (run_id type : Text) (payload : JsValue)
    (s : EventStore)
    → ((append_in o w scope run_id type payload s).0.backend ≡ s.backend)
      ⊎ ((json : Json) × (lossy : Bool) × ((append_in o w scope run_id type payload s).0.backend
            ≡ (append_event (scope_key scope) run_id type w.now json lossy s.backend).0))
unfolding append_in
append_in-backend o w scope run_id type payload s =
    elim (Result-cases
      (prepare w.objects o.strict (o.redact_event scope run_id type w.objects payload))) [
        | inl (a, e) ↦ inr (a.1, a.2, ground (arith, e))
        | inr (x, e) ↦ inl (ground (arith, e))
      ]
