-- ===== src/EventStore/Methods/Log.antt =====
-- appendIn and eventsIn of packages/event-store/src/base.ts.
use prime_system.Base.{
  ℕ, ◌+◌, ◌≡◌, inl, inr, arith, Text, Bool, false, List, length, text_eq, same_text, same_text_iff,
  map, length-map, Bool-cases,
}
use mathlib.Core.List.{map-append}
use prime_system.Base.Maps.{get, set, get-set, get-set_self}
use prime_system.EventStore.Keys.{RunScope, scope_key, row_key}
use prime_system.EventStore.Keys.Injective.{row_key-injective}
use prime_system.EventStore.Values.{JsValue, Json}
use prime_system.EventStore.Memory.{StoredEventRow, read_events, rows_of, read_revisions}
use prime_system.EventStore.Operations.{
  Result, ok, World, Options, EventRecord, EventStore, decode, prepare, event_records,
}
use prime_system.EventStore.Methods.{append_in, events_in, revisions_in}
use prime_system.EventStore.Methods.Append.{
  Numbered, snoc, Numbered-snoc, event_of, event_records_lem, IsNumbered, event_row,
  append_event_lem, append_in-backend, append_event-others, append_event-revisions,
}

pub other_key :
    (s t : RunScope) (r q : Text)
    → ¬ ((s ≡ t) × (r ≡ q))
    → same_text (row_key (scope_key s) r) (row_key (scope_key t) q) ≡ false
other_key s t r q h =
    elim (Bool-cases (same_text (row_key (scope_key s) r) (row_key (scope_key t) q))) [
      | inl e ↦ absurd (h (row_key-injective s t r q ((same_text_iff _ _).0 e)))
      | inr e ↦ e
    ]

pub set-Numbered :
    {A : Type 0} (number : A → ℕ) (id : Text) (rows : List A) (m : List (Text × List A))
    → ((j : Text) → Numbered number 0 (rows_of (get j m)))
    → Numbered number 0 rows
    → (j : Text) → Numbered number 0 (rows_of (get j (set id rows m)))
set-Numbered number id rows m h k j = elim (Bool-cases (same_text id j)) [
  | inl e ↦ rw (get-set id j rows m, e) k
  | inr e ↦ rw (get-set id j rows m, e) (h j)
]

module _ (o : Options) (w : World) (scope : RunScope) (run_id : Text) where
  abbrev prepared : Text → JsValue → Result (JsValue × Json × Bool)
  prepared type payload =
      prepare w.objects o.strict (o.redact_event scope run_id type w.objects payload)

  abbrev appended : Text → Json → Bool → EventStore → EventStore
  appended type json lossy s =
      let rows = read_events (scope_key scope) run_id s.backend in
      record s {
        backend = record (s.backend) {
          events =
              set (row_key (scope_key scope) run_id)
                (snoc rows (event_row type w.now json lossy rows)) s.backend.events;
        };
      }

  append_in_lem :
      (type : Text) (payload redacted : JsValue) (json : Json) (lossy : Bool) (s : EventStore)
      → IsNumbered s.backend
      → prepared type payload ≡ ok (redacted, json, lossy)
      → append_in o w scope run_id type payload s ≡ (
        appended type json lossy s,
        ok (record {
          sequence = length (read_events (scope_key scope) run_id s.backend) + 1;
          run_id = run_id;
          type = type;
          at = w.now;
          payload = redacted;
        }),
      )
  unfolding append_in
  append_in_lem type payload redacted json lossy s h e =
      ground (arith, e, append_event_lem (scope_key scope) run_id type w.now json lossy s.backend h)

  read_appended :
      (type : Text) (json : Json) (lossy : Bool) (s : EventStore)
      → let rows = read_events (scope_key scope) run_id s.backend in
        read_events (scope_key scope) run_id (appended type json lossy s).backend
        ≡ snoc rows (event_row type w.now json lossy rows)
  unfolding read_events
  read_appended type json lossy s = rw (get-set_self (row_key (scope_key scope) run_id))

  read_back :
      (type : Text) (json : Json) (lossy : Bool) (s : EventStore)
      → let rows = read_events (scope_key scope) run_id s.backend in
        Numbered StoredEventRow.sequence 0 rows
        → event_records 0 run_id
            (read_events (scope_key scope) run_id (appended type json lossy s).backend)
          ≡ ok (
              snoc (map (event_of run_id) rows) (record {
                sequence = length (map (event_of run_id) rows) + 1;
                run_id = run_id;
                type = type;
                at = w.now;
                payload = decode json;
              }))
  unfolding event_row event_of
  read_back type json lossy s numbered =
      let rows = read_events (scope_key scope) run_id s.backend in
      let row = event_row type w.now json lossy rows in
      rw (
        read_appended type json lossy s,
        event_records_lem 0 run_id (snoc rows row)
            (Numbered-snoc StoredEventRow.sequence 0 rows row numbered (omega arith)),
        map-append,
        length-map (event_of run_id) rows,
      )

  -- An append to a store whose logs are numbered, of a payload that redaction and encoding accept,
  -- returns the redacted payload under the next number; the events read back afterwards are those
  -- of before and the new one, with the payload that its stored JSON spells.
  pub events-append :
      (type : Text) (payload redacted : JsValue) (json : Json) (lossy : Bool) (s : EventStore)
      → IsNumbered s.backend
      → prepared type payload ≡ ok (redacted, json, lossy)
      → (es : List EventRecord) × (events_in o w scope run_id s ≡ ok es)
        × (events_in o w scope run_id (append_in o w scope run_id type payload s).0
            ≡ ok (
                snoc es (record {
                  sequence = length es + 1;
                  run_id = run_id;
                  type = type;
                  at = w.now;
                  payload = decode json;
                })))
        × ((append_in o w scope run_id type payload s).1
            ≡ ok (record {
              sequence = length es + 1;
              run_id = run_id;
              type = type;
              at = w.now;
              payload = redacted;
            }))
  unfolding events_in event_row
  events-append type payload redacted json lossy s h e =
      let rows = read_events (scope_key scope) run_id s.backend in
      let row = event_row type w.now json lossy rows in
      let numbered : Numbered StoredEventRow.sequence 0 rows =
        unfold read_events in h.events_numbered (row_key (scope_key scope) run_id) in
      (
        map (event_of run_id) rows,
        event_records_lem 0 run_id rows numbered,
        rw (append_in_lem type payload redacted json lossy s h e)
            (read_back type json lossy s numbered),
        rw (
          append_in_lem type payload redacted json lossy s h e,
          length-map (event_of run_id) rows,
        ),
      )

  -- What an append leaves alone: the events and the revisions of every other run, of every other
  -- scope, and the revisions of the run itself, read back as before, whether it succeeds or not.
  pub append-others :
      (type : Text) (payload : JsValue) (s : EventStore) (other : RunScope) (q : Text)
      → let s' = (append_in o w scope run_id type payload s).0 in
        (¬ ((scope ≡ other) × (run_id ≡ q)) → events_in o w other q s' ≡ events_in o w other q s)
        × (revisions_in o w other q s' ≡ revisions_in o w other q s)
  unfolding events_in revisions_in read_events read_revisions
  append-others type payload s other q = elim (append_in-backend o w scope run_id type payload s) [
    | inl same ↦ ((λ _. rw same), rw same)
    | inr (json, lossy, same) ↦ (
      (λ apart. rw (
        same,
        append_event-others (scope_key scope) run_id type w.now json lossy s.backend
            (row_key (scope_key other) q) (other_key scope other run_id q apart),
      )),
      rw (same, append_event-revisions (scope_key scope) run_id type w.now json lossy s.backend),
    )
  ]
