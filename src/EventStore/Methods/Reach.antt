-- ===== src/EventStore/Methods/Reach.antt =====
-- The stores that calls of the methods of packages/event-store/src/base.ts lead to.
use prime_system.Base.{
  ℕ, ◌+◌, ◌≡◌, ◌⊎◌, inl, inr, arith, Text, Bool, List, [], ◌∷◌, length, text_eq, map,
}
use prime_system.Base.Maps.{get, set}
use prime_system.EventStore.Keys.{RunScope, scope_key, row_key, to_scope}
use prime_system.EventStore.Values.{JsValue, Json}
use prime_system.EventStore.Memory.{
  StoredEventRow, StoredRevisionRow, MemoryBackend, read_events, rows_of, empty, read_revisions,
  append_event, append_revision, put_idempotency,
}
use prime_system.EventStore.Operations.{
  ok, World, Options, EventRecord, RunRevision, EventStore, prepare, new_store,
}
use prime_system.EventStore.Methods.{
  append_in, events_in, save_in, revisions_in, append, save, claim_idempotency, IdempotencyClaim,
  scope_for,
}
use prime_system.EventStore.Methods.Append.{
  Numbered, snoc, Numbered-snoc, event_of, revision_of, event_records_lem, run_revisions_lem,
  IsNumbered, event_row, append_event_lem, append_in-backend, Result-cases,
}
use prime_system.EventStore.Methods.Log.{set-Numbered}
use prime_system.EventStore.Methods.Calls.{
  Call, append_call, save_call, scoped_append, scoped_save, claim_call, perform, perform_all,
}

pub empty-IsNumbered : IsNumbered empty
unfolding empty get
empty-IsNumbered = record { events_numbered = λ id. tt; revisions_numbered = λ id. tt }

append_event-IsNumbered :
    (key run_id type : Text) (at : ℕ) (json : Json) (lossy : Bool) (b : MemoryBackend)
    → IsNumbered b
    → IsNumbered (append_event key run_id type at json lossy b).0
unfolding read_events event_row
append_event-IsNumbered key run_id type at json lossy b h =
    let rows = read_events key run_id b in
    rw (append_event_lem key run_id type at json lossy b h) (record {
      events_numbered =
          set-Numbered StoredEventRow.sequence (row_key key run_id)
            (snoc rows (event_row type at json lossy rows)) b.events h.events_numbered
            (Numbered-snoc StoredEventRow.sequence 0 rows (event_row type at json lossy rows)
              (h.events_numbered (row_key key run_id)) (omega arith));
      revisions_numbered = h.revisions_numbered;
    })

append_revision-IsNumbered :
    (key run_id : Text) (at : ℕ) (json : Json) (lossy : Bool) (b : MemoryBackend)
    → IsNumbered b
    → IsNumbered (append_revision key run_id at json lossy b).0
unfolding append_revision
append_revision-IsNumbered key run_id at json lossy b h =
    let rows = rows_of (get (row_key key run_id) b.revisions) in
    let row : StoredRevisionRow = record {
      revision = length rows + 1;
      at = at;
      run = json;
      lossy = lossy;
    } in
    record {
      events_numbered = h.events_numbered;
      revisions_numbered =
          set-Numbered StoredRevisionRow.revision (row_key key run_id) (snoc rows row) b.revisions
            h.revisions_numbered
            (Numbered-snoc StoredRevisionRow.revision 0 rows row
              (h.revisions_numbered (row_key key run_id)) (omega arith));
    }

module _ (o : Options) (w : World) where
  append_in-IsNumbered :
      (scope : RunScope) (run_id type : Text) (payload : JsValue) (s : EventStore)
      → IsNumbered s.backend
      → IsNumbered (append_in o w scope run_id type payload s).0.backend
  append_in-IsNumbered scope run_id type payload s h =
      elim (append_in-backend o w scope run_id type payload s) [
        | inl same ↦ rw same h
        | inr (json, lossy, same) ↦
            rw same
              (append_event-IsNumbered (scope_key scope) run_id type w.now json lossy s.backend h)
      ]

  -- What a save does to the backend: nothing, or one call of the backend's append.
  save_in-backend :
      (scope : RunScope) (ref : ℕ) (s : EventStore)
      → ((save_in o w scope ref s).0.backend ≡ s.backend)
        ⊎ ((json : Json) × (lossy : Bool) × ((save_in o w scope ref s).0.backend
              ≡ (append_revision (scope_key scope) (w.run_at ref).id w.now json lossy s.backend).0))
  unfolding save_in
  save_in-backend scope ref s =
      let run = w.run_at ref in
      elim (Result-cases
        (prepare w.objects o.strict (o.redact_run scope run.id w.objects run.value))) [
          | inl (a, e) ↦ inr (a.1, a.2, ground (arith, e))
          | inr (x, e) ↦ inl (ground (arith, e))
        ]

  save_in-IsNumbered :
      (scope : RunScope) (ref : ℕ) (s : EventStore)
      → IsNumbered s.backend
      → IsNumbered (save_in o w scope ref s).0.backend
  save_in-IsNumbered scope ref s h = elim (save_in-backend scope ref s) [
    | inl same ↦ rw same h
    | inr (json, lossy, same) ↦ rw same (
        append_revision-IsNumbered (scope_key scope) (w.run_at ref).id w.now json lossy s.backend h)
  ]

  save-IsNumbered :
      (ref : ℕ) (s : EventStore) → IsNumbered s.backend → IsNumbered (save o w ref s).0.backend
  unfolding save
  save-IsNumbered ref s h =
      let run = w.run_at ref in
      let scope = to_scope run.context in
      ground (
        arith,
        save_in-IsNumbered scope ref (record s { run_scopes = set run.id scope s.run_scopes }) h,
      )

  claim-logs :
      (claim : IdempotencyClaim) (s : EventStore)
      → ((claim_idempotency o w claim s).0.backend.events ≡ s.backend.events)
        × ((claim_idempotency o w claim s).0.backend.revisions ≡ s.backend.revisions)
  unfolding claim_idempotency put_idempotency
  claim-logs claim s = ground arith

  perform-IsNumbered :
      (c : Call) (s : EventStore) → IsNumbered s.backend → IsNumbered (perform o w c s).backend
  unfolding perform append
  perform-IsNumbered (append_call run_id type payload) s h =
      append_in-IsNumbered (scope_for o w run_id s) run_id type payload s h
  perform-IsNumbered (save_call ref) s h = save-IsNumbered ref s h
  perform-IsNumbered (scoped_append scope run_id type payload) s h =
      append_in-IsNumbered scope run_id type payload s h
  perform-IsNumbered (scoped_save scope ref) s h = save_in-IsNumbered scope ref s h
  perform-IsNumbered (claim_call claim) s h = record {
    events_numbered = rw (claim-logs claim s).0 h.events_numbered;
    revisions_numbered = rw (claim-logs claim s).1 h.revisions_numbered;
  }

perform_all-IsNumbered :
    (o : Options) (calls : List (World × Call)) (s : EventStore)
    → IsNumbered s.backend
    → IsNumbered (perform_all o calls s).backend
unfolding perform_all
perform_all-IsNumbered o [] s h = h
perform_all-IsNumbered o ((w, c) ∷ calls) s h =
    perform_all-IsNumbered o calls (perform o w c s) (perform-IsNumbered o w c s h)

event_of-Numbered :
    (n : ℕ) (run_id : Text) (rows : List StoredEventRow)
    → Numbered StoredEventRow.sequence n rows
    → Numbered EventRecord.sequence n (map (event_of run_id) rows)
unfolding event_of
event_of-Numbered n run_id [] h = tt
event_of-Numbered n run_id (r ∷ rs) (p, h) = (p, event_of-Numbered (n + 1) run_id rs h)

revision_of-Numbered :
    (n : ℕ) (scope : RunScope) (run_id : Text) (rows : List StoredRevisionRow)
    → Numbered StoredRevisionRow.revision n rows
    → Numbered RunRevision.revision n (map (revision_of scope run_id) rows)
unfolding revision_of
revision_of-Numbered n scope run_id [] h = tt
revision_of-Numbered n scope run_id (r ∷ rs) (p, h) =
    (p, revision_of-Numbered (n + 1) scope run_id rs h)

-- Whatever calls are made on a new store, in whatever order, scopes and times, and whether they
-- succeed or throw: the events and the revisions of every run of every scope can be read back, no
-- sequence is found broken, and they are numbered 1, 2, 3 and so on.
pub perform_all-readable :
    (o : Options) (calls : List (World × Call)) (w : World) (scope : RunScope) (run_id : Text)
    → let s = perform_all o calls new_store in
      ((es : List EventRecord) × (events_in o w scope run_id s ≡ ok es)
        × Numbered EventRecord.sequence 0 es)
      × ((rs : List RunRevision) × (revisions_in o w scope run_id s ≡ ok rs)
          × Numbered RunRevision.revision 0 rs)
unfolding events_in revisions_in read_events read_revisions new_store
perform_all-readable o calls w scope run_id =
    let s = perform_all o calls new_store in
    let h : IsNumbered s.backend = perform_all-IsNumbered o calls new_store empty-IsNumbered in
    let id = row_key (scope_key scope) run_id in
    let events = rows_of (get id s.backend.events) in
    let revisions = rows_of (get id s.backend.revisions) in
    (
      (
        map (event_of run_id) events,
        event_records_lem 0 run_id events (h.events_numbered id),
        event_of-Numbered 0 run_id events (h.events_numbered id),
      ),
      (
        map (revision_of scope run_id) revisions,
        run_revisions_lem 0 scope run_id revisions (h.revisions_numbered id),
        revision_of-Numbered 0 scope run_id revisions (h.revisions_numbered id),
      ),
    )
