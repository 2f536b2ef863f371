-- ===== src/EventStore/Methods/Calls.antt =====
-- A host's calls in sequence, each at its own time and state of the caller's objects: the root
-- view of the store, and the scoped views that `scoped()` hands out.
use prime_system.Base.{Text, List, [], ◌∷◌, ℕ}
use prime_system.EventStore.Keys.{RunScope}
use prime_system.EventStore.Values.{JsValue}
use prime_system.EventStore.Operations.{World, Options, EventStore}
use prime_system.EventStore.Methods.{
  append_in, save_in, append, save, claim_idempotency, IdempotencyClaim,
}

pub data Call : Type 0 where
  append_call : (run_id type : Text) → JsValue → Call
  save_call : (ref : ℕ) → Call
  scoped_append : RunScope → (run_id type : Text) → JsValue → Call
  scoped_save : RunScope → (ref : ℕ) → Call
  claim_call : IdempotencyClaim → Call

unfoldable pub perform : Options → World → Call → EventStore → EventStore
perform o w (append_call run_id type payload) s = (append o w run_id type payload s).0
perform o w (save_call ref) s = (save o w ref s).0
perform o w (scoped_append scope run_id type payload) s =
    (append_in o w scope run_id type payload s).0
perform o w (scoped_save scope ref) s = (save_in o w scope ref s).0
perform o w (claim_call claim) s = (claim_idempotency o w claim s).0

unfoldable pub perform_all : Options → List (World × Call) → EventStore → EventStore
perform_all o [] s = s
perform_all o ((w, c) ∷ calls) s = perform_all o calls (perform o w c s)
