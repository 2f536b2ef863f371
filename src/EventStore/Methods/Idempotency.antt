-- ===== src/EventStore/Methods/Idempotency.antt =====
-- Idempotency claims: one record for each tuple of scope, action and key.
use prime_system.Base.{
  ℕ, ◌≡◌, refl, arith, Text, false, [], none, some, inl, inr, if◌then◌else◌, text_eq, same_text,
  same_text_iff, Bool-cases,
}
use prime_system.Base.Maps.{get, set, get-set_self, get-set_other}
use prime_system.EventStore.Keys.{RunScope, idempotency_key_of}
use prime_system.EventStore.Keys.Injective.{idempotency_key_of-injective}
use prime_system.EventStore.Memory.{IdempotencyRecord, put_idempotency, get_idempotency}
use prime_system.EventStore.Operations.{ok, err, World, Options, EventStore, idempotency_conflict}
use prime_system.EventStore.Methods.{
  claim_idempotency, lookup_idempotency, IdempotencyClaim, claimed, replayed,
}

abbrev pub claim_key : IdempotencyClaim → Text
claim_key c = idempotency_key_of c.scope c.action c.idempotency_key

abbrev pub record_of : IdempotencyClaim → ℕ → IdempotencyRecord
record_of c now = record {
  scope = c.scope;
  action = c.action;
  idempotency_key = c.idempotency_key;
  fingerprint = c.fingerprint;
  run_id = c.run_id;
  at = now;
}

module _ (o : Options) (w : World) (c : IdempotencyClaim) (s : EventStore) where
  -- The first claim of a tuple inserts its record.
  pub claim_first :
      same_text c.idempotency_key [] ≡ false
      → get (claim_key c) s.backend.idempotency ≡ none
      → claim_idempotency o w c s ≡ (
        record s {
          backend = record (s.backend) {
            idempotency = set (claim_key c) (record_of c w.now) s.backend.idempotency;
          };
        },
        ok (claimed (record_of c w.now)),
      )
  unfolding claim_idempotency put_idempotency
  claim_first k h = ground (arith, same_text_iff c.fingerprint c.fingerprint)

  -- A later claim finds the record of the first.
  pub claim_again :
      (r : IdempotencyRecord)
      → same_text c.idempotency_key [] ≡ false
      → get (claim_key c) s.backend.idempotency ≡ some r
      → claim_idempotency o w c s ≡ (
        s,
        if same_text r.fingerprint c.fingerprint then ok (replayed r) else err idempotency_conflict,
      )
  unfolding claim_idempotency put_idempotency
  claim_again r k h = ground arith

-- Two claims of one tuple, the second at any later time and with any run id: the first is claimed,
-- and the second is given the first one's record where the fingerprints agree, and is refused with
-- a conflict where they differ; either way it changes nothing.
pub claim-claim :
    (o : Options) (w v : World) (c d : IdempotencyClaim) (s : EventStore)
    → same_text c.idempotency_key [] ≡ false
    → c.scope ≡ d.scope
    → c.action ≡ d.action
    → c.idempotency_key ≡ d.idempotency_key
    → lookup_idempotency o w c.scope c.action c.idempotency_key s ≡ none
    → let (s', first) = claim_idempotency o w c s in
      (first ≡ ok (claimed (record_of c w.now)))
      × (claim_idempotency o v d s' ≡ (
        s',
        if same_text c.fingerprint d.fingerprint
            then ok (replayed (record_of c w.now))
            else err idempotency_conflict,
      ))
unfolding lookup_idempotency get_idempotency
claim-claim o w v c d s k same_s same_a same_k h = rw (claim_first o w c s k h) (
  refl,
  claim_again o v d
      (record s {
        backend = record (s.backend) {
          idempotency = set (claim_key c) (record_of c w.now) s.backend.idempotency;
        };
      })
      (record_of c w.now) (rw (← same_k) k)
      (rw (← same_s, ← same_a, ← same_k)
        (get-set_self (claim_key c) (record_of c w.now) s.backend.idempotency)),
)

-- A claim leaves every other tuple of scope, action and key as it was.
pub claim-others :
    (o : Options) (w : World) (c : IdempotencyClaim) (s : EventStore) (scope : RunScope)
    (a k : Text)
    → ¬ ((c.scope ≡ scope) × (c.action ≡ a) × (c.idempotency_key ≡ k))
    → lookup_idempotency o w scope a k (claim_idempotency o w c s).0
      ≡ lookup_idempotency o w scope a k s
unfolding lookup_idempotency get_idempotency claim_idempotency put_idempotency
claim-others o w c s scope a k apart =
    elim (Bool-cases (same_text (claim_key c) (idempotency_key_of scope a k))) [
      | inl e ↦ absurd (
          apart (
            idempotency_key_of-injective c.scope scope c.action a c.idempotency_key k
              ((same_text_iff _ _).0 e)))
      | inr e ↦ ground (
        arith,
        get-set_other (claim_key c) (idempotency_key_of scope a k) (record_of c w.now)
            s.backend.idempotency e,
      )
    ]
