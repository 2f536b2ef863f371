-- ===== src/EventStore/Serialize/Total.antt =====
-- Termination and strict mode of encode, packages/event-store/src/serialize.ts.
use prime_system.Base.{
  ℕ, zero, suc, ◌<◌, ◌≤◌, ◌≡◌, refl, ap, ◌∙◌, ◌||◌, inl, inr, Bool, true, false, Text, List, [],
  ◌∷◌, length, if◌then◌else◌, arith, Bool-cases, ltb, ltb→lt,
}
use prime_system.EventStore.Values.{
  JsValue, undefined, non_finite, bigint, function, symbol, array, object, ref, Items, nil, cons,
  Fields, end, field, Json, Outcome, done, thrown, exhausted, ◌>>=◌, json_array, json_object,
  json_cons, Objects, content,
}
use prime_system.EventStore.Seen.{seen_has, unseen, unseen-lt, unseen-nil}
use prime_system.EventStore.Serialize.{
  unstorable, insert_field, encode_value, encode_items, encode_fields, encode_ref, encode,
}

-- Whether JSON cannot carry a leaf of a value as it is; `deref` answers for a shared object.
unfoldable mutual
  pub replaces : (ℕ → Bool) → JsValue → Bool
  replaces deref undefined = true
  replaces deref non_finite = true
  replaces deref bigint = true
  replaces deref function = true
  replaces deref symbol = true
  replaces deref (array vs) = replaces_items deref vs
  replaces deref (object fs) = replaces_fields deref fs
  replaces deref (ref a) = deref a
  replaces deref _ = false

  pub replaces_items : (ℕ → Bool) → Items → Bool
  replaces_items deref nil = false
  replaces_items deref (cons v vs) = replaces deref v || replaces_items deref vs

  pub replaces_fields : (ℕ → Bool) → Fields → Bool
  replaces_fields deref end = false
  replaces_fields deref (field k v fs) = replaces deref v || replaces_fields deref fs

-- A path through shared objects that comes back to one of its own, or to such a leaf. A path that
-- holds each object once is no longer than the list of objects.
unfoldable pub replaces_ref : Objects → ℕ → List ℕ → ℕ → Bool
replaces_ref objects zero seen a = false
replaces_ref objects (suc fuel) seen a =
    let inside = replaces (replaces_ref objects fuel (a ∷ seen)) (content objects a) in
    seen_has seen a || inside

-- A leaf that JSON cannot carry, or a cycle, can be reached from the value.
unfoldable pub has_unstorable : Objects → JsValue → Bool
has_unstorable objects v = replaces (replaces_ref objects (suc (length objects)) []) v

-- A value with its flag, and what becomes of it in strict mode.
abbrev pub Agrees : {A : Type 0} → Bool → Outcome (A × Bool) → Outcome (A × Bool) → Type 0
Agrees b (done (a, lossy)) n = (lossy ≡ b) × (n ≡ (if b then thrown else done (a, false)))
Agrees b thrown n = ⊥
Agrees b exhausted n = ⊥

content_outside : (objects : Objects) (a : ℕ) → length objects ≤ a → content objects a ≡ undefined
content_outside [] a h = refl
content_outside (v ∷ vs) zero h = absurd (omega arith)
content_outside (v ∷ vs) (suc a) h = content_outside vs a (omega arith)

unstorable-Agrees : (kind : Text) → Agrees true (unstorable false kind) (unstorable true kind)
unfolding unstorable
unstorable-Agrees kind = (refl, refl)

mapped-Agrees :
    {A B : Type 0} (f : A → B) (b : Bool) (m n : Outcome (A × Bool))
    → Agrees b m n
    → Agrees b (m >>= λ (a, l). done (f a, l)) (n >>= λ (a, l). done (f a, l))
mapped-Agrees f true (done (a, lossy)) n (e, k) = (e, ap (λ o. o >>= λ (a, l). done (f a, l)) k)
mapped-Agrees f false (done (a, lossy)) n (e, k) = (e, ap (λ o. o >>= λ (a, l). done (f a, l)) k)
mapped-Agrees f b thrown n h = absurd h
mapped-Agrees f b exhausted n h = absurd h

paired-Agrees :
    {A B C : Type 0} (f : A → B → C) (b c : Bool) (m n : Outcome (A × Bool))
    (m' n' : Outcome (B × Bool))
    → Agrees b m n
    → Agrees c m' n'
    → Agrees
        (b || c)
        (m >>= λ (a, l). m' >>= λ (a', l'). done (f a a', l || l'))
        (n >>= λ (a, l). n' >>= λ (a', l'). done (f a a', l || l'))
paired-Agrees f b c thrown n m' n' h k = absurd h
paired-Agrees f b c exhausted n m' n' h k = absurd h
paired-Agrees f b c (done (a, l)) n thrown n' h k = absurd k
paired-Agrees f b c (done (a, l)) n exhausted n' h k = absurd k
paired-Agrees f true c (done (a, l)) n (done (a', l')) n' (e, h) (e', k) =
    (λ i. e i || e' i, ap (λ o. o >>= λ (a, l). n' >>= λ (a', l'). done (f a a', l || l')) h)
paired-Agrees f false true (done (a, l)) n (done (a', l')) n' (e, h) (e', k) = (
  λ i. e i || e' i,
  ap (λ o. o >>= λ (a, l). n' >>= λ (a', l'). done (f a a', l || l')) h
      ∙ ap (λ o. o >>= λ (a', l'). done (f a a', l')) k,
)
paired-Agrees f false false (done (a, l)) n (done (a', l')) n' (e, h) (e', k) = (
  λ i. e i || e' i,
  ap (λ o. o >>= λ (a, l). n' >>= λ (a', l'). done (f a a', l || l')) h
      ∙ ap (λ o. o >>= λ (a', l'). done (f a a', l')) k,
)

module _ (deref : ℕ → Bool) (loose strict : ℕ → Outcome (Json × Bool))
    (h : (a : ℕ) → Agrees (deref a) (loose a) (strict a)) where
  mutual
    unfolding encode_value replaces

    encode_value-Agrees :
        (v : JsValue)
        → Agrees (replaces deref v) (encode_value false loose v) (encode_value true strict v)
    encode_value-Agrees (array vs) = mapped-Agrees json_array _ _ _ (encode_items-Agrees vs)
    encode_value-Agrees (object fs) = mapped-Agrees json_object _ _ _ (encode_fields-Agrees fs)
    encode_value-Agrees (ref a) = h a
    encode_value-Agrees _ = (refl, refl)

    encode_items-Agrees :
        (vs : Items)
        → Agrees
            (replaces_items deref vs)
            (encode_items false loose vs)
            (encode_items true strict vs)
    encode_items-Agrees nil = (refl, refl)
    encode_items-Agrees (cons v vs) =
        paired-Agrees json_cons _ _ _ _ _ _ (encode_value-Agrees v) (encode_items-Agrees vs)

    encode_fields-Agrees :
        (fs : Fields)
        → Agrees
            (replaces_fields deref fs)
            (encode_fields false loose fs)
            (encode_fields true strict fs)
    encode_fields-Agrees end = (refl, refl)
    encode_fields-Agrees (field k v fs) =
        paired-Agrees (insert_field k) _ _ _ _ _ _ (encode_value-Agrees v) (encode_fields-Agrees fs)

encode_ref-Agrees :
    (objects : Objects) (fuel : ℕ) (seen : List ℕ) (a : ℕ)
    → unseen (length objects) seen < fuel
    → Agrees
        (replaces_ref objects fuel seen a)
        (encode_ref objects false fuel seen a)
        (encode_ref objects true fuel seen a)
unfolding encode_ref replaces_ref replaces
encode_ref-Agrees objects zero seen a h = elim h [ ]
encode_ref-Agrees objects (suc fuel) seen a h = elim (Bool-cases (seen_has seen a)) [
  | inl old ↦ rw old (refl, refl)
  | inr new ↦ rw new (elim (Bool-cases (ltb a (length objects))) [
    | inl inside ↦
        encode_value-Agrees (replaces_ref objects fuel (a ∷ seen))
          (encode_ref objects false fuel (a ∷ seen)) (encode_ref objects true fuel (a ∷ seen))
          (λ b.
            encode_ref-Agrees objects fuel (a ∷ seen) b
              (omega (arith, unseen-lt (length objects) a seen (ltb→lt _ _ inside) new)))
          (content objects a)
    | inr outside ↦ rw (content_outside objects a (ground arith)) (refl, refl)
  ])
]

agreed :
    (b : Bool) (m n : Outcome (Json × Bool))
    → Agrees b m n
    → (j : Json) × (m ≡ done (j, b)) × (n ≡ (if b then thrown else done (j, false)))
agreed b (done (j, lossy)) n (e, h) = (j, ap (λ l. done (j, l)) e, h)
agreed b thrown n h = absurd h
agreed b exhausted n h = absurd h

-- Encoding a value always ends, also where shared objects refer to one another in a cycle. Without
-- strict mode it gives a tree of JSON, and the flag is up exactly where a leaf that JSON cannot
-- carry, or a cycle, can be reached from the value; in strict mode it throws exactly there, and
-- gives the same tree elsewhere.
pub encode_total :
    (objects : Objects) (v : JsValue)
    → (j : Json) × (encode objects false v ≡ done (j, has_unstorable objects v))
      × (encode objects true v ≡ (if has_unstorable objects v then thrown else done (j, false)))
unfolding encode has_unstorable
encode_total objects v = agreed _ (encode objects false v) (encode objects true v) (
    encode_value-Agrees (replaces_ref objects (suc (length objects)) [])
      (encode_ref objects false (suc (length objects)) [])
      (encode_ref objects true (suc (length objects)) [])
      (λ a.
        encode_ref-Agrees objects (suc (length objects)) [] a
          (omega (arith, unseen-nil (length objects))))
      v)
