-- ===== src/PluginHost/Events/Laws.antt =====
-- hostEvent of packages/plugin-host/src/events.ts.
use prime_system.Base.{
  some_injective, Text, String, string_eq, ◌==◌, ◌≡◌, refl, sym, ap, ◌∙◌, ◌⊎◌, inl, inr, arith,
  Bool, not, ◌||◌, ◌&&◌, true, false, not, ◌&&◌, ◌||◌, List, [], ◌∷◌, Option, none, some,
  if◌then◌else◌, includes, distinct, str_lt, includes-sort, eq_iff, Bool-cases, Option-cases,
}
use mathlib.Core.Path.{subst}
use prime_system.Base.Maps.{get, set, get-set}
use prime_system.Base.Objects.{inherited_names}
use prime_system.Base.Sorting.{sort}
use prime_system.PluginHost.Events.{
  ScopeKey, key_of, incomplete, made, event_for, scope_key, HostEventInput, HostEvent, keys_of,
  Filling, no_fields, has_key, is_own, assign, copy_payload, mark_withheld, payload_of, withheld_of,
  host_event,
}

module _ {V : Type 0} (redacted : V) (prototype_names : V → Option (List String)) where
  abbrev has : List (String × V) → String → Bool
  has m k = includes (keys_of redacted m) k

  assign_cases :
      (j : String) (v : V) (f : Filling redacted)
      → (((assign redacted prototype_names j v f).own ≡ f.own) × ((j == "__proto__") ≡ true))
        ⊎ ((assign redacted prototype_names j v f).own ≡ set j v f.own)
  unfolding assign
  assign_cases j v f = elim (Bool-cases (j == "__proto__")) [
    | inr e ↦ inr (rw (e, assign) refl)
    | inl e ↦ elim (Bool-cases (includes f.from_prototype j && not (is_own redacted j f.own))) [
      | inr g ↦ inr (rw (e, g, assign) refl)
      | inl g ↦ inl (
        elim (Option-cases (prototype_names v)) [
          | inl n ↦ rw (e, g, n, assign) refl
          | inr (names, n) ↦ rw (e, g, n, assign) refl
        ],
        e,
      )
    ]
  ]

  -- An assignment to another key than "__proto__" is to a field.
  assign-field :
      (j : String) (v : V) (f : Filling redacted)
      → (j == "__proto__" && includes f.from_prototype j) ≡ false
      → assign redacted prototype_names j v f ≡ record f { own = set j v f.own }
  unfolding assign
  assign-field j v f h = elim (Bool-cases (j == "__proto__")) [
    | inr e ↦ rw (e, assign) refl
    | inl e ↦ rw (e, rest e, assign) refl
  ]
    where
      rest : (j == "__proto__") ≡ true → includes f.from_prototype j ≡ false
      rest e = ground (arith, h, e)

  get-copy_withheld :
      (withheld : List String) (k : String) (m : List (String × V)) (done : Filling redacted)
      → includes withheld k ≡ true
      → (get k done.own ≡ none) ⊎ (get k done.own ≡ some redacted)
      → (get k (copy_payload redacted prototype_names withheld m done).own ≡ none)
        ⊎ (get k (copy_payload redacted prototype_names withheld m done).own ≡ some redacted)
  unfolding copy_payload
  get-copy_withheld withheld k [] done h o = o
  get-copy_withheld withheld k ((j, v) ∷ m) done h o =
      get-copy_withheld withheld k m _ h (next (assign_cases j given done))
    where
      given : V
      given = if includes withheld j then redacted else v

      at_set :
          (get k (set j given done.own) ≡ none) ⊎ (get k (set j given done.own) ≡ some redacted)
      at_set = elim (Bool-cases (j == k)) [
        | inl e ↦ inr (
            get-set j k _ done.own
            ∙ ground (arith, e, h, ap (includes withheld) ((eq_iff j k).0 e)))
        | inr e ↦ ground (arith, o, e, get-set j k given done.own)
      ]

      next :
          (((assign redacted prototype_names j given done).own ≡ done.own)
              × ((j == "__proto__") ≡ true))
            ⊎ ((assign redacted prototype_names j given done).own ≡ set j given done.own)
          → (get k (assign redacted prototype_names j given done).own ≡ none)
            ⊎ (get k (assign redacted prototype_names j given done).own ≡ some redacted)
      next (inl (e, p)) = rw e o
      next (inr e) = rw e at_set

  get-copy_open :
      (withheld : List String) (k : String) (m : List (String × V)) (done : Filling redacted)
      → includes withheld k ≡ false
      → (k == "__proto__") ≡ false
      → distinct (keys_of redacted m) ≡ true
      → get k (copy_payload redacted prototype_names withheld m done).own
        ≡ (if has m k then get k m else get k done.own)
  unfolding copy_payload get
  get-copy_open withheld k [] done h p d = refl
  get-copy_open withheld k ((j, v) ∷ m) done h p d =
      get-copy_open withheld k m _ h p (ground (arith, d)) ∙ next (Bool-cases (j == k))
    where
      given : V
      given = if includes withheld j then redacted else v

      after : Filling redacted
      after = assign redacted prototype_names j given done

      other : (j == k) ≡ false → get k after.own ≡ get k done.own
      other e = elim (assign_cases j given done) [
        | inl (s, q) ↦ ap (get k) s
        | inr s ↦ ap (get k) s ∙ ground (arith, e, get-set j k given done.own)
      ]

      this : (j == k) ≡ true → get k after.own ≡ some v
      this e =
          let same : j ≡ k = (eq_iff j k).0 e in
          elim (assign_cases j given done) [
            | inl (s, q) ↦ absurd (clash q (ap (λ x. x == "__proto__") same ∙ p))
            | inr s ↦
                ap (get k) s
                ∙ ground (arith, e, h, get-set j k given done.own, ap (includes withheld) same)
          ]
        where
          clash : (j == "__proto__") ≡ true → (j == "__proto__") ≡ false → ⊥
          clash x y = ground (arith, x, y)

      next :
          ((j == k) ≡ true) ⊎ ((j == k) ≡ false)
          → (if has m k then get k m else get k after.own)
            ≡ (if j == k || has m k then (if j == k then some v else get k m) else get k done.own)
      next (inl e) = ground (arith, d, e, this e, ap (has m) ((eq_iff j k).0 e))
      next (inr e) = ground (arith, e, other e)

  copy_prototype :
      (withheld : List String) (m : List (String × V)) (done : Filling redacted)
      → has m "__proto__" ≡ false
      → (copy_payload redacted prototype_names withheld m done).from_prototype ≡ done.from_prototype
  unfolding copy_payload
  copy_prototype withheld [] done h = refl
  copy_prototype withheld ((j, v) ∷ m) done h =
      copy_prototype withheld m _ (ground (arith, h))
      ∙ ap Filling.from_prototype (assign-field j _ done (ground (arith, h)))

  -- The step of the loop that marks.
  abbrev marked_step : String → Filling redacted → Filling redacted
  marked_step j done =
      if has_key redacted j done then done else assign redacted prototype_names j redacted done

  marked_step-is :
      (j k : String) (done : Filling redacted)
      → ((marked_step j done).from_prototype ≡ done.from_prototype)
        × (get k (marked_step j done).own ≡ (
            if j == k && not (is_own redacted j done.own || includes done.from_prototype j)
            then some redacted
            else get k done.own))
  marked_step-is j k done = elim (Bool-cases (has_key redacted j done)) [
    | inl e ↦ rw e (refl, ground (arith, e))
    | inr e ↦
        rw (e, assign-field j redacted done (ground (arith, e)))
          (refl, get-set j k redacted done.own ∙ ground (arith, e))
  ]

  get-mark :
      (ks : List String) (k : String) (done : Filling redacted)
      → get k (mark_withheld redacted prototype_names ks done).own ≡ elim (get k done.own) [
        | some v ↦ some v
        | none ↦
            if includes ks k && not (includes done.from_prototype k) then some redacted else none
      ]
  unfolding mark_withheld
  get-mark [] k done = elim (Option-cases (get k done.own)) [
    | inl e ↦ rw e refl
    | inr (v, e) ↦ rw e refl
  ]
  get-mark (j ∷ ks) k done =
      let (same, at_k) = marked_step-is j k done in
      get-mark ks k (marked_step j done)
      ∙ (λ i. marked_or (at_k i) (same i))
      ∙ by_key (Bool-cases (j == k))
    where
      marked_or : Option V → List String → Option V
      marked_or o names = elim o [
        | some v ↦ some v
        | none ↦ if includes ks k && not (includes names k) then some redacted else none
      ]

      by_key :
          ((j == k) ≡ true) ⊎ ((j == k) ≡ false)
          → elim (if j == k && not (is_own redacted j done.own || includes done.from_prototype j)
              then some redacted
              else get k done.own) [
                | some v ↦ some v
                | none ↦
                    if includes ks k && not (includes done.from_prototype k)
                    then some redacted
                    else none
              ]
            ≡ elim (get k done.own) [
              | some v ↦ some v
              | none ↦
                  if (j == k || includes ks k) && not (includes done.from_prototype k)
                  then some redacted
                  else none
            ]
      by_key (inl e) = ground (
        arith,
        e,
        ap (λ x. get x done.own) ((eq_iff j k).0 e),
        ap (includes done.from_prototype) ((eq_iff j k).0 e),
      )
      by_key (inr e) = ground (arith, e)

  -- What an event says of its input.
  pub record IsWithheld (input : HostEventInput redacted) (e : HostEvent redacted) : Type 0 where
    pub named : (k : String) → includes e.withheld k ≡ has input.secrets k
    pub hidden :
        (k : String)
        → has input.secrets k ≡ true
        → (get k e.payload ≡ none) ⊎ (get k e.payload ≡ some redacted)
    pub marked :
        (k : String)
        → has input.secrets k ≡ true
        → includes inherited_names k ≡ false
        → has input.payload "__proto__" ≡ false
        → get k e.payload ≡ some redacted
    pub shown :
        (k : String)
        → has input.secrets k ≡ false
        → (k == "__proto__") ≡ false
        → get k e.payload ≡ get k input.payload

  get-absent : (k : String) (m : List (String × V)) → has m k ≡ false → get k m ≡ none
  unfolding get
  get-absent k [] h = refl
  get-absent k ((j, v) ∷ m) h = ground (arith, h, get-absent k m)

  abbrev read : Option V → Bool → Option V
  read o b = elim o [ some v ↦ some v | none ↦ if b then some redacted else none ]

  read-hidden :
      (o : Option V) (b : Bool)
      → (o ≡ none) ⊎ (o ≡ some redacted)
      → (read o b ≡ none) ⊎ (read o b ≡ some redacted)
  read-hidden none true h = inr refl
  read-hidden none false h = inl refl
  read-hidden (some v) b h = h

  read-marked :
      (o : Option V) (b : Bool)
      → (o ≡ none) ⊎ (o ≡ some redacted)
      → b ≡ true
      → read o b ≡ some redacted
  read-marked none b h t = ground (arith, t)
  read-marked (some v) b h t = ground (arith, h)

  read-unmarked : (o p : Option V) (b : Bool) → o ≡ p → b ≡ false → read o b ≡ p
  read-unmarked none p b h t = ground (arith, t, h)
  read-unmarked (some v) p b h t = h

  payload_of-IsWithheld :
      (input : HostEventInput redacted) (key : Text)
      → distinct (keys_of redacted input.payload) ≡ true
      → IsWithheld input (made redacted prototype_names input key)
  unfolding payload_of withheld_of get
  payload_of-IsWithheld input key d = record {
    named = named;
    hidden = λ k h.
        subst (λ o. (o ≡ none) ⊎ (o ≡ some redacted)) (sym (get-mark ks k copied))
          (read-hidden (get k copied.own) (includes ks k && not (includes copied.from_prototype k))
            (get-copy_withheld ks k input.payload (no_fields redacted) (named k ∙ h) (inl refl)));
    marked = λ k h free plain.
        get-mark ks k copied
        ∙ read-marked (get k copied.own) (includes ks k && not (includes copied.from_prototype k))
            (get-copy_withheld ks k input.payload (no_fields redacted) (named k ∙ h) (inl refl))
            (ground (
              arith,
              named k ∙ h,
              free,
              ap (λ l. includes l k) (copy_prototype ks input.payload (no_fields redacted) plain),
            ));
    shown = λ k h p.
        get-mark ks k copied
        ∙ read-unmarked (get k copied.own) (get k input.payload)
            (includes ks k && not (includes copied.from_prototype k))
            (get-copy_open ks k input.payload (no_fields redacted) (named k ∙ h) p d ∙ present k)
            (ground (arith, named k ∙ h));
  }
    where
      ks : List String
      ks = sort str_lt (keys_of redacted input.secrets)

      copied : Filling redacted
      copied = copy_payload redacted prototype_names ks input.payload (no_fields redacted)

      named : (k : String) → includes ks k ≡ has input.secrets k
      named k = includes-sort str_lt (keys_of redacted input.secrets) k

      present :
          (k : String)
          → (if has input.payload k then get k input.payload else none) ≡ get k input.payload
      present k = elim (Bool-cases (has input.payload k)) [
        | inl e ↦ rw e refl
        | inr e ↦ rw (e, get-absent k input.payload e) refl
      ]

  -- An event names exactly the keys that its caller gave as secrets. Under such a key its payload
  -- has the marker or nothing, also where the caller put the key into the payload as well; it has
  -- the marker if the key is none that plain objects inherit and the payload does not set its
  -- prototype. Under any other key but "__proto__" it has what the payload of the caller has. The
  -- caller's payload is an object, so that no key stands in it twice.
  pub host_event-IsWithheld :
      (input : HostEventInput redacted) (e : HostEvent redacted)
      → host_event redacted prototype_names input ≡ some e
      → distinct (keys_of redacted input.payload) ≡ true
      → IsWithheld input e
  unfolding host_event
  host_event-IsWithheld input e h d = of_key (scope_key input.scope) h
    where
      of_key :
          (k : ScopeKey) → event_for redacted prototype_names input k ≡ some e → IsWithheld input e
      of_key (key_of key) h =
          subst (IsWithheld input) (some_injective h) (payload_of-IsWithheld input key d)
      of_key (incomplete names) h = ground (arith, h)
