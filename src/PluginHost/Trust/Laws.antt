-- ===== src/PluginHost/Trust/Laws.antt =====
-- The trust boundary, packages/plugin-host/src/trust.ts.
use prime_system.Base.{
  ◌≢◌, ◌⊎◌, not, any, eqb, ℕ, Bool, [], ◌∷◌, ◌++◌, Text, ◌≡◌, sym, ap, inl, inr, arith, true, false,
  some, same_text, same_text_iff, text_eq, Bool-cases, refl, none,
}
use prime_system.Base.Maps.{get, get-set_self, get-set_other}
use prime_system.PluginHost.Trust.{
  trusted, refused, registry_digest_conflict, DigestRegistry, registry_key, differs_from,
  record_digest, digest_of,
}

-- No "@" stands in a text.
abbrev pub is_plain : Text → Bool
is_plain t = not (any (eqb b'@') t)

abbrev tail_of : Text → Text
tail_of [] = []
tail_of (c ∷ cs) = cs

abbrev head_of : Text → ℕ
head_of [] = 0
head_of (c ∷ cs) = c

any-append : (p : ℕ → Bool) (s t : Text) (c : ℕ) → p c ≡ true → any p (s ++ c ∷ t) ≡ true
any-append p [] t c h = ground (arith, h)
any-append p (d ∷ s) t c h = ground (arith, any-append p s t c h)

plain_inside : (s t u : Text) → is_plain u ≡ true → u ≡ s ++ (b'@' ∷ t) → ⊥
plain_inside s t u h e =
    ground (arith, h, ap (any (eqb b'@')) e, any-append (eqb b'@') s t b'@' refl)

-- A key is split at its last "@".
registry_key-injective :
    (name version name' version' : Text)
    → is_plain version ≡ true
    → is_plain version' ≡ true
    → registry_key name version ≡ registry_key name' version'
    → (name ≡ name') × (version ≡ version')
registry_key-injective [] version [] version' h h' e = (refl, ap tail_of e)
registry_key-injective [] version (c ∷ name') version' h h' e =
    absurd (plain_inside name' version' version h (ap tail_of e))
registry_key-injective (c ∷ name) version [] version' h h' e =
    absurd (plain_inside name version version' h' (sym (ap tail_of e)))
registry_key-injective (c ∷ name) version (d ∷ name') version' h h' e =
    let (same, equal) = registry_key-injective name version name' version' h h' (ap tail_of e) in
    (λ i. ap head_of e i ∷ same i, equal)

-- A digest is recorded under its name and version, unless another one stands there; then it is
-- refused and the registry is as it was. Either way every other name and version keeps what it had.
-- No "@" stands in a version.
pub record_digest-keeps :
    (name version digest : Text) (seen : DigestRegistry) (name' version' : Text)
    → is_plain version ≡ true
    → is_plain version' ≡ true
    → ((digest_of name version seen ≡ none) ⊎ (digest_of name version seen ≡ some digest)
        → ((record_digest name version digest seen).1 ≡ trusted)
          × (digest_of name version (record_digest name version digest seen).0 ≡ some digest))
      × ((known : Text)
          → digest_of name version seen ≡ some known
          → known ≢ digest
          → record_digest name version digest seen ≡ (seen, refused registry_digest_conflict))
      × (((name ≡ name') × (version ≡ version') → ⊥)
          → digest_of name' version' (record_digest name version digest seen).0
            ≡ digest_of name' version' seen)
unfolding record_digest digest_of
record_digest-keeps name version digest seen name' version' h h' = (
  λ o. fresh (new o),
  λ known e differ. rw (old known e differ, record_digest) refl,
  λ other. elim (Bool-cases differs) [
    | inl e ↦ rw (e, record_digest) refl
    | inr e ↦ rw (e, record_digest) (get-set_other k k' digest seen (apart other))
  ],
)
  where
    k : Text
    k = registry_key name version

    k' : Text
    k' = registry_key name' version'

    differs : Bool
    differs = differs_from (get k seen) digest

    self : (t : Text) → same_text t t ≡ true
    self t = (same_text_iff t t).1 refl

    new : (get k seen ≡ none) ⊎ (get k seen ≡ some digest) → differs ≡ false
    new (inl e) = rw e refl
    new (inr e) = rw (e, self digest) refl

    fresh :
        differs ≡ false
        → ((record_digest name version digest seen).1 ≡ trusted)
          × (digest_of name version (record_digest name version digest seen).0 ≡ some digest)
    fresh e = rw (e, record_digest) (refl, get-set_self k digest seen)

    old : (known : Text) → get k seen ≡ some known → known ≢ digest → differs ≡ true
    old known e differ = elim (Bool-cases (same_text known digest)) [
      | inl s ↦ absurd (differ ((same_text_iff known digest).0 s))
      | inr s ↦ rw (e, s) refl
    ]

    apart : ((name ≡ name') × (version ≡ version') → ⊥) → same_text k k' ≡ false
    apart other = elim (Bool-cases (same_text k k')) [
      | inr e ↦ e
      | inl e ↦ absurd (
          other
            (registry_key-injective name version name' version' h h' ((same_text_iff k k').0 e)))
    ]
