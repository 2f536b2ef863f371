-- ===== src/CorpusSchema/SemVer/Prerelease.antt =====
-- Which versions some ranges of packages/corpus-schema/src/semver.ts let in.
use prime_system.Base.{
  some_injective, ℕ, suc, ◌+◌, Text, ◌≡◌, refl, ap, ◌∙◌, arith, Bool, true, List, [], ◌∷◌, Option,
  none, some,
}
use Prim.Native.Nat.{Ordering}
use prime_system.CorpusSchema.SemVer.{Identifier, SemVer, compare_sem_ver, compare_prerelease}
use prime_system.CorpusSchema.SemVer.Order.{compare_sem_ver-IsVersionOrder, precedence}
use prime_system.CorpusSchema.SemVer.Ranges.{
  Comparator, Clause, tokens, Prefix, caret, exact, filled, PartialVersion, read_identifiers,
  release, version_of, upper_bound, caret_bound, read_token, read_tokens, read_comparators,
  parse_clause, less, at_least, equal, comparator,
}
use prime_system.CorpusSchema.SemVer.Satisfies.{satisfies_comparator, satisfies_clause, is_equal}

-- `^M.m.p-pre`
abbrev pub pinned : ℕ → ℕ → ℕ → List Text → PartialVersion
pinned major minor patch texts = record {
  major = some major;
  minor = some minor;
  patch = some patch;
  prerelease = some texts;
}

-- The caret range of a pre-release of a major version from 1 on lets in every pre-release of the
-- next major version's first release, although it ends before that release.
pub caret_next_prerelease :
    (n minor patch : ℕ) (texts : List Text) (ids : List Identifier) (i : Identifier)
    (is : List Identifier) (build : Option Text) (raw : Text)
    → read_identifiers texts ≡ some ids
    → (clause : Clause) × (parse_clause (tokens ((caret, pinned (suc n) minor patch texts) ∷ []))
        ≡ some clause)
      × (satisfies_clause
            (record {
              major = suc n + 1;
              minor = 0;
              patch = 0;
              prerelease = i ∷ is;
              build = build;
              raw = raw;
            })
            clause
          ≡ true)
unfolding parse_clause read_tokens read_token version_of caret_bound satisfies_clause
    satisfies_comparator compare_sem_ver compare_prerelease
caret_next_prerelease n minor patch texts ids i is build raw h = (
  record {
    comparators =
        comparator at_least (filled (pinned (suc n) minor patch texts) ids)
        ∷ comparator less (release (suc n + 1) 0 0)
        ∷ [];
    allows_prerelease = true;
  },
  rw (h, parse_clause, read_tokens, read_token, version_of) refl,
  ground arith,
)

-- `*` as one of several comparators.
abbrev pub any_version : PartialVersion
any_version = record { major = none; minor = none; patch = none; prerelease = none }

is_equal-eq : (o : Ordering) → is_equal o ≡ true → o ≡ Ordering.eq
is_equal-eq o h = ground (arith, h)

first_comparator :
    (allows : Bool) (pin : Comparator) (o : Option (List Comparator)) (clause : Clause) (v : SemVer)
    → read_comparators allows (elim o [ none ↦ none | some more ↦ some (pin ∷ more) ]) ≡ some clause
    → satisfies_clause v clause ≡ true
    → satisfies_comparator v pin ≡ true
unfolding satisfies_clause
first_comparator allows pin none clause v h k = ground (arith, h)
first_comparator allows pin (some more) clause v h k =
    ground (arith, ap (satisfies_clause v) (some_injective h) ∙ k)

-- A clause in which a wildcard stands before other comparators lets in no version whose numbers
-- are other than 0.0.0 or that has a pre-release.
pub wildcard_pins :
    (t : Prefix × PartialVersion) (ts : List (Prefix × PartialVersion)) (clause : Clause)
    (v : SemVer)
    → parse_clause (tokens ((exact, any_version) ∷ t ∷ ts)) ≡ some clause
    → satisfies_clause v clause ≡ true
    → precedence v ≡ (0, (0, (0, [])))
unfolding parse_clause read_tokens read_token version_of upper_bound satisfies_comparator
wildcard_pins t ts clause v h k = (compare_sem_ver-IsVersionOrder.same v zeros).0 (
    is_equal-eq _ (first_comparator _ (comparator equal zeros) (read_tokens (t ∷ ts)) clause v h k))
  where
    zeros : SemVer
    zeros = filled any_version []
