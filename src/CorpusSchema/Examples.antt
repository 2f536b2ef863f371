-- ===== src/CorpusSchema/Examples.antt =====
-- Concrete versions and ranges.
use prime_system.Base.{false, Text, codes, ◌≡◌, refl, true, List, [], ◌∷◌, some}
use prime_system.CorpusSchema.SemVer.{
  Identifier, numeric, alphanumeric, SemVer, compare_sem_ver, compare_prerelease,
}
use prime_system.CorpusSchema.SemVer.Ranges.{
  Clause, tokens, caret, plain, at_least, equal, read_tokens, read_token, version_of, upper_bound,
  PartialVersion, filled, release, comparator, parse_clause, read_identifier, read_identifiers,
  number_from,
}
use prime_system.CorpusSchema.SemVer.Satisfies.{
  satisfies_clause, satisfies_comparator, resolve_version,
}
use prime_system.CorpusSchema.SemVer.Order.{precedence}
use prime_system.CorpusSchema.SemVer.Resolve.{Best, resolve_version-Best}
use prime_system.CorpusSchema.SemVer.Prerelease.{
  pinned, caret_next_prerelease, any_version, wildcard_pins,
}

abbrev range : List Clause
range =
    record { comparators = comparator at_least (release 1 0 0) ∷ []; allows_prerelease = false }
    ∷ []

abbrev available : List SemVer
available = release 0 9 0 ∷ release 1 2 0 ∷ release 1 10 0 ∷ []

resolve_version-Best_example : Best range available (resolve_version range available)
resolve_version-Best_example = resolve_version-Best range available

abbrev candidate : List Text
candidate = codes "rc" ∷ codes "1" ∷ []

abbrev identifiers : List Identifier
identifiers = alphanumeric (codes "rc") ∷ numeric 1 ∷ []

caret_next_prerelease_example :
    (clause : Clause) × (parse_clause (tokens ((caret, pinned 1 2 3 candidate) ∷ [])) ≡ some clause)
    × (satisfies_clause
          (record (release 2 0 0) {
            prerelease = alphanumeric (codes "rc") ∷ [];
            build = some (codes "7");
            raw = codes "2.0.0-rc+7";
          })
          clause
        ≡ true)
unfolding read_identifiers read_identifier number_from
caret_next_prerelease_example =
    caret_next_prerelease 0 2 3 candidate identifiers (alphanumeric (codes "rc")) []
      (some (codes "7")) (codes "2.0.0-rc+7") refl

abbrev one_on : PartialVersion
one_on = record any_version { major = some 0 }

abbrev pinned_clause : Clause
pinned_clause = record {
  comparators =
      comparator equal (filled any_version []) ∷ comparator at_least (filled one_on []) ∷ [];
  allows_prerelease = false;
}

wildcard_pins_example : precedence (release 0 0 0) ≡ (0, (0, (0, [])))
unfolding parse_clause read_tokens read_token version_of upper_bound satisfies_clause
    satisfies_comparator compare_sem_ver compare_prerelease
wildcard_pins_example =
    wildcard_pins (plain at_least, one_on) [] pinned_clause (release 0 0 0) refl refl
