-- ===== src/CorpusSchema/SemVer/Satisfies.antt =====
-- satisfies and resolveVersion of packages/corpus-schema/src/semver.ts.
use prime_system.Base.{
  Bool, true, false, not, ◌&&◌, List, [], ◌∷◌, if◌then◌else◌, eqb, any, every, filter,
}
use Prim.Native.Nat.{Ordering}
use prime_system.Base.Sorting.{sort}
use prime_system.CorpusSchema.SemVer.{SemVer, compare_sem_ver}
use prime_system.CorpusSchema.SemVer.Ranges.{
  Operator, less, at_most, greater, at_least, equal, Comparator, Clause,
}

abbrev pub is_less : Ordering → Bool
is_less Ordering.lt = true
is_less _ = false

abbrev pub is_equal : Ordering → Bool
is_equal Ordering.eq = true
is_equal _ = false

abbrev pub is_greater : Ordering → Bool
is_greater Ordering.gt = true
is_greater _ = false

abbrev pub meets : Operator → Ordering → Bool
meets less o = is_less o
meets at_most o = not (is_greater o)
meets greater o = is_greater o
meets at_least o = not (is_less o)
meets equal o = is_equal o

-- `satisfiesComparator`
unfoldable pub satisfies_comparator : SemVer → Comparator → Bool
satisfies_comparator version c = meets c.operator (compare_sem_ver version c.version)

abbrev pub is_prerelease : SemVer → Bool
is_prerelease version = elim version.prerelease [ [] ↦ false | i ∷ is ↦ true ]

-- A comparator that pins the same three numbers with a pre-release.
abbrev pub same_tuple : SemVer → Comparator → Bool
same_tuple version c =
    is_prerelease c.version
    && eqb c.version.major version.major
    && eqb c.version.minor version.minor
    && eqb c.version.patch version.patch

abbrev pub satisfies_comparators : SemVer → Bool → List Comparator → Bool
satisfies_comparators version allows [] = not (is_prerelease version)
satisfies_comparators version allows (c ∷ cs) =
    if is_prerelease version && not allows && not (any (same_tuple version) (c ∷ cs))
    then false
    else every (satisfies_comparator version) (c ∷ cs)

-- `satisfiesClause`
unfoldable pub satisfies_clause : SemVer → Clause → Bool
satisfies_clause version clause =
    satisfies_comparators version clause.allows_prerelease clause.comparators

-- `satisfies`, of the clauses of a range.
unfoldable pub satisfies : SemVer → List Clause → Bool
satisfies version range = any (satisfies_clause version) range

pub data Resolution : Type 0 where
  resolved : SemVer → (candidates : List SemVer) → Resolution
  no_candidates : Resolution
  no_matching_version : (available : List SemVer) → Resolution

-- The greatest first.
abbrev pub before_in : SemVer → SemVer → Bool
before_in a b = is_less (compare_sem_ver b a)

abbrev pub choose : List SemVer → List SemVer → Resolution
choose [] matching = no_candidates
choose (v ∷ vs) [] = no_matching_version (v ∷ vs)
choose (v ∷ vs) (best ∷ more) = resolved best (best ∷ more)

-- `resolveVersion`
unfoldable pub resolve_version : List Clause → List SemVer → Resolution
resolve_version range available =
    let versions = sort before_in available in
    choose versions (filter (λ version. satisfies version range) versions)
