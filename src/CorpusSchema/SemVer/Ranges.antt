-- ===== src/CorpusSchema/SemVer/Ranges.antt =====
-- Ranges of versions, parseClause and what it calls in packages/corpus-schema/src/semver.ts.
use prime_system.Base.{
  ℕ, zero, suc, ◌+◌, ◌*◌, ◌-◌, ◌/◌, ◌%◌, ltb, Text, Bool, true, false, ◌&&◌, ◌||◌, List, [], ◌∷◌,
  ◌++◌, Option, none, some, if◌then◌else◌, leb, eqb, any, every,
}
use prime_system.CorpusSchema.SemVer.{Identifier, numeric, alphanumeric, SemVer}

pub data Operator : Type 0 where
  less at_most greater at_least equal : Operator

pub record Comparator : Type 0 where
  pub operator : Operator
  pub version : SemVer

pub record Clause : Type 0 where
  pub comparators : List Comparator
  pub allows_prerelease : Bool

-- A pre-release of a partial is given by the texts between its dots.
pub record PartialVersion : Type 0 where
  pub major : Option ℕ
  pub minor : Option ℕ
  pub patch : Option ℕ
  pub prerelease : Option (List Text)

abbrev is_digit : ℕ → Bool
is_digit c = leb b'0' c && leb c b'9'

unfoldable pub number_from : ℕ → Text → ℕ
number_from n [] = n
number_from n (c ∷ cs) = number_from (n * 10 + (c - b'0')) cs

abbrev starts_zero : Text → Bool
starts_zero (c ∷ d ∷ cs) = eqb c b'0'
starts_zero _ = false

-- A number without leading zeros, or a text that has a character other than a digit.
unfoldable pub read_identifier : Text → Option Identifier
read_identifier [] = none
read_identifier (c ∷ cs) =
    if every is_digit (c ∷ cs)
    then if starts_zero (c ∷ cs) then none else some (numeric (number_from 0 (c ∷ cs)))
    else some (alphanumeric (c ∷ cs))

unfoldable pub read_identifiers : List Text → Option (List Identifier)
read_identifiers [] = some []
read_identifiers (t ∷ ts) = elim (read_identifier t) [
  | none ↦ none
  | some i ↦ elim (read_identifiers ts) [ none ↦ none | some is ↦ some (i ∷ is) ]
]

abbrev pub or_zero : Option ℕ → ℕ
or_zero none = 0
or_zero (some n) = n

decimal_on : ℕ → ℕ → Text → Text
decimal_on zero n digits = digits
decimal_on (suc fuel) n digits =
    let rest = decimal_on fuel (n / 10) ((b'0' + n % 10) ∷ digits) in
    if ltb n 10 then (b'0' + n) ∷ digits else rest

-- A number as it is printed.
unfoldable pub decimal : ℕ → Text
unfolding decimal_on
decimal n = decimal_on (n + 1) n []

abbrev join_dots : List Text → Text
join_dots [] = []
join_dots (t ∷ []) = t
join_dots (t ∷ u ∷ ts) = t ++ b'.' ∷ join_dots (u ∷ ts)

abbrev pub numbers_text : ℕ → ℕ → ℕ → Text
numbers_text major minor patch = join_dots (decimal major ∷ decimal minor ∷ decimal patch ∷ [])

-- A version of three numbers, as `parseSemVer` reads it.
abbrev pub release : ℕ → ℕ → ℕ → SemVer
release major minor patch = record {
  major = major;
  minor = minor;
  patch = patch;
  prerelease = [];
  build = none;
  raw = numbers_text major minor patch;
}

abbrev prerelease_text : Option (List Text) → Text
prerelease_text none = []
prerelease_text (some texts) = b'-' ∷ join_dots texts

-- The version of a partial whose missing numbers are 0.
abbrev pub filled : PartialVersion → List Identifier → SemVer
filled partial ids =
    let major = or_zero partial.major in
    let minor = or_zero partial.minor in
    let patch = or_zero partial.patch in
    record {
      major = major;
      minor = minor;
      patch = patch;
      prerelease = ids;
      build = none;
      raw = numbers_text major minor patch ++ prerelease_text partial.prerelease;
    }

abbrev pub or_release : Option (List Text) → Option (List Identifier)
or_release none = some []
or_release (some texts) = read_identifiers texts

-- `versionOf`; `none` is the version that is not strict, which throws.
unfoldable pub version_of : PartialVersion → Option SemVer
version_of partial = elim (or_release partial.prerelease) [
  | none ↦ none
  | some ids ↦ some (filled partial ids)
]

abbrev pub comparator : Operator → SemVer → Comparator
comparator operator version = record { operator = operator; version = version }

-- `upperBound`
unfoldable pub upper_bound : PartialVersion → Option Comparator
upper_bound partial = elim partial.major [
  | none ↦ none
  | some major ↦ elim partial.minor [
    | none ↦ some (comparator less (release (major + 1) 0 0))
    | some minor ↦ elim partial.patch [
      | none ↦ some (comparator less (release major (minor + 1) 0))
      | some patch ↦ none
    ]
  ]
]

abbrev caret_patch : Option ℕ → SemVer
caret_patch none = release 0 1 0
caret_patch (some patch) = release 0 0 (patch + 1)

abbrev caret_minor : Option ℕ → Option ℕ → SemVer
caret_minor none patch = release 1 0 0
caret_minor (some zero) patch = caret_patch patch
caret_minor (some (suc n)) patch = release 0 (suc n + 1) 0

abbrev pub caret_version : ℕ → Option ℕ → Option ℕ → SemVer
caret_version zero minor patch = caret_minor minor patch
caret_version (suc n) minor patch = release (suc n + 1) 0 0

-- `caretBound`
unfoldable pub caret_bound : PartialVersion → Comparator
caret_bound partial =
    comparator less (caret_version (or_zero partial.major) partial.minor partial.patch)

-- `tildeBound`
unfoldable pub tilde_bound : PartialVersion → Comparator
tilde_bound partial = elim partial.minor [
  | none ↦ comparator less (release (or_zero partial.major + 1) 0 0)
  | some minor ↦ comparator less (release (or_zero partial.major) (minor + 1) 0)
]

-- The prefix of a comparator; `exact` is `=` or none.
pub data Prefix : Type 0 where
  caret tilde exact : Prefix
  plain : Operator → Prefix

-- The comparators of one token.
abbrev pub bounds : Prefix → SemVer → PartialVersion → List Comparator
bounds caret low partial = comparator at_least low ∷ caret_bound partial ∷ []
bounds tilde low partial = comparator at_least low ∷ tilde_bound partial ∷ []
bounds (plain operator) low partial = comparator operator low ∷ []
bounds exact low partial = elim (upper_bound partial) [
  | none ↦ comparator equal low ∷ []
  | some upper ↦ comparator at_least low ∷ upper ∷ []
]

unfoldable pub read_token : Prefix × PartialVersion → Option (List Comparator)
read_token (prefix, partial) = elim (version_of partial) [
  | none ↦ none
  | some low ↦ some (bounds prefix low partial)
]

abbrev pub has_prerelease : PartialVersion → Bool
has_prerelease partial = elim partial.prerelease [ none ↦ false | some texts ↦ true ]

unfoldable pub read_tokens : List (Prefix × PartialVersion) → Option (List Comparator)
read_tokens [] = some []
read_tokens (t ∷ ts) = elim (read_token t) [
  | none ↦ none
  | some cs ↦ elim (read_tokens ts) [ none ↦ none | some more ↦ some (cs ++ more) ]
]

pub data ClauseText : Type 0 where
  wildcard : ClauseText
  hyphen : PartialVersion → PartialVersion → ClauseText
  tokens : List (Prefix × PartialVersion) → ClauseText

abbrev hyphen_upper : SemVer → Option Comparator → Comparator
hyphen_upper high none = comparator at_most high
hyphen_upper high (some upper) = upper

abbrev read_hyphen : PartialVersion → PartialVersion → Option SemVer → Option SemVer → Option Clause
read_hyphen left right (some low) (some high) = some (record {
  comparators = comparator at_least low ∷ hyphen_upper high (upper_bound right) ∷ [];
  allows_prerelease = has_prerelease left || has_prerelease right;
})
read_hyphen left right _ _ = none

abbrev pub read_comparators : Bool → Option (List Comparator) → Option Clause
read_comparators allows none = none
read_comparators allows (some []) = none
read_comparators allows (some (c ∷ cs)) =
    some (record { comparators = c ∷ cs; allows_prerelease = allows })

-- `parseClause`; `none` is what throws.
unfoldable pub parse_clause : ClauseText → Option Clause
parse_clause wildcard = some (record { comparators = []; allows_prerelease = false })
parse_clause (hyphen left right) = read_hyphen left right (version_of left) (version_of right)
parse_clause (tokens ts) =
    read_comparators (any (λ (t : Prefix × PartialVersion). has_prerelease t.1) ts) (read_tokens ts)
