-- ===== src/PluginHost/Trust.antt =====
-- packages/plugin-host/src/trust.ts. The file system is a parameter: what a path resolves to and the
-- relative path of two paths. The digest of a plugin's files is that of Trust/Digest, an argument of
-- the check of a signature.
pub mod Digest
pub mod Laws
use prime_system.Base.{
  ℕ, Text, Bool, true, false, not, ◌&&◌, ◌||◌, List, [], ◌∷◌, ◌++◌, Option, none, some,
  if◌then◌else◌, leb, eqb, any, same_text, text_eq,
}
use prime_system.Base.Maps.{get, set}

pub data TrustRefusalCode : Type 0 where
  inside_data_root not_in_plugin_root signature_missing signature_digest_mismatch : TrustRefusalCode
  signature_algorithm_unsupported registry_digest_conflict : TrustRefusalCode

-- The texts of the reasons are left out.
pub data TrustResult : Type 0 where
  trusted : TrustResult
  refused : TrustRefusalCode → TrustResult

abbrev pub is_trusted : TrustResult → Bool
is_trusted trusted = true
is_trusted (refused code) = false

abbrev pub starts_with : Text → Text → Bool
starts_with [] t = true
starts_with (c ∷ cs) [] = false
starts_with (c ∷ cs) (d ∷ t) = eqb c d && starts_with cs t

abbrev is_letter : ℕ → Bool
is_letter c = (leb b'a' c && leb c b'z') || (leb b'A' c && leb c b'Z')

-- `/^[a-zA-Z]:/`
abbrev has_drive : Text → Bool
has_drive (c ∷ d ∷ t) = is_letter c && eqb d b':'
has_drive _ = false

pub record ProvenancePolicy : Type 0 where
  pub plugin_roots : List Text
  pub data_roots : List Text

module _ (separator : Text) (relative : Text → Text → Text) (real_path : Text → Option Text) where
  -- `contains`
  unfoldable pub contains : Text → Text → Bool
  contains outer inner =
      if same_text outer inner
      then true
      else let rel = relative outer inner in
        not (same_text rel [])
        && not (starts_with (b'.' ∷ b'.' ∷ []) rel)
        && not (starts_with (b'.' ∷ (separator ++ b'.' ∷ [])) rel)
        && not (starts_with separator rel)
        && not (has_drive rel)

  -- A root that is there, and has the candidate under it.
  abbrev pub holds : Text → Text → Bool
  holds candidate root = elim (real_path root) [
    | none ↦ false
    | some real ↦ contains real candidate
  ]

  abbrev pub check_candidate : ProvenancePolicy → Option Text → TrustResult
  check_candidate policy none = refused not_in_plugin_root
  check_candidate policy (some candidate) =
      if any (holds candidate) policy.data_roots
      then refused inside_data_root
      else if any (holds candidate) policy.plugin_roots
      then trusted
      else refused not_in_plugin_root

  -- `checkProvenance`
  unfoldable pub check_provenance : Text → ProvenancePolicy → TrustResult
  check_provenance candidate_dir policy = check_candidate policy (real_path candidate_dir)

pub record SignaturePolicy : Type 0 where
  pub require_signature : Bool
  pub algorithms : List Text

-- `split(":", 1)[0]`
unfoldable pub before_colon : Text → Text
before_colon [] = []
before_colon (c ∷ cs) = let rest = before_colon cs in if eqb c b':' then [] else c ∷ rest

-- `none` is what throws.
abbrev pub check_digest : Text → Option Text → Option TrustResult
check_digest digest none = none
check_digest digest (some actual) =
    if not (same_text actual digest) then some (refused signature_digest_mismatch) else some trusted

module _ (compute_digest : Text → Text → Option Text) where
  abbrev pub check_signature : Text → SignaturePolicy → Option Text → Option TrustResult
  check_signature root policy none =
      if policy.require_signature then some (refused signature_missing) else some trusted
  check_signature root policy (some digest) =
      if not (any (same_text (before_colon digest)) policy.algorithms)
      then some (refused signature_algorithm_unsupported)
      else check_digest digest (compute_digest root (before_colon digest))

  -- `verifyPluginSignature`, of the digest that the manifest declares, if it does.
  unfoldable pub verify_plugin_signature : Text → Option Text → SignaturePolicy → Option TrustResult
  verify_plugin_signature root signature policy = check_signature root policy signature

-- PluginDigestRegistry
abbrev pub DigestRegistry : Type 0
DigestRegistry = List (Text × Text)

abbrev pub registry_key : Text → Text → Text
registry_key name version = name ++ (b'@' ∷ version)

abbrev pub differs_from : Option Text → Text → Bool
differs_from none digest = false
differs_from (some known) digest = not (same_text known digest)

unfoldable pub record_digest : Text → Text → Text → DigestRegistry → DigestRegistry × TrustResult
record_digest name version digest seen =
    if differs_from (get (registry_key name version) seen) digest
    then (seen, refused registry_digest_conflict)
    else (set (registry_key name version) digest seen, trusted)

unfoldable pub digest_of : Text → Text → DigestRegistry → Option Text
digest_of name version seen = get (registry_key name version) seen
