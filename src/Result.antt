-- ===== src/Result.antt =====
-- src/result.rs: the structured result of a verification.
pub mod Status
use vertrule_verifier.Prelude.{ℕ, Bool, true, false, String, Option, none, List, [], ◌∷◌, ◌++◌}
use vertrule_verifier.SchemaProfile.{profile_version}
use vertrule_verifier.Trust.{TrustValidation}

pub data VerificationStatus : Type 0 where
  valid invalid : VerificationStatus

pub record DigestValidation : Type 0 where
  pub all_hashes_match : Bool
  pub chain_integrity : Bool
  pub ordering_valid : Bool

pub record ChainValidation : Type 0 where
  pub length : ℕ
  pub first_logical_time : ℕ
  pub last_logical_time : ℕ

pub record ContextConsistency : Type 0 where
  pub uniform_context : Bool

pub record PolicyConsistency : Type 0 where
  pub stable_policy : Bool
  pub transitions_detected : Bool

pub record SchemaConsistency : Type 0 where
  pub uniform_schema : Bool

pub record SignatureValidation : Type 0 where
  pub present : Bool
  pub valid : Bool
  pub key_id_consistent : Bool

pub record VerificationResult : Type 0 where
  pub status : VerificationStatus
  pub schema_version : String
  pub digest_validation : DigestValidation
  pub chain_validation : Option ChainValidation
  pub context_consistency : Option ContextConsistency
  pub policy_consistency : Option PolicyConsistency
  pub schema_consistency : Option SchemaConsistency
  pub signature_validation : Option SignatureValidation
  pub trust_validation : Option TrustValidation
  pub errors : List String

-- `impl Display for VerificationStatus`
abbrev pub status_to_string : VerificationStatus → String
status_to_string valid = "VALID"
status_to_string invalid = "INVALID"

-- `VerificationStatus ==` with `Valid`
abbrev pub is_valid : VerificationStatus → Bool
is_valid valid = true
is_valid invalid = false

abbrev all_checks : Bool → DigestValidation
all_checks b = record { all_hashes_match = b; chain_integrity = b; ordering_valid = b }

-- `VerificationResult::valid_single`
abbrev pub valid_single : VerificationResult
valid_single = record {
  status = valid;
  schema_version = profile_version;
  digest_validation = all_checks true;
  chain_validation = none;
  context_consistency = none;
  policy_consistency = none;
  schema_consistency = none;
  signature_validation = none;
  trust_validation = none;
  errors = [];
}

-- `VerificationResult::invalid`
abbrev pub invalid_result : String → VerificationResult
invalid_result error = record {
  status = invalid;
  schema_version = profile_version;
  digest_validation = all_checks false;
  chain_validation = none;
  context_consistency = none;
  policy_consistency = none;
  schema_consistency = none;
  signature_validation = none;
  trust_validation = none;
  errors = error ∷ [];
}

abbrev pub add_error : VerificationResult → String → VerificationResult
add_error r error = record r { status = invalid; errors = r.errors ++ error ∷ [] }
