-- ===== src/Error.antt =====
-- src/error.rs: the errors of envelope and chain verification, and their texts.
use Prim.Native.String.{◌++◌}
use vertrule_verifier.Prelude.{ℕ, String, Option, none, some}
use vertrule_verifier.Prelude.Text.{display}
use vertrule_verifier.External.{External}
use vertrule_verifier.Limits.{LimitViolation, violation_to_string}

module _ ⦃x : External⦄ where
  open x use {Digest, DefinitionError, digest_display, digest_debug, definition_display}

  pub data VerifyError : Type 0 where
    event_hash_mismatch : (expected actual : Digest) → VerifyError
    unsupported_version : (version : ℕ) → VerifyError
    chain_linkage_broken : (index : ℕ) (expected actual : Option Digest) → VerifyError
    logical_time_not_monotonic : (index previous current : ℕ) → VerifyError
    canon : String → VerifyError
    definition : DefinitionError → VerifyError
    unknown_field : (field : String) → VerifyError
    missing_required_field : (field : String) → VerifyError
    unknown_receipt_type : (value : String) → VerifyError
    unknown_boundary_origin : (value : String) → VerifyError
    duplicate_event_hash : (index : ℕ) (digest : Digest) → VerifyError
    context_inconsistent : (index : ℕ) (expected found : Digest) → VerifyError
    policy_inconsistent : (index : ℕ) (expected found : Digest) → VerifyError
    schema_inconsistent : (index : ℕ) (expected found : Digest) → VerifyError
    float_in_structural_field : (field : String) → VerifyError
    non_canonical : (reason : String) → VerifyError
    malformed_json : (reason : String) → VerifyError
    digest_algorithm_mismatch : (declared expected : String) → VerifyError
    canonicalization_mismatch : (declared expected : String) → VerifyError
    signature_invalid : (reason : String) → VerifyError
    signature_data_malformed : (reason : String) → VerifyError
    limit_exceeded : LimitViolation → VerifyError
    payload_shape_mismatch : (reason : String) → VerifyError

  -- `Option<DigestBytes>` under `{:?}`
  abbrev option_debug : Option Digest → String
  option_debug none = "None"
  option_debug (some d) = "Some(" ++ digest_debug d ++ ")"

  abbrev inconsistency : String → ℕ → Digest → Digest → String
  inconsistency label index expected found =
      label
      ++ " inconsistency at index "
      ++ display index
      ++ ": expected "
      ++ digest_display expected
      ++ ", found "
      ++ digest_display found

  -- `VerifyError::to_string`
  unfoldable pub to_string : VerifyError → String
  to_string (event_hash_mismatch expected actual) =
      "event hash mismatch: expected "
      ++ digest_display expected
      ++ ", actual "
      ++ digest_display actual
  to_string (unsupported_version version) = "unsupported envelope version: " ++ display version
  to_string (chain_linkage_broken index expected actual) =
      "chain linkage broken at index "
      ++ display index
      ++ ": expected "
      ++ option_debug expected
      ++ ", actual "
      ++ option_debug actual
  to_string (logical_time_not_monotonic index previous current) =
      "logical time not monotonic at index "
      ++ display index
      ++ ": previous "
      ++ display previous
      ++ ", current "
      ++ display current
  to_string (canon reason) = "canonicalization error: " ++ reason
  to_string (definition e) = definition_display e
  to_string (unknown_field name) = "unknown field \"" ++ name ++ "\" in envelope"
  to_string (missing_required_field name) = "missing required field \"" ++ name ++ "\""
  to_string (unknown_receipt_type value) = "unknown receipt type \"" ++ value ++ "\""
  to_string (unknown_boundary_origin value) = "unknown boundary origin \"" ++ value ++ "\""
  to_string (duplicate_event_hash index digest) =
      "duplicate event_hash at index " ++ display index ++ ": " ++ digest_display digest
  to_string (context_inconsistent index expected found) =
      inconsistency "context_digest" index expected found
  to_string (policy_inconsistent index expected found) =
      inconsistency "policy_digest" index expected found
  to_string (schema_inconsistent index expected found) =
      inconsistency "schema_digest" index expected found
  to_string (float_in_structural_field name) = "float value in structural field \"" ++ name ++ "\""
  to_string (non_canonical reason) = "non-canonical JSON: " ++ reason
  to_string (malformed_json reason) = "malformed JSON: " ++ reason
  to_string (digest_algorithm_mismatch declared expected) =
      "digest algorithm mismatch: declared \"" ++ declared ++ "\", expected \"" ++ expected ++ "\""
  to_string (canonicalization_mismatch declared expected) =
      "canonicalization mismatch: declared \"" ++ declared ++ "\", expected \"" ++ expected ++ "\""
  to_string (signature_invalid reason) = "signature verification failed: " ++ reason
  to_string (signature_data_malformed reason) = "invalid signature data: " ++ reason
  to_string (limit_exceeded violation) = "limit exceeded: " ++ violation_to_string violation
  to_string (payload_shape_mismatch reason) = "payload shape mismatch: " ++ reason
