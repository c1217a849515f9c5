-- ===== src/Envelope.antt =====
-- src/envelope.rs: the checks on one envelope.
pub mod Checks
use vertrule_verifier.Prelude.{
  String, Option, none, some, Result, ok, err, ◌>>=◌, ◌>>◌, map_err, str_eq, if◌then◌else◌,
}
use vertrule_verifier.External.{External}
use vertrule_verifier.Error.{
  VerifyError, event_hash_mismatch, unsupported_version, canon, digest_algorithm_mismatch,
  canonicalization_mismatch,
}

module _ ⦃x : External⦄ where
  open x use {
    Digest, ReceiptEnvelope, digest_eq, version_eq, version_number, v1, envelope_version,
    event_hash, digest_algorithm, canonicalization, expected_digest_algorithm,
    expected_canonicalization, compute_event_hash,
  }

  abbrev same_hash : ReceiptEnvelope → Digest → Result VerifyError (Unit {0})
  same_hash envelope computed =
      if digest_eq computed (event_hash envelope)
      then ok tt
      else err (event_hash_mismatch (event_hash envelope) computed)

  unfoldable pub verify_event_hash : ReceiptEnvelope → Result VerifyError (Unit {0})
  verify_event_hash envelope = do
    computed ← map_err canon (compute_event_hash envelope)
    same_hash envelope computed

  unfoldable pub verify_envelope_version : ReceiptEnvelope → Result VerifyError (Unit {0})
  verify_envelope_version envelope =
      let v = envelope_version envelope in
      if version_eq v v1 then ok tt else err (unsupported_version (version_number v))

  -- `if let Some(declared) = field { if declared != expected { return Err(..) } }`
  abbrev check_declared :
      Option String → String → (String → String → VerifyError) → Result VerifyError (Unit {0})
  check_declared none expected mismatch = ok tt
  check_declared (some declared) expected mismatch =
      if str_eq declared expected then ok tt else err (mismatch declared expected)

  unfoldable pub verify_algorithms : ReceiptEnvelope → Result VerifyError (Unit {0})
  verify_algorithms envelope = do
    let version = envelope_version envelope
    check_declared (digest_algorithm envelope) (expected_digest_algorithm version)
        digest_algorithm_mismatch
    check_declared (canonicalization envelope) (expected_canonicalization version)
        canonicalization_mismatch

  unfoldable pub validate_receipt_envelope_integrity :
      ReceiptEnvelope → Result VerifyError (Unit {0})
  validate_receipt_envelope_integrity envelope = do
    verify_algorithms envelope
    verify_event_hash envelope
    ok tt
