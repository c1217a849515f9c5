-- ===== src/Tests/Trusts.antt =====
-- The theorems on signatures, trust and the signed entry points, applied to concrete inputs.
use Prim.Native.String.{◌++◌}
use vertrule_verifier.Prelude.{
  ℕ, ◌≡◌, refl, ◌↔◌, true, String, none, some, List, [], ◌∷◌, Result, ok, eq_iff,
}
use vertrule_verifier.Prelude.Text.{display}
use vertrule_verifier.Limits.{default_limits, check_byte_limit, check_structure}
use vertrule_verifier.Canon.{admit_canonical_bytes, bytes_eq}
use vertrule_verifier.Json.{get_field}
use vertrule_verifier.SchemaProfile.{validate_envelope_schema}
use vertrule_verifier.Ingestion.{
  reject_structural_floats, ingest_envelope, ingest_envelope_with_limits,
}
use vertrule_verifier.Ingestion.Admission.{IsAdmitted}
use vertrule_verifier.Envelope.Checks.{IsSound}
use vertrule_verifier.Signature.{
  SignatureBundle, from_hex, verify_signature, check_key_id_consistency, key_fingerprint,
}
use vertrule_verifier.Signature.KeyIds.{IsKeyId, from_hex-ok_iff}
use vertrule_verifier.Signature.Soundness.{
  Signs, HasKey, verify_signature-ok_iff, check_key_id_consistency_iff,
}
use vertrule_verifier.Trust
use vertrule_verifier.Trust.{
  AuthoritySet, Revocation, TrustPolicy, default_policy, evaluate_trust, revoke, add_key, trusted,
  revoked,
}
use vertrule_verifier.Trust.Decision.{
  IsTrusted, evaluate_trust-trusted_iff, evaluate_trust-revoke, evaluate_trust-revoke_ne,
  evaluate_trust-detail,
}
use vertrule_verifier.Result.{SignatureValidation, valid}
use vertrule_verifier.Verify.{
  verify_receipt_with_limits, verify_signed_receipt, verify_signed_receipt_with_trust,
}
use vertrule_verifier.Verify.Accumulate.{IsConsistent}
use vertrule_verifier.Verify.Signed.{
  Trusts, verify_signed_receipt-valid_iff, verify_signed_receipt_with_trust-valid_iff,
}
use vertrule_verifier.Verify.Reports.{IsReported, results-IsConsistent, signature_report_lem}
use vertrule_verifier.Tests.World.{Receipt, toy, first_receipt, receipt_bytes}

abbrev key_hex : String
key_hex = "000000000000000000000000"

abbrev bundle : SignatureBundle
bundle = record {
  alg = "Ed25519";
  key_id = record { as_hex = key_hex };
  public_key_b64 = "key";
  signature_b64 = "sig";
  schema_version = "0.2";
  basis = "BLAKE3+JCS";
  timestamp = "now";
}

abbrev to_bundle : List ℕ → Result String SignatureBundle
to_bundle bs = ok bundle

abbrev authorities : AuthoritySet
authorities = record (Trust.new "set") {
  keys =
      (key_hex, record { public_key_b64 = "key"; valid_from_epoch = 1; valid_until_epoch = some 4 })
      ∷ [];
}

abbrev lost : Revocation
lost = record { reason = "lost"; revoked_at_epoch = 2 }

from_hex-ok_iff_example :
    (from_hex ⦃x = toy⦄ key_hex ≡ ok bundle.key_id)
    ↔ ((bundle.key_id ≡ record { as_hex = key_hex }) × IsKeyId key_hex)
from_hex-ok_iff_example = from_hex-ok_iff ⦃x = toy⦄ key_hex bundle.key_id

verify_signature-ok_iff_example :
    (verify_signature ⦃x = toy⦄ first_receipt bundle ≡ ok tt) ↔ Signs ⦃x = toy⦄ bundle first_receipt
verify_signature-ok_iff_example = verify_signature-ok_iff ⦃x = toy⦄ first_receipt bundle

check_key_id_consistency_iff_example : (check_key_id_consistency ⦃x = toy⦄ bundle ≡ true) ↔ (
    (key : List ℕ) × HasKey ⦃x = toy⦄ bundle key
    × (key_fingerprint ⦃x = toy⦄ key ≡ bundle.key_id.as_hex))
check_key_id_consistency_iff_example = check_key_id_consistency_iff ⦃x = toy⦄ bundle

evaluate_trust-trusted_iff_example :
    ((evaluate_trust bundle.key_id authorities default_policy (some "key")).status ≡ trusted)
    ↔ IsTrusted key_hex authorities default_policy (some "key")
evaluate_trust-trusted_iff_example =
    evaluate_trust-trusted_iff bundle.key_id authorities default_policy (some "key")

evaluate_trust-revoke_example :
    ((evaluate_trust bundle.key_id (revoke authorities key_hex lost) default_policy none).status
      ≡ revoked)
    × ((evaluate_trust bundle.key_id (revoke authorities key_hex lost) default_policy none).detail
        ≡ some ("revoked at epoch " ++ display 2 ++ ": " ++ "lost"))
evaluate_trust-revoke_example =
    evaluate_trust-revoke bundle.key_id authorities lost default_policy none refl

evaluate_trust-revoke_ne_example :
    evaluate_trust bundle.key_id (revoke authorities "another" lost) default_policy none
    ≡ evaluate_trust bundle.key_id authorities default_policy none
evaluate_trust-revoke_ne_example =
    evaluate_trust-revoke_ne bundle.key_id authorities "another" lost default_policy none
      (λ p. cc ((eq_iff "another" key_hex).1 p))

evaluate_trust-detail_example :
    ((evaluate_trust bundle.key_id authorities default_policy none).detail ≡ none)
    ↔ ((evaluate_trust bundle.key_id authorities default_policy none).status ≡ trusted)
evaluate_trust-detail_example =
    (evaluate_trust-detail bundle.key_id authorities default_policy none).0

verify_signed_receipt-valid_iff_example :
    ((verify_signed_receipt ⦃x = toy⦄ to_bundle receipt_bytes []).status ≡ valid) ↔ (
      (e : Receipt) × IsAdmitted ⦃x = toy⦄ receipt_bytes default_limits e
      × IsSound ⦃x = toy⦄ e
      × ((b : SignatureBundle) × (to_bundle [] ≡ ok b) × Signs ⦃x = toy⦄ b e))
verify_signed_receipt-valid_iff_example =
    verify_signed_receipt-valid_iff ⦃x = toy⦄ to_bundle receipt_bytes []

verify_signed_receipt_with_trust-valid_iff_example :
    ((verify_signed_receipt_with_trust ⦃x = toy⦄ to_bundle receipt_bytes [] authorities
        default_policy).status
      ≡ valid)
    ↔ ((e : Receipt) × IsAdmitted ⦃x = toy⦄ receipt_bytes default_limits e
        × IsSound ⦃x = toy⦄ e
        × ((b : SignatureBundle) × (to_bundle [] ≡ ok b)
            × Signs ⦃x = toy⦄ b e
            × Trusts ⦃x = toy⦄ authorities default_policy b))
verify_signed_receipt_with_trust-valid_iff_example =
    verify_signed_receipt_with_trust-valid_iff ⦃x = toy⦄ to_bundle authorities default_policy
      receipt_bytes []

results-IsConsistent_example :
    IsConsistent (verify_receipt_with_limits ⦃x = toy⦄ receipt_bytes default_limits)
results-IsConsistent_example =
    (results-IsConsistent ⦃x = toy⦄ to_bundle receipt_bytes [] default_limits authorities
      default_policy).0

ingested : ingest_envelope ⦃x = toy⦄ receipt_bytes ≡ ok first_receipt
unfolding ingest_envelope ingest_envelope_with_limits check_byte_limit admit_canonical_bytes
    check_structure validate_envelope_schema bytes_eq get_field reject_structural_floats
ingested = refl

signature_report_lem_example :
    (v : SignatureValidation) × ((verify_signed_receipt ⦃x = toy⦄ to_bundle receipt_bytes
        []).signature_validation
      ≡ some v)
    × IsReported ⦃x = toy⦄ first_receipt bundle v
signature_report_lem_example =
    signature_report_lem ⦃x = toy⦄ to_bundle receipt_bytes [] first_receipt bundle ingested refl
