-- ===== src/Verify/Receipts.antt =====
-- src/verify.rs: what a valid result for one receipt means.
use vertrule_verifier.Prelude.{ℕ, ◌≡◌, ◌↔◌, List, Result, ok, err, refl, sym, subst, ok-injective}
use vertrule_verifier.External.{External}
use vertrule_verifier.Error.{VerifyError}
use vertrule_verifier.Limits.{VerifierLimits, default_limits}
use vertrule_verifier.Ingestion.{ingest_envelope, ingest_envelope_with_limits}
use vertrule_verifier.Ingestion.Admission.{IsAdmitted, ingest_envelope-ok_iff}
use vertrule_verifier.Envelope.Checks.{IsSound}
use vertrule_verifier.Result.{valid}
use vertrule_verifier.Verify.{envelope_result, verify_receipt, verify_receipt_with_limits}
use vertrule_verifier.Verify.Accumulate.{
  IsConsistent, single-valid_iff, single-IsConsistent, invalid-ne-valid, cons-ne-nil,
}

module _ ⦃x : External⦄ where
  open x use {ReceiptEnvelope}

  -- The envelope that was ingested is sound.
  envelope_result-valid_iff :
      (m : Result VerifyError ReceiptEnvelope)
      → ((envelope_result m).status ≡ valid) ↔ ((e : ReceiptEnvelope) × (m ≡ ok e) × IsSound e)
  envelope_result-valid_iff (ok e) =
      let single = single-valid_iff e in
      (λ h. (e, refl, single.0 h), λ h. single.1 (subst IsSound (sym (ok-injective h.1)) h.2))
  envelope_result-valid_iff (err f) = (λ h. absurd (invalid-ne-valid h), λ h. cc h.1)

  -- A receipt is reported valid exactly when its bytes are admitted under the limits as an envelope
  -- of version 1, with the algorithm markers of that version and the recomputed event hash.
  pub verify_receipt_with_limits-valid_iff :
      (raw : List ℕ) (l : VerifierLimits)
      → ((verify_receipt_with_limits raw l).status ≡ valid)
        ↔ ((e : ReceiptEnvelope) × IsAdmitted raw l e × IsSound e)
  unfolding verify_receipt_with_limits
  verify_receipt_with_limits-valid_iff raw l =
      let result = envelope_result-valid_iff (ingest_envelope_with_limits raw l) in
      (
        λ h. let (e, p, sound) = result.0 h in (e, (ingest_envelope-ok_iff raw l e).0 p, sound),
        λ h. result.1 (h.0, (ingest_envelope-ok_iff raw l h.0).1 h.1, h.2),
      )

  pub verify_receipt-default :
      (raw : List ℕ) → verify_receipt raw ≡ verify_receipt_with_limits raw default_limits
  unfolding verify_receipt verify_receipt_with_limits ingest_envelope
  verify_receipt-default raw = refl

  pub envelope_result-IsConsistent :
      (m : Result VerifyError ReceiptEnvelope) → IsConsistent (envelope_result m)
  envelope_result-IsConsistent (ok e) = single-IsConsistent e
  envelope_result-IsConsistent (err e) = record {
    agrees = (λ h. absurd (invalid-ne-valid h), λ h. absurd (cons-ne-nil h));
  }
