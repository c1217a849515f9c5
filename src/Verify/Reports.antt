-- ===== src/Verify/Reports.antt =====
-- src/verify.rs: what the results of the entry points report besides their status.
use vertrule_verifier.Prelude.{
  ℕ, ◌≡◌, ◌↔◌, refl, sym, subst, Bool, true, false, String, Option, none, some, List, Result, ok,
  err, ok-injective,
}
use vertrule_verifier.External.{External}
use vertrule_verifier.Error.{VerifyError}
use vertrule_verifier.Limits.{VerifierLimits}
use vertrule_verifier.Ingestion.{
  ingest_envelope, ingest_envelope_with_limits, ingest_chain_with_limits,
}
use vertrule_verifier.Signature.{
  SignatureBundle, check_key_id_consistency, verify_signature, key_fingerprint,
}
use vertrule_verifier.Signature.Soundness.{
  HasKey, Signs, verify_signature-ok_iff, check_key_id_consistency_iff,
}
use vertrule_verifier.Trust.{AuthoritySet, TrustPolicy, TrustStatus, trusted}
use vertrule_verifier.Result.{VerificationResult, SignatureValidation}
use vertrule_verifier.Verify.{
  verify_single_envelope, signature_outcome, verify_signature_bundle, note_trust, apply_trust,
  signed_result, trusted_result, verify_receipt_with_limits, verify_receipt_chain_with_limits,
  verify_signed_receipt, verify_signed_receipt_with_trust,
}
use vertrule_verifier.Verify.Accumulate.{
  IsConsistent, single-IsConsistent, add_error-IsConsistent, invalid-ne-valid, cons-ne-nil,
}
use vertrule_verifier.Verify.Receipts.{envelope_result-IsConsistent}
use vertrule_verifier.Verify.Chains.{chain_result-IsConsistent}

module _ ⦃x : External⦄ where
  open x use {ReceiptEnvelope, VerifyingKey}

  outcome-IsConsistent :
      (m : Result VerifyError (Unit {0})) (c : Bool) (b : SignatureBundle) (r : VerificationResult)
      → IsConsistent r
      → IsConsistent (signature_outcome m c b r).0
  outcome-IsConsistent (ok tt) c b r h = record { agrees = h.agrees }
  outcome-IsConsistent (err e) c b r h = record { agrees = (add_error-IsConsistent r _).agrees }

  bundle-IsConsistent :
      (e : ReceiptEnvelope) (parsed : Result String SignatureBundle) (r : VerificationResult)
      → IsConsistent r
      → IsConsistent (verify_signature_bundle e parsed r).0
  unfolding verify_signature_bundle
  bundle-IsConsistent e (err f) r h = record { agrees = (add_error-IsConsistent r _).agrees }
  bundle-IsConsistent e (ok b) r h = outcome-IsConsistent (verify_signature e b) _ b r h

  note_trust-IsConsistent :
      (t : TrustStatus) (r : VerificationResult) → IsConsistent r → IsConsistent (note_trust t r)
  note_trust-IsConsistent trusted r h = h
  note_trust-IsConsistent _ r h = add_error-IsConsistent r _

  apply_trust-IsConsistent :
      (s : AuthoritySet) (policy : TrustPolicy) (r : VerificationResult)
      (b : Option SignatureBundle)
      → IsConsistent r
      → IsConsistent (apply_trust s policy (r, b))
  unfolding apply_trust
  apply_trust-IsConsistent s policy r none h = h
  apply_trust-IsConsistent s policy r (some b) h = record {
    agrees = (note_trust-IsConsistent _ r h).agrees;
  }

  -- What the report says of a bundle that was parsed.
  pub record IsReported (e : ReceiptEnvelope) (b : SignatureBundle) (v : SignatureValidation)
      : Type 0 where
    pub is_present : v.present ≡ true
    pub tells_valid : (v.valid ≡ true) ↔ Signs b e
    pub tells_consistent :
        (v.key_id_consistent ≡ true)
        ↔ ((key : VerifyingKey) × HasKey b key × (key_fingerprint key ≡ b.key_id.as_hex))

  reported :
      (e : ReceiptEnvelope) (b : SignatureBundle) (m : Result VerifyError (Unit {0}))
      (r : VerificationResult)
      → (m ≡ ok tt) ↔ Signs b e
      → (v : SignatureValidation) × ((signature_outcome m
            (check_key_id_consistency b)
            b
            r).0.signature_validation
          ≡ some v)
        × IsReported e b v
  reported e b (ok tt) r h = (
    record { present = true; valid = true; key_id_consistent = check_key_id_consistency b },
    refl,
    record {
      is_present = refl;
      tells_valid = (λ p. h.0 refl, λ p. refl);
      tells_consistent = check_key_id_consistency_iff b;
    },
  )
  reported e b (err f) r h = (
    record { present = true; valid = false; key_id_consistent = check_key_id_consistency b },
    refl,
    record {
      is_present = refl;
      tells_valid = (λ p. cc, λ p. cc (h.1 p));
      tells_consistent = check_key_id_consistency_iff b;
    },
  )

  bundle_report :
      (e : ReceiptEnvelope) (b : SignatureBundle) (parsed : Result String SignatureBundle)
      (r : VerificationResult)
      → parsed ≡ ok b
      → (v : SignatureValidation) × ((verify_signature_bundle e parsed r).0.signature_validation
          ≡ some v)
        × IsReported e b v
  unfolding verify_signature_bundle
  bundle_report e b (err f) r p = cc p
  bundle_report e b (ok c) r p =
      subst
        (λ d.
          (v : SignatureValidation) × ((verify_signature_bundle e (ok d) r).0.signature_validation
            ≡ some v)
          × IsReported e b v)
        (sym (ok-injective p)) (reported e b (verify_signature e b) r (verify_signature-ok_iff e b))

  module _ (bundle_from_slice : List ℕ → Result String SignatureBundle) where
    signed_result-IsConsistent :
        (m : Result VerifyError ReceiptEnvelope) (sig : List ℕ)
        → IsConsistent (signed_result bundle_from_slice m sig)
    signed_result-IsConsistent (ok e) sig =
        bundle-IsConsistent e (bundle_from_slice sig) _ (single-IsConsistent e)
    signed_result-IsConsistent (err f) sig = record {
      agrees = (λ h. absurd (invalid-ne-valid h), λ h. absurd (cons-ne-nil h));
    }

    trusted_result-IsConsistent :
        (m : Result VerifyError ReceiptEnvelope) (sig : List ℕ) (s : AuthoritySet)
        (policy : TrustPolicy)
        → IsConsistent (trusted_result bundle_from_slice m sig s policy)
    trusted_result-IsConsistent (ok e) sig s policy =
        apply_trust-IsConsistent s policy _ _
          (bundle-IsConsistent e (bundle_from_slice sig) _ (single-IsConsistent e))
    trusted_result-IsConsistent (err f) sig s policy = record {
      agrees = (λ h. absurd (invalid-ne-valid h), λ h. absurd (cons-ne-nil h));
    }

    -- Whatever bytes, limits, authority set and policy an entry point is given, its result is valid
    -- exactly when it lists no error: for one receipt, a chain, a signed receipt and a signed
    -- receipt with trust.
    pub results-IsConsistent :
        (raw sig : List ℕ) (l : VerifierLimits) (s : AuthoritySet) (policy : TrustPolicy)
        → IsConsistent (verify_receipt_with_limits raw l)
          × IsConsistent (verify_receipt_chain_with_limits raw l)
          × IsConsistent (verify_signed_receipt bundle_from_slice raw sig)
          × IsConsistent (verify_signed_receipt_with_trust bundle_from_slice raw sig s policy)
    unfolding verify_receipt_with_limits verify_receipt_chain_with_limits verify_signed_receipt
        verify_signed_receipt_with_trust
    results-IsConsistent raw sig l s policy = (
      envelope_result-IsConsistent (ingest_envelope_with_limits raw l),
      chain_result-IsConsistent (ingest_chain_with_limits raw l),
      signed_result-IsConsistent (ingest_envelope raw) sig,
      trusted_result-IsConsistent (ingest_envelope raw) sig s policy,
    )

    signed_report :
        (m : Result VerifyError ReceiptEnvelope) (sig : List ℕ) (e : ReceiptEnvelope)
        (b : SignatureBundle)
        → m ≡ ok e
        → bundle_from_slice sig ≡ ok b
        → (v : SignatureValidation) × ((signed_result bundle_from_slice m sig).signature_validation
            ≡ some v)
          × IsReported e b v
    signed_report (err f) sig e b p q = cc p
    signed_report (ok f) sig e b p q =
        subst
          (λ g.
            (v : SignatureValidation) × ((signed_result bundle_from_slice (ok g)
                sig).signature_validation
              ≡ some v)
            × IsReported e b v)
          (sym (ok-injective p))
          (bundle_report e b (bundle_from_slice sig) (verify_single_envelope e) q)

    -- For a receipt that is ingested and a bundle that is parsed, the report says that a signature
    -- is present, that it is valid exactly when the bundle signs the envelope, and that its key
    -- identifier is consistent exactly when it is the fingerprint of the bundle's public key.
    pub signature_report_lem :
        (raw sig : List ℕ) (e : ReceiptEnvelope) (b : SignatureBundle)
        → ingest_envelope raw ≡ ok e
        → bundle_from_slice sig ≡ ok b
        → (v : SignatureValidation) × ((verify_signed_receipt bundle_from_slice raw
              sig).signature_validation
            ≡ some v)
          × IsReported e b v
    unfolding verify_signed_receipt
    signature_report_lem raw sig e b ingested parsed =
        signed_report (ingest_envelope raw) sig e b ingested parsed
