-- ===== src/Verify/Signed.antt =====
-- src/verify.rs: what a valid result for a signed receipt means.
use vertrule_verifier.Prelude.{
  ℕ, ◌≡◌, ◌↔◌, refl, sym, subst, Bool, true, String, some, List, Result, ok, err, ok-injective,
}
use vertrule_verifier.External.{External}
use vertrule_verifier.Error.{VerifyError}
use vertrule_verifier.Limits.{default_limits}
use vertrule_verifier.Ingestion.{ingest_envelope, ingest_envelope_with_limits}
use vertrule_verifier.Ingestion.Admission.{IsAdmitted, ingest_envelope-ok_iff}
use vertrule_verifier.Envelope.Checks.{IsSound}
use vertrule_verifier.Signature.{SignatureBundle, check_key_id_consistency, verify_signature}
use vertrule_verifier.Signature.Soundness.{Signs, verify_signature-ok_iff}
use vertrule_verifier.Trust.{AuthoritySet, TrustPolicy, TrustStatus, trusted, evaluate_trust}
use vertrule_verifier.Trust.Decision.{IsTrusted, evaluate_trust-trusted_iff}
use vertrule_verifier.Result.{VerificationResult, valid}
use vertrule_verifier.Verify.{
  verify_single_envelope, signature_outcome, signature_report, signed_result, trusted_result,
  verify_signature_bundle, note_trust, apply_trust, verify_signed_receipt,
  verify_signed_receipt_with_trust,
}
use vertrule_verifier.Verify.Accumulate.{single-valid_iff, invalid-ne-valid}

module _ ⦃x : External⦄ where
  open x use {ReceiptEnvelope}

  outcome-valid_iff :
      (m : Result VerifyError (Unit {0})) (c : Bool) (b : SignatureBundle) (r : VerificationResult)
      → ((signature_outcome m c b r).0.status ≡ valid) ↔ ((r.status ≡ valid) × (m ≡ ok tt))
  outcome-valid_iff (ok tt) c b r = (λ h. (h, refl), λ h. h.0)
  outcome-valid_iff (err f) c b r = (λ h. absurd (invalid-ne-valid h), λ h. cc)

  note_trust-valid_iff :
      (t : TrustStatus) (r : VerificationResult)
      → ((note_trust t r).status ≡ valid) ↔ ((r.status ≡ valid) × (t ≡ trusted))
  note_trust-valid_iff trusted r = (λ h. (h, refl), λ h. h.0)
  note_trust-valid_iff _ r = (λ h. absurd (invalid-ne-valid h), λ h. cc)

  -- The signature check leaves a valid result exactly when the result was valid before, and the
  -- bundle was parsed and signs the envelope.
  bundle-valid_iff :
      (e : ReceiptEnvelope) (parsed : Result String SignatureBundle) (r : VerificationResult)
      → ((verify_signature_bundle e parsed r).0.status ≡ valid)
        ↔ ((r.status ≡ valid) × ((b : SignatureBundle) × (parsed ≡ ok b) × Signs b e))
  unfolding verify_signature_bundle
  bundle-valid_iff e (err f) r = (λ h. absurd (invalid-ne-valid h), λ h. cc h.1.1)
  bundle-valid_iff e (ok b) r =
      let outcome = outcome-valid_iff (verify_signature e b) (check_key_id_consistency b) b r in
      let signed = verify_signature-ok_iff e b in
      (
        λ h. let (p, q) = outcome.0 h in (p, (b, refl, signed.0 q)),
        λ h.
            let same = sym (ok-injective h.1.1) in
            outcome.1 (h.0, signed.1 (subst (λ c. Signs c e) same h.1.2)),
      )

  module _ (s : AuthoritySet) (policy : TrustPolicy) where
    -- The trust evaluation of the bundle's key, with the public key that the bundle claims.
    abbrev pub Trusts : SignatureBundle → Type 0
    Trusts b = IsTrusted b.key_id.as_hex s policy (some b.public_key_b64)

    trust_outcome-valid_iff :
        (m : Result VerifyError (Unit {0})) (c : Bool) (b : SignatureBundle)
        (r : VerificationResult)
        → ((apply_trust s policy (signature_outcome m c b r)).status ≡ valid)
          ↔ ((r.status ≡ valid) × (m ≡ ok tt) × Trusts b)
    unfolding apply_trust
    trust_outcome-valid_iff (ok tt) c b r =
        let noted =
          note_trust-valid_iff (evaluate_trust b.key_id s policy (some b.public_key_b64)).status
            (signature_report true c r) in
        let decided = evaluate_trust-trusted_iff b.key_id s policy (some b.public_key_b64) in
        (λ h. let (p, q) = noted.0 h in (p, refl, decided.0 q), λ h. noted.1 (h.0, decided.1 h.2))
    trust_outcome-valid_iff (err f) c b r = (λ h. absurd (invalid-ne-valid h), λ h. cc h.1)

    trust-valid_iff :
        (e : ReceiptEnvelope) (parsed : Result String SignatureBundle) (r : VerificationResult)
        → ((apply_trust s policy (verify_signature_bundle e parsed r)).status ≡ valid)
          ↔ ((r.status ≡ valid) × ((b : SignatureBundle) × (parsed ≡ ok b) × Signs b e × Trusts b))
    unfolding verify_signature_bundle apply_trust
    trust-valid_iff e (err f) r = (λ h. absurd (invalid-ne-valid h), λ h. cc h.1.1)
    trust-valid_iff e (ok b) r =
        let outcome =
          trust_outcome-valid_iff (verify_signature e b) (check_key_id_consistency b) b r in
        let signed = verify_signature-ok_iff e b in
        (
          λ h. let (p, q, t) = outcome.0 h in (p, (b, refl, signed.0 q, t)),
          λ h.
              let same = sym (ok-injective h.1.1) in
              outcome.1
                (h.0, signed.1 (subst (λ c. Signs c e) same h.1.2), subst Trusts same h.1.3),
        )

  module _ (bundle_from_slice : List ℕ → Result String SignatureBundle) where
    signed_result-valid_iff :
        (m : Result VerifyError ReceiptEnvelope) (sig : List ℕ)
        → ((signed_result bundle_from_slice m sig).status ≡ valid) ↔ (
            (e : ReceiptEnvelope) × (m ≡ ok e)
            × IsSound e
            × ((b : SignatureBundle) × (bundle_from_slice sig ≡ ok b) × Signs b e))
    signed_result-valid_iff (err f) sig = (λ h. absurd (invalid-ne-valid h), λ h. cc h.1)
    signed_result-valid_iff (ok e) sig =
        let single = single-valid_iff e in
        let bundle = bundle-valid_iff e (bundle_from_slice sig) (verify_single_envelope e) in
        (
          λ h. let (p, q) = bundle.0 h in (e, refl, single.0 p, q),
          λ h.
              let same = sym (ok-injective h.1) in
              bundle.1
                (single.1 (subst IsSound same h.2), (h.3.0, h.3.1, subst (Signs h.3.0) same h.3.2)),
        )

    -- A signed receipt is reported valid exactly when its bytes are admitted under the default
    -- limits as a sound envelope, and the signature bytes parse to a bundle that signs it.
    pub verify_signed_receipt-valid_iff :
        (raw sig : List ℕ)
        → ((verify_signed_receipt bundle_from_slice raw sig).status ≡ valid) ↔ (
            (e : ReceiptEnvelope) × IsAdmitted raw default_limits e
            × IsSound e
            × ((b : SignatureBundle) × (bundle_from_slice sig ≡ ok b) × Signs b e))
    unfolding verify_signed_receipt ingest_envelope
    verify_signed_receipt-valid_iff raw sig =
        let m = ingest_envelope_with_limits raw default_limits in
        let result = signed_result-valid_iff m sig in
        (
          λ h.
              let (e, p, sound, signed) = result.0 h in
              (e, (ingest_envelope-ok_iff raw default_limits e).0 p, sound, signed),
          λ h. result.1 (h.0, (ingest_envelope-ok_iff raw default_limits h.0).1 h.1, h.2, h.3),
        )

    module _ (s : AuthoritySet) (policy : TrustPolicy) where
      trusted_result-valid_iff :
          (m : Result VerifyError ReceiptEnvelope) (sig : List ℕ)
          → ((trusted_result bundle_from_slice m sig s policy).status ≡ valid) ↔ (
              (e : ReceiptEnvelope) × (m ≡ ok e)
              × IsSound e
              × ((b : SignatureBundle) × (bundle_from_slice sig ≡ ok b)
                  × Signs b e
                  × Trusts s policy b))
      trusted_result-valid_iff (err f) sig = (λ h. absurd (invalid-ne-valid h), λ h. cc h.1)
      trusted_result-valid_iff (ok e) sig =
          let single = single-valid_iff e in
          let bundle =
            trust-valid_iff s policy e (bundle_from_slice sig) (verify_single_envelope e) in
          (
            λ h. let (p, q) = bundle.0 h in (e, refl, single.0 p, q),
            λ h.
                let same = sym (ok-injective h.1) in
                bundle.1 (
                  single.1 (subst IsSound same h.2),
                  (h.3.0, h.3.1, subst (Signs h.3.0) same h.3.2, h.3.3),
                ),
          )

      -- With an authority set and a policy, a signed receipt is reported valid exactly when its
      -- bytes are admitted under the default limits as a sound envelope, the signature bytes parse
      -- to a bundle that signs it, and the key of the bundle is trusted.
      pub verify_signed_receipt_with_trust-valid_iff :
          (raw sig : List ℕ)
          → ((verify_signed_receipt_with_trust bundle_from_slice raw sig s policy).status ≡ valid)
            ↔ ((e : ReceiptEnvelope) × IsAdmitted raw default_limits e
                × IsSound e
                × ((b : SignatureBundle) × (bundle_from_slice sig ≡ ok b)
                    × Signs b e
                    × Trusts s policy b))
      unfolding verify_signed_receipt_with_trust ingest_envelope
      verify_signed_receipt_with_trust-valid_iff raw sig =
          let m = ingest_envelope_with_limits raw default_limits in
          let result = trusted_result-valid_iff m sig in
          (
            λ h.
                let (e, p, sound, signed) = result.0 h in
                (e, (ingest_envelope-ok_iff raw default_limits e).0 p, sound, signed),
            λ h. result.1 (h.0, (ingest_envelope-ok_iff raw default_limits h.0).1 h.1, h.2, h.3),
          )
