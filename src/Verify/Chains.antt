-- ===== src/Verify/Chains.antt =====
-- src/verify.rs: what a valid result for a chain means.
use vertrule_verifier.Prelude.{
  ℕ, ◌≡◌, ◌↔◌, ↔_trans, refl, Bool, true, false, not, arith, ok-injective, Option, some, List, [],
  ◌∷◌, Result, ok, err, All, length, subst, sym,
}
use vertrule_verifier.External.{External}
use vertrule_verifier.Error.{VerifyError}
use vertrule_verifier.Limits.{VerifierLimits}
use vertrule_verifier.Chain.{check_chain_detail}
use vertrule_verifier.Chain.Spec.{IsChain, HasLinkage, IsIncreasing, IsUniform}
use vertrule_verifier.Chain.Validity.{errors-nil_iff, flags_iff}
use vertrule_verifier.Ingestion.{ingest_chain_with_limits}
use vertrule_verifier.Ingestion.Elements.{IsAdmittedChain, ingest_chain-ok_iff}
use vertrule_verifier.Envelope.Checks.{IsSound, HasEventHash}
use vertrule_verifier.Result.{
  ContextConsistency, PolicyConsistency, SchemaConsistency, valid, valid_single,
}
use vertrule_verifier.Verify.{
  chain_result, check_per_envelope, last_of, verify_chain_envelopes,
  verify_receipt_chain_with_limits,
}
use vertrule_verifier.Verify.Accumulate.{
  IsConsistent, per_envelope-valid_iff, per_envelope-hashes_iff, per_envelope-IsConsistent,
  add_errors-valid_iff, add_errors-IsConsistent, invalid-ne-valid, cons-ne-nil,
}

context_iff :
    (b : Bool)
    → (◌≡◌ {A = Option ContextConsistency}
        (some (record { uniform_context = b }))
        (some (record { uniform_context = true })))
      ↔ (b ≡ true)
context_iff b = (λ h. ground arith, λ h. ground arith)

schema_iff :
    (b : Bool)
    → (◌≡◌ {A = Option SchemaConsistency}
        (some (record { uniform_schema = b }))
        (some (record { uniform_schema = true })))
      ↔ (b ≡ true)
schema_iff b = (λ h. ground arith, λ h. ground arith)

policy_iff :
    (b : Bool)
    → (◌≡◌ {A = Option PolicyConsistency}
        (some (record { stable_policy = b; transitions_detected = not b }))
        (some (record { stable_policy = true; transitions_detected = false })))
      ↔ (b ≡ true)
policy_iff b = (λ h. ground arith, λ h. ground arith)

module _ ⦃x : External⦄ where
  open x use {ReceiptEnvelope, context_digest, policy_digest, schema_digest, logical_time}

  pub verify_chain_envelopes-valid_iff :
      (es : List ReceiptEnvelope)
      → ((verify_chain_envelopes es).status ≡ valid) ↔ (All IsSound es × IsChain es)
  unfolding verify_chain_envelopes
  verify_chain_envelopes-valid_iff [] = (λ h. (tt, tt), λ h. refl)
  verify_chain_envelopes-valid_iff (first ∷ rest) =
      let es = first ∷ rest in
      let (checked, all_hashes_match) = check_per_envelope 0 es (valid_single, true) in
      let noted = add_errors-valid_iff checked (check_chain_detail es).errors in
      let each = per_envelope-valid_iff 0 es valid_single true in
      let chain = errors-nil_iff es in
      (
        λ h. let (p, q) = noted.0 h in ((each.0 p).1, chain.0 q),
        λ h. noted.1 (each.1 (refl, h.0), chain.1 h.1),
      )

  chain_result-valid_iff :
      (m : Result VerifyError (List ReceiptEnvelope))
      → ((chain_result m).status ≡ valid)
        ↔ ((es : List ReceiptEnvelope) × (m ≡ ok es) × All IsSound es × IsChain es)
  chain_result-valid_iff (ok es) =
      let chain = verify_chain_envelopes-valid_iff es in
      (
        λ h. (es, refl, (chain.0 h).0, (chain.0 h).1),
        λ h.
            let same = sym (ok-injective h.1) in
            chain.1 (subst (All IsSound) same h.2, subst IsChain same h.3),
      )
  chain_result-valid_iff (err f) = (λ h. absurd (invalid-ne-valid h), λ h. cc h.1)

  -- A chain is reported valid exactly when its bytes are admitted under the limits as a list of
  -- envelopes, each of which is sound by itself, and which form a chain.
  pub verify_receipt_chain_with_limits-valid_iff :
      (raw : List ℕ) (l : VerifierLimits)
      → ((verify_receipt_chain_with_limits raw l).status ≡ valid)
        ↔ ((es : List ReceiptEnvelope) × IsAdmittedChain raw l es × All IsSound es × IsChain es)
  unfolding verify_receipt_chain_with_limits
  verify_receipt_chain_with_limits-valid_iff raw l =
      let result = chain_result-valid_iff (ingest_chain_with_limits raw l) in
      (
        λ h.
            let (es, p, sound, chain) = result.0 h in
            (es, (ingest_chain-ok_iff raw l es).0 p, sound, chain),
        λ h. result.1 (h.0, (ingest_chain-ok_iff raw l h.0).1 h.1, h.2, h.3),
      )

  -- The report on a chain that is not empty: each digest and consistency flag tells its own
  -- condition, whatever the others are, and the bounds are those of the chain.
  pub chain_report :
      (first : ReceiptEnvelope) (rest : List ReceiptEnvelope)
      → (((verify_chain_envelopes (first ∷ rest)).digest_validation.all_hashes_match ≡ true)
          ↔ All HasEventHash (first ∷ rest))
        × (((verify_chain_envelopes (first ∷ rest)).digest_validation.chain_integrity ≡ true)
            ↔ HasLinkage first rest)
        × (((verify_chain_envelopes (first ∷ rest)).digest_validation.ordering_valid ≡ true)
            ↔ IsIncreasing first rest)
        × (((verify_chain_envelopes (first ∷ rest)).context_consistency
              ≡ some (record { uniform_context = true }))
            ↔ IsUniform context_digest first rest)
        × (((verify_chain_envelopes (first ∷ rest)).policy_consistency
              ≡ some (record { stable_policy = true; transitions_detected = false }))
            ↔ IsUniform policy_digest first rest)
        × (((verify_chain_envelopes (first ∷ rest)).schema_consistency
              ≡ some (record { uniform_schema = true }))
            ↔ IsUniform schema_digest first rest)
        × ((verify_chain_envelopes (first ∷ rest)).chain_validation
            ≡ some (record {
              length = length (first ∷ rest);
              first_logical_time = logical_time first;
              last_logical_time = logical_time (last_of first rest);
            }))
  unfolding verify_chain_envelopes
  chain_report first rest =
      let hashes = per_envelope-hashes_iff 0 (first ∷ rest) valid_single true in
      let flags = flags_iff first rest in
      (
        (λ h. (hashes.0 h).1, λ h. hashes.1 (refl, h)),
        flags.0,
        flags.1,
        ↔_trans (context_iff _) flags.2,
        ↔_trans (policy_iff _) flags.3,
        ↔_trans (schema_iff _) flags.4,
        refl,
      )

  pub chain_result-IsConsistent :
      (m : Result VerifyError (List ReceiptEnvelope)) → IsConsistent (chain_result m)
  unfolding verify_chain_envelopes
  chain_result-IsConsistent (ok []) = record { agrees = (λ h. refl, λ h. refl) }
  chain_result-IsConsistent (ok (first ∷ rest)) =
      let kept = add_errors-IsConsistent _ (check_chain_detail (first ∷ rest)).errors (
        per_envelope-IsConsistent 0 (first ∷ rest) valid_single true
          (record { agrees = (λ h. refl, λ h. refl) })) in
      record { agrees = kept.agrees }
  chain_result-IsConsistent (err e) = record {
    agrees = (λ h. absurd (invalid-ne-valid h), λ h. absurd (cons-ne-nil h));
  }
