-- ===== src/Verify.antt =====
-- src/verify.rs: the entry points, which compose ingestion, the checks on each envelope, the chain,
-- the signature and trust into one result.
pub mod Accumulate
pub mod Receipts
pub mod Chains
pub mod Signed
pub mod Reports
pub mod Raised
use Prim.Native.String.{◌++◌}
use vertrule_verifier.Prelude.{
  ℕ, ◌+◌, Bool, true, false, ◌&&◌, not, String, Option, none, some, List, [], ◌∷◌, Result, ok, err,
  is_ok, length,
}
use vertrule_verifier.Prelude.Text.{display}
use vertrule_verifier.External.{External}
use vertrule_verifier.Error.{VerifyError, to_string}
use vertrule_verifier.Limits.{VerifierLimits}
use vertrule_verifier.Envelope.{verify_envelope_version, verify_algorithms, verify_event_hash}
use vertrule_verifier.Chain.{ChainDetail, check_chain_detail}
use vertrule_verifier.Ingestion.{
  ingest_envelope, ingest_envelope_with_limits, ingest_chain, ingest_chain_with_limits,
}
use vertrule_verifier.Signature.{SignatureBundle, check_key_id_consistency, verify_signature}
use vertrule_verifier.Trust.{
  AuthoritySet, TrustPolicy, TrustStatus, TrustValidation, evaluate_trust, status_to_string,
  trusted,
}
use vertrule_verifier.Result.{
  VerificationResult, SignatureValidation, valid_single, invalid_result, add_error,
}

module _ ⦃x : External⦄ where
  open x use {ReceiptEnvelope, logical_time}

  -- `if let Err(e) = check { result.add_error(text(e)) }`
  abbrev pub note_error :
      (VerifyError → String)
      → Result VerifyError (Unit {0})
      → VerificationResult
      → VerificationResult
  note_error text (ok _) result = result
  note_error text (err e) result = add_error result (text e)

  -- `result.digest_validation.all_hashes_match = false`, if the check failed
  abbrev mark_hashes : Result VerifyError (Unit {0}) → VerificationResult → VerificationResult
  mark_hashes (ok _) result = result
  mark_hashes (err _) result = record result {
    digest_validation = record result.digest_validation { all_hashes_match = false };
  }

  unfoldable pub verify_single_envelope : ReceiptEnvelope → VerificationResult
  verify_single_envelope envelope =
      let versioned = note_error to_string (verify_envelope_version envelope) valid_single in
      let named = note_error to_string (verify_algorithms envelope) versioned in
      let hashed = verify_event_hash envelope in
      note_error to_string hashed (mark_hashes hashed named)

  abbrev pub envelope_result : Result VerifyError ReceiptEnvelope → VerificationResult
  envelope_result (ok envelope) = verify_single_envelope envelope
  envelope_result (err e) = invalid_result (to_string e)

  unfoldable pub verify_receipt : List ℕ → VerificationResult
  verify_receipt raw_bytes = envelope_result (ingest_envelope raw_bytes)

  unfoldable pub verify_receipt_with_limits : List ℕ → VerifierLimits → VerificationResult
  verify_receipt_with_limits raw_bytes limits =
      envelope_result (ingest_envelope_with_limits raw_bytes limits)

  -- `format!("envelope {i}: {e}")`
  abbrev at_envelope : ℕ → VerifyError → String
  at_envelope i e = "envelope " ++ display i ++ ": " ++ to_string e

  -- One round of `check_per_envelope`.
  per_envelope_step : ℕ → ReceiptEnvelope → VerificationResult × Bool → VerificationResult × Bool
  per_envelope_step i env (result, all_match) =
      let versioned = note_error (at_envelope i) (verify_envelope_version env) result in
      let named = note_error (at_envelope i) (verify_algorithms env) versioned in
      let hashed = verify_event_hash env in
      (note_error (at_envelope i) hashed named, all_match && is_ok hashed)

  -- The loop of `check_per_envelope`, the first envelope of which has the index `i`.
  pub check_per_envelope :
      ℕ → List ReceiptEnvelope → VerificationResult × Bool → VerificationResult × Bool
  unfolding per_envelope_step
  check_per_envelope i [] state = state
  check_per_envelope i (env ∷ rest) state =
      check_per_envelope (i + 1) rest (per_envelope_step i env state)

  -- `for e in &detail.errors { result.add_error(e.to_string()) }`
  pub add_errors : VerificationResult → List VerifyError → VerificationResult
  add_errors result [] = result
  add_errors result (e ∷ es) = add_errors (add_error result (to_string e)) es

  abbrev last_of : ReceiptEnvelope → List ReceiptEnvelope → ReceiptEnvelope
  last_of e [] = e
  last_of e (f ∷ rest) = last_of f rest

  unfoldable pub verify_chain_envelopes : List ReceiptEnvelope → VerificationResult
  unfolding check_per_envelope add_errors
  verify_chain_envelopes [] = record valid_single {
    chain_validation = some (record { length = 0; first_logical_time = 0; last_logical_time = 0 });
  }
  verify_chain_envelopes (first ∷ rest) =
      let envelopes = first ∷ rest in
      let (checked, all_hashes_match) = check_per_envelope 0 envelopes (valid_single, true) in
      let detail = check_chain_detail envelopes in
      let result = add_errors checked detail.errors in
      record result {
        digest_validation = record {
          all_hashes_match = all_hashes_match;
          chain_integrity = detail.linkage_ok;
          ordering_valid = detail.ordering_ok;
        };
        chain_validation = some (record {
          length = length envelopes;
          first_logical_time = logical_time first;
          last_logical_time = logical_time (last_of first rest);
        });
        context_consistency = some (record { uniform_context = detail.context_uniform });
        policy_consistency = some (record {
          stable_policy = detail.policy_stable;
          transitions_detected = not detail.policy_stable;
        });
        schema_consistency = some (record { uniform_schema = detail.schema_uniform });
      }

  abbrev pub chain_result : Result VerifyError (List ReceiptEnvelope) → VerificationResult
  chain_result (ok envelopes) = verify_chain_envelopes envelopes
  chain_result (err e) = invalid_result (to_string e)

  unfoldable pub verify_receipt_chain : List ℕ → VerificationResult
  verify_receipt_chain raw_bytes = chain_result (ingest_chain raw_bytes)

  unfoldable pub verify_receipt_chain_with_limits : List ℕ → VerifierLimits → VerificationResult
  verify_receipt_chain_with_limits raw_bytes limits =
      chain_result (ingest_chain_with_limits raw_bytes limits)

  -- What `verify_signature_bundle` writes for a bundle that was parsed or not.
  abbrev signature_report : Bool → Bool → VerificationResult → VerificationResult
  signature_report valid key_id_consistent result = record result {
    signature_validation =
        some (record { present = true; valid = valid; key_id_consistent = key_id_consistent });
  }

  -- The match on the result of `verify_signature`.
  abbrev signature_outcome :
      Result VerifyError (Unit {0})
      → Bool
      → SignatureBundle
      → VerificationResult
      → VerificationResult × Option SignatureBundle
  signature_outcome (ok _) key_id_consistent bundle result =
      (signature_report true key_id_consistent result, some bundle)
  signature_outcome (err e) key_id_consistent bundle result =
      (signature_report false key_id_consistent (add_error result (to_string e)), none)

  -- `verify_signature_bundle`, after `serde_json::from_slice` of the bundle's bytes. The conversion
  -- is derived by serde.
  unfoldable pub verify_signature_bundle :
      ReceiptEnvelope
      → Result String SignatureBundle
      → VerificationResult
      → VerificationResult × Option SignatureBundle
  verify_signature_bundle envelope (err e) result =
      (signature_report false false (add_error result ("invalid signature bundle: " ++ e)), none)
  verify_signature_bundle envelope (ok bundle) result =
      signature_outcome (verify_signature envelope bundle) (check_key_id_consistency bundle) bundle
        result

  -- `if trust.status != TrustStatus::Trusted { result.add_error(..) }`
  abbrev note_trust : TrustStatus → VerificationResult → VerificationResult
  note_trust trusted result = result
  note_trust status result = add_error result ("trust: " ++ status_to_string status)

  -- The trust evaluation of a bundle whose signature passed.
  apply_trust :
      AuthoritySet → TrustPolicy → VerificationResult × Option SignatureBundle → VerificationResult
  apply_trust authority_set trust_policy (result, none) = result
  apply_trust authority_set trust_policy (result, some bundle) =
      let trust =
        evaluate_trust bundle.key_id authority_set trust_policy (some bundle.public_key_b64) in
      record (note_trust trust.status result) { trust_validation = some trust }

  module _ (bundle_from_slice : List ℕ → Result String SignatureBundle) where
    abbrev signed_state : ReceiptEnvelope → List ℕ → VerificationResult × Option SignatureBundle
    signed_state envelope sig_bytes =
        verify_signature_bundle envelope (bundle_from_slice sig_bytes)
          (verify_single_envelope envelope)

    -- The match on the ingested envelope, before and after the trust evaluation.
    abbrev signed_result : Result VerifyError ReceiptEnvelope → List ℕ → VerificationResult
    signed_result (err e) sig_bytes = invalid_result (to_string e)
    signed_result (ok envelope) sig_bytes = (signed_state envelope sig_bytes).0

    abbrev trusted_result :
        Result VerifyError ReceiptEnvelope
        → List ℕ
        → AuthoritySet
        → TrustPolicy
        → VerificationResult
    trusted_result (err e) sig_bytes authority_set trust_policy = invalid_result (to_string e)
    trusted_result (ok envelope) sig_bytes authority_set trust_policy =
        apply_trust authority_set trust_policy (signed_state envelope sig_bytes)

    unfoldable pub verify_signed_receipt : List ℕ → List ℕ → VerificationResult
    verify_signed_receipt raw_bytes sig_bytes = signed_result (ingest_envelope raw_bytes) sig_bytes

    unfoldable pub verify_signed_receipt_with_trust :
        List ℕ → List ℕ → AuthoritySet → TrustPolicy → VerificationResult
    unfolding apply_trust
    verify_signed_receipt_with_trust raw_bytes sig_bytes authority_set trust_policy =
        trusted_result (ingest_envelope raw_bytes) sig_bytes authority_set trust_policy
