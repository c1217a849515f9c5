-- ===== src/Tests/Receipts.antt =====
-- The theorems on structure, envelopes, ingestion and chains, applied to concrete inputs.
use vertrule_verifier.Prelude.{◌≡◌, refl, ◌↔◌, true, List, [], ◌∷◌, ok, arith, All}
use vertrule_verifier.Limits.{
  VerifierLimits, default_limits, check_structure, check_byte_limit, check_chain_length,
}
use vertrule_verifier.Json.{get_field}
use vertrule_verifier.Limits.Structure.{IsWithin, check_structure-ok_iff}
use vertrule_verifier.Envelope.{
  validate_receipt_envelope_integrity, verify_event_hash, verify_algorithms,
  verify_envelope_version,
}
use vertrule_verifier.Envelope.Checks.{HasAlgorithms, HasEventHash, IsSound, integrity-ok_iff}
use vertrule_verifier.Chain.{check_chain_detail, verify_chain}
use vertrule_verifier.Chain.Spec.{IsChain}
use vertrule_verifier.Chain.Validity.{verify_chain-ok_iff, flags_iff}
use vertrule_verifier.SchemaProfile.{validate_envelope_schema, contains}
use vertrule_verifier.SchemaProfile.Conformance.{Conforms, validate_envelope_schema-ok_iff}
use vertrule_verifier.Canon.{bytes_eq, admit_canonical_bytes, admit_canonical_bytes-ok_iff}
use vertrule_verifier.Ingestion.{
  ingest_envelope_with_limits, ingest_chain_with_limits, reject_structural_floats,
}
use vertrule_verifier.Ingestion.Admission.{IsAdmitted, ingest_envelope-ok_iff}
use vertrule_verifier.Ingestion.Elements.{IsAdmittedChain, ingest_chain-ok_iff}
use vertrule_verifier.Result.{valid}
use vertrule_verifier.Verify.{
  verify_receipt_with_limits, verify_receipt_chain_with_limits, verify_chain_envelopes,
}
use vertrule_verifier.Verify.Receipts.{verify_receipt_with_limits-valid_iff}
use vertrule_verifier.Verify.Chains.{verify_receipt_chain_with_limits-valid_iff, chain_report}
use vertrule_verifier.Verify.Raised.{IsRaised, chain-raised-same}
use vertrule_verifier.Tests.World.{
  Receipt, toy, first_receipt, second_receipt, receipt_json, receipt_bytes, chain_bytes,
}

abbrev two_receipts : List Receipt
two_receipts = first_receipt ∷ second_receipt ∷ []

check_structure-ok_iff_example :
    (check_structure (receipt_json first_receipt) default_limits ≡ ok tt)
    ↔ IsWithin default_limits (receipt_json first_receipt)
check_structure-ok_iff_example = check_structure-ok_iff (receipt_json first_receipt) default_limits

integrity-ok_iff_example :
    (validate_receipt_envelope_integrity ⦃x = toy⦄ first_receipt ≡ ok tt)
    ↔ (HasAlgorithms ⦃x = toy⦄ first_receipt × HasEventHash ⦃x = toy⦄ first_receipt)
integrity-ok_iff_example = integrity-ok_iff ⦃x = toy⦄ first_receipt

-- Two receipts that are a chain.
two_receipts-IsChain : IsChain ⦃x = toy⦄ two_receipts
two_receipts-IsChain = (
  (refl, (refl, tt), ((omega arith, tt), (tt, tt))),
  (omega arith, tt),
  (refl, tt),
  (refl, tt),
  (refl, tt),
)

verify_chain-ok_iff_example : verify_chain ⦃x = toy⦄ two_receipts ≡ ok tt
verify_chain-ok_iff_example = (verify_chain-ok_iff ⦃x = toy⦄ two_receipts).1 two_receipts-IsChain

flags_iff_example : (check_chain_detail ⦃x = toy⦄ two_receipts).linkage_ok ≡ true
flags_iff_example =
    (flags_iff ⦃x = toy⦄ first_receipt (second_receipt ∷ [])).0.1 two_receipts-IsChain.0

validate_envelope_schema-ok_iff_example :
    (validate_envelope_schema ⦃x = toy⦄ (receipt_json first_receipt) ≡ ok tt)
    ↔ Conforms ⦃x = toy⦄ (receipt_json first_receipt)
validate_envelope_schema-ok_iff_example =
    validate_envelope_schema-ok_iff ⦃x = toy⦄ (receipt_json first_receipt)

admit_canonical_bytes-ok_iff_example : admit_canonical_bytes ⦃x = toy⦄ receipt_bytes ≡ ok tt
admit_canonical_bytes-ok_iff_example = (admit_canonical_bytes-ok_iff ⦃x = toy⦄ receipt_bytes).1 refl

ingest_envelope-ok_iff_example :
    (ingest_envelope_with_limits ⦃x = toy⦄ receipt_bytes default_limits ≡ ok first_receipt)
    ↔ IsAdmitted ⦃x = toy⦄ receipt_bytes default_limits first_receipt
ingest_envelope-ok_iff_example =
    ingest_envelope-ok_iff ⦃x = toy⦄ receipt_bytes default_limits first_receipt

ingest_chain-ok_iff_example :
    (ingest_chain_with_limits ⦃x = toy⦄ chain_bytes default_limits ≡ ok two_receipts)
    ↔ IsAdmittedChain ⦃x = toy⦄ chain_bytes default_limits two_receipts
ingest_chain-ok_iff_example = ingest_chain-ok_iff ⦃x = toy⦄ chain_bytes default_limits two_receipts

verify_receipt_with_limits-valid_iff_example :
    ((verify_receipt_with_limits ⦃x = toy⦄ receipt_bytes default_limits).status ≡ valid)
    ↔ ((e : Receipt) × IsAdmitted ⦃x = toy⦄ receipt_bytes default_limits e × IsSound ⦃x = toy⦄ e)
verify_receipt_with_limits-valid_iff_example =
    verify_receipt_with_limits-valid_iff ⦃x = toy⦄ receipt_bytes default_limits

verify_receipt_chain_with_limits-valid_iff_example :
    ((verify_receipt_chain_with_limits ⦃x = toy⦄ chain_bytes default_limits).status ≡ valid) ↔ (
      (es : List Receipt) × IsAdmittedChain ⦃x = toy⦄ chain_bytes default_limits es
      × All (IsSound ⦃x = toy⦄) es
      × IsChain ⦃x = toy⦄ es)
verify_receipt_chain_with_limits-valid_iff_example =
    verify_receipt_chain_with_limits-valid_iff ⦃x = toy⦄ chain_bytes default_limits

chain_report_example :
    (verify_chain_envelopes ⦃x = toy⦄ two_receipts).digest_validation.chain_integrity ≡ true
chain_report_example =
    (chain_report ⦃x = toy⦄ first_receipt (second_receipt ∷ [])).1.1 two_receipts-IsChain.0

abbrev higher_limits : VerifierLimits
higher_limits = record default_limits { max_chain_length = 100_000; max_depth = 65 }

chain-IsValid :
    (verify_receipt_chain_with_limits ⦃x = toy⦄ chain_bytes default_limits).status ≡ valid
unfolding verify_receipt_chain_with_limits verify_chain_envelopes ingest_chain_with_limits
    reject_structural_floats check_byte_limit check_chain_length check_structure
    admit_canonical_bytes bytes_eq validate_envelope_schema verify_event_hash verify_algorithms
    verify_envelope_version get_field contains check_chain_detail
chain-IsValid = refl

higher_limits-IsRaised : IsRaised default_limits higher_limits
higher_limits-IsRaised =
    let raised : IsRaised default_limits higher_limits = record {
      bytes = omega arith;
      depth = omega arith;
      node_count = omega arith;
      object_size = omega arith;
      array_size = omega arith;
      chain_length = omega arith;
    } in
    raised

chain-raised-same_example :
    verify_receipt_chain_with_limits ⦃x = toy⦄ chain_bytes higher_limits
    ≡ verify_receipt_chain_with_limits ⦃x = toy⦄ chain_bytes default_limits
chain-raised-same_example =
    chain-raised-same ⦃x = toy⦄ chain_bytes default_limits higher_limits higher_limits-IsRaised
      chain-IsValid
