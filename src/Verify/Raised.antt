-- ===== src/Verify/Raised.antt =====
-- src/limits.rs and src/verify.rs: larger limits do not change what is said of a valid input.
use vertrule_verifier.Prelude.{ℕ, ◌≤◌, ◌≡◌, refl, List, ok, arith}
use vertrule_verifier.Json.{Value, Items, Fields, array, object, nil, cons, end, field}
use vertrule_verifier.External.{External}
use vertrule_verifier.Limits.{VerifierLimits}
use vertrule_verifier.Limits.Structure.{IsSized, IsSizedItems, IsSizedFields, IsWithin}
use vertrule_verifier.Ingestion.{ingest_envelope_with_limits, ingest_chain_with_limits}
use vertrule_verifier.Ingestion.Admission.{AdmitsValue, ingest_envelope-ok_iff}
use vertrule_verifier.Ingestion.Elements.{ingest_chain-ok_iff}
use vertrule_verifier.Result.{valid}
use vertrule_verifier.Verify.{verify_receipt_with_limits, verify_receipt_chain_with_limits}
use vertrule_verifier.Verify.Receipts.{verify_receipt_with_limits-valid_iff}
use vertrule_verifier.Verify.Chains.{verify_receipt_chain_with_limits-valid_iff}

-- Each limit is at most the other's.
pub record IsRaised (low high : VerifierLimits) : Type 0 where
  pub bytes : low.max_bytes ≤ high.max_bytes
  pub depth : low.max_depth ≤ high.max_depth
  pub node_count : low.max_node_count ≤ high.max_node_count
  pub object_size : low.max_object_size ≤ high.max_object_size
  pub array_size : low.max_array_size ≤ high.max_array_size
  pub chain_length : low.max_chain_length ≤ high.max_chain_length

module _ (low high : VerifierLimits) (raised : IsRaised low high) where
  mutual
    unfolding IsSized IsSizedItems IsSizedFields

    IsSized-raised : {N : Type 0} (v : Value N) → IsSized low v → IsSized high v
    IsSized-raised (object fs) h =
        (omega (arith, h.0, raised.object_size), IsSizedFields-raised fs h.1)
    IsSized-raised (array xs) h =
        (omega (arith, h.0, raised.array_size), IsSizedItems-raised xs h.1)
    IsSized-raised v h = tt

    IsSizedItems-raised : {N : Type 0} (xs : Items N) → IsSizedItems low xs → IsSizedItems high xs
    IsSizedItems-raised nil h = tt
    IsSizedItems-raised (cons v vs) h = (IsSized-raised v h.0, IsSizedItems-raised vs h.1)

    IsSizedFields-raised :
        {N : Type 0} (fs : Fields N) → IsSizedFields low fs → IsSizedFields high fs
    IsSizedFields-raised end h = tt
    IsSizedFields-raised (field k v fs) h = (IsSized-raised v h.0, IsSizedFields-raised fs h.1)

  IsWithin-raised : {N : Type 0} (v : Value N) → IsWithin low v → IsWithin high v
  IsWithin-raised v (deep, many, sized) = (
    omega (arith, deep, raised.depth),
    omega (arith, many, raised.node_count),
    IsSized-raised v sized,
  )

  module _ ⦃x : External⦄ where
    open x use {Number, ReceiptEnvelope}

    AdmitsValue-raised :
        (raw : List ℕ) (v : Value Number) → AdmitsValue raw low v → AdmitsValue raw high v
    AdmitsValue-raised raw v (short, canonical, parsed, within) =
        (omega (arith, short, raised.bytes), canonical, parsed, IsWithin-raised v within)

    receipt-raised :
        (raw : List ℕ) (e : ReceiptEnvelope)
        → ingest_envelope_with_limits raw low ≡ ok e
        → ingest_envelope_with_limits raw high ≡ ok e
    receipt-raised raw e h =
        let (v, admitted, envelope) = (ingest_envelope-ok_iff raw low e).0 h in
        (ingest_envelope-ok_iff raw high e).1 (v, AdmitsValue-raised raw v admitted, envelope)

    chain-raised :
        (raw : List ℕ) (es : List ReceiptEnvelope)
        → ingest_chain_with_limits raw low ≡ ok es
        → ingest_chain_with_limits raw high ≡ ok es
    chain-raised raw es h =
        let (vs, admitted, short, elements) = (ingest_chain-ok_iff raw low es).0 h in
        (ingest_chain-ok_iff raw high es).1 (
          vs,
          AdmitsValue-raised raw (array vs) admitted,
          omega (arith, short, raised.chain_length),
          elements,
        )

-- A receipt that is reported valid has the same report under raised limits.
pub receipt-raised-same :
    ⦃x : External⦄ (raw : List ℕ) (low high : VerifierLimits)
    → IsRaised low high
    → (verify_receipt_with_limits raw low).status ≡ valid
    → verify_receipt_with_limits raw high ≡ verify_receipt_with_limits raw low
unfolding verify_receipt_with_limits
receipt-raised-same raw low high raised h =
    let (e, admitted, sound) = (verify_receipt_with_limits-valid_iff raw low).0 h in
    let there = (ingest_envelope-ok_iff raw low e).1 admitted in
    rw (there, receipt-raised low high raised raw e there) refl

-- A chain that is reported valid under some limits has the same report, with every flag and every
-- digest of it, under limits of which each is at least as large.
pub chain-raised-same :
    ⦃x : External⦄ (raw : List ℕ) (low high : VerifierLimits)
    → IsRaised low high
    → (verify_receipt_chain_with_limits raw low).status ≡ valid
    → verify_receipt_chain_with_limits raw high ≡ verify_receipt_chain_with_limits raw low
unfolding verify_receipt_chain_with_limits
chain-raised-same raw low high raised h =
    let (es, admitted, sound, chain) = (verify_receipt_chain_with_limits-valid_iff raw low).0 h in
    let there = (ingest_chain-ok_iff raw low es).1 admitted in
    rw (there, chain-raised low high raised raw es there) refl
