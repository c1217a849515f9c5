-- ===== src/Formats.antt =====
-- The canonical forms of the results, which src/result.rs and the modules of the bundles and packs
-- each define in the same way, over the conversions that serde derives for the public types.
use vertrule_verifier.Prelude.{ℕ, String, List, Result, ok, ◌>>=◌, map_err}
use vertrule_verifier.Json.{Value}
use vertrule_verifier.External.{External}
use vertrule_verifier.Error.{VerifyError, canon}
use vertrule_verifier.Canon.{typed_canon_bytes, typed_canon_string}
use vertrule_verifier.Signature.{SignatureBundle}
use vertrule_verifier.Trust.{AuthoritySet, TrustPolicy}
use vertrule_verifier.Result.{VerificationResult}
use vertrule_verifier.LayeredPack.Report.{LayeredPack, LayeredPackVerificationResult}
use vertrule_verifier.DecisionPack.Report.{DecisionPack, DecisionPackVerificationResult}
use vertrule_verifier.ClosureBundle.Report.{ClosureBundle, ClosureBundleVerificationResult}
use vertrule_verifier.Bundle.{ExecutionBundle, BundleVerificationResult}

module _ ⦃x : External⦄ where
  open x use {Number, Digest, blake3, from_array}

  -- What serde derives: how the inputs are read, and the value that a result is written as. (That
  -- of a signature bundle calls the hand-written conversion of `KeyId`, which is `from_hex`.)
  pub record Formats : Type 0 where
    pub signature_from_slice : List ℕ → Result String SignatureBundle
    pub bundle_from_slice : List ℕ → Result String (ExecutionBundle Number)
    pub layered_from_slice : List ℕ → Result String LayeredPack
    pub decision_from_slice : List ℕ → Result String DecisionPack
    pub closure_from_slice : List ℕ → Result String (ClosureBundle Number)
    pub authority_set_from_value : Value Number → Result String AuthoritySet
    pub trust_policy_from_value : Value Number → Result String TrustPolicy
    pub result_to_value : VerificationResult → Result String (Value Number)
    pub bundle_to_value : BundleVerificationResult → Result String (Value Number)
    pub layered_to_value : LayeredPackVerificationResult → Result String (Value Number)
    pub decision_to_value : DecisionPackVerificationResult → Result String (Value Number)
    pub closure_to_value : ClosureBundleVerificationResult → Result String (Value Number)

  abbrev pub canonical_bytes : Result String (Value Number) → Result VerifyError (List ℕ)
  canonical_bytes written = do value ← map_err canon written; typed_canon_bytes value

  abbrev pub canonical_string : Result String (Value Number) → Result VerifyError String
  canonical_string written = do value ← map_err canon written; typed_canon_string value

  module _ ⦃f : Formats⦄ where
    open f use {
      result_to_value, bundle_to_value, layered_to_value, decision_to_value, closure_to_value,
    }

    abbrev pub result_to_canon_bytes : VerificationResult → Result VerifyError (List ℕ)
    result_to_canon_bytes r = canonical_bytes (result_to_value r)

    abbrev pub result_to_canon_string : VerificationResult → Result VerifyError String
    result_to_canon_string r = canonical_string (result_to_value r)

    -- `VerificationResult::digest`
    unfoldable pub result_digest : VerificationResult → Result VerifyError Digest
    result_digest r = do canon_bytes ← result_to_canon_bytes r; ok (from_array (blake3 canon_bytes))

    abbrev pub bundle_to_canon_bytes : BundleVerificationResult → Result VerifyError (List ℕ)
    bundle_to_canon_bytes r = canonical_bytes (bundle_to_value r)

    abbrev pub bundle_to_canon_string : BundleVerificationResult → Result VerifyError String
    bundle_to_canon_string r = canonical_string (bundle_to_value r)

    abbrev pub layered_to_canon_bytes : LayeredPackVerificationResult → Result VerifyError (List ℕ)
    layered_to_canon_bytes r = canonical_bytes (layered_to_value r)

    abbrev pub layered_to_canon_string : LayeredPackVerificationResult → Result VerifyError String
    layered_to_canon_string r = canonical_string (layered_to_value r)

    abbrev pub decision_to_canon_bytes :
        DecisionPackVerificationResult → Result VerifyError (List ℕ)
    decision_to_canon_bytes r = canonical_bytes (decision_to_value r)

    abbrev pub decision_to_canon_string : DecisionPackVerificationResult → Result VerifyError String
    decision_to_canon_string r = canonical_string (decision_to_value r)

    abbrev pub closure_to_canon_bytes :
        ClosureBundleVerificationResult → Result VerifyError (List ℕ)
    closure_to_canon_bytes r = canonical_bytes (closure_to_value r)
