-- ===== src/Bundle.antt =====
-- src/bundle.rs: an execution bundle, which is a canonical receipt envelope with sidecar artifacts
-- whose digests the payload of the envelope declares.
pub mod Sidecars
pub mod Verdict
use Prim.Native.String.{◌++◌}
use mathlib.Core.List
use vertrule_verifier.Prelude.{
  Bool, true, false, ◌&&◌, not, String, Option, none, some, List, [], ◌∷◌, Result, ok, err, ◌>>=◌,
  map, all, is_empty, str_eq, if◌then◌else◌,
}
use vertrule_verifier.Prelude.Text.{as_bytes}
use vertrule_verifier.Json.{Value, null, get, as_str}
use vertrule_verifier.Json
use vertrule_verifier.External.{External}
use vertrule_verifier.Error.{VerifyError}
use vertrule_verifier.SchemaProfile.{profile_version}
use vertrule_verifier.Result.{
  VerificationStatus, VerificationResult, valid, invalid, is_valid, invalid_result,
}
use vertrule_verifier.Verify.{verify_receipt}
use vertrule_verifier.Identity.{SidecarDigest, recompute_from_value, sidecar_to_hex_string}

abbrev pub expected_format : String
expected_format = "vr-execution-bundle/v1"

pub record BundleSidecars (N : Type 0) : Type 0 where
  pub layer_trace : Option (Value N)
  pub selection_policy : Option (Value N)

pub record ExecutionBundle (N : Type 0) : Type 0 where
  pub format : String
  pub envelope_canonical : String
  pub sidecars : BundleSidecars N

pub record SidecarDigestCheck : Type 0 where
  pub name : String
  pub expected : String
  pub computed : String
  pub matches : Bool

pub record BundleVerificationResult : Type 0 where
  pub status : VerificationStatus
  pub schema_version : String
  pub envelope_result : VerificationResult
  pub sidecar_checks : List SidecarDigestCheck
  pub errors : List String

-- The digests that the payload declares.
pub record PayloadDigests : Type 0 where
  pub layer_trace_digest : Option String
  pub selection_policy_digest : Option String

-- `invalid(error)`
abbrev pub invalid_bundle : String → BundleVerificationResult
invalid_bundle error = record {
  status = invalid;
  schema_version = profile_version;
  envelope_result = invalid_result "bundle-level error";
  sidecar_checks = [];
  errors = error ∷ [];
}

-- `if envelope_result.status != Valid { for e in &envelope_result.errors { .. } }`
abbrev pub envelope_errors : VerificationResult → List String
envelope_errors r = if is_valid r.status then [] else map (λ e. "envelope: " ++ e) r.errors

-- What a check pushes: nothing if the digests match.
abbrev pub check_errors : SidecarDigestCheck → List String
check_errors c =
    if c.matches
    then []
    else ("sidecar " ++ c.name ++ ": digest mismatch (expected " ++ c.expected ++ ", computed "
        ++ c.computed ++ ")")
      ∷ []

-- The errors of both checks, in their order.
abbrev pub checks_errors : List SidecarDigestCheck → List String
checks_errors [] = []
checks_errors (c ∷ cs) = List.◌++◌ (check_errors c) (checks_errors cs)

module _ ⦃x : External⦄ where
  open x use {Number, from_str}

  -- `value[key]`
  abbrev pub index : Value Number → String → Value Number
  index value key = elim (get value key) [ none ↦ null | some v ↦ v ]

  -- `serde_json::from_str(..).unwrap_or(Value::Null)`
  abbrev pub value_or_null : Result String (Value Number) → Value Number
  value_or_null (ok v) = v
  value_or_null (err e) = null

  unfoldable pub extract_payload_digests : String → PayloadDigests
  extract_payload_digests envelope_json =
      let payload = index (value_or_null (from_str envelope_json)) "payload" in
      record {
        layer_trace_digest = as_str (index payload "layer_trace_digest");
        selection_policy_digest = as_str (index payload "selection_policy_digest");
      }

  unfoldable pub digest_canonical_value : Value Number → Result VerifyError String
  digest_canonical_value value = do
    digest ← recompute_from_value value
    ok (sidecar_to_hex_string digest)

  -- `digest_canonical_value(value).unwrap_or_default()`
  abbrev pub digest_or_empty : Result VerifyError String → String
  digest_or_empty (ok d) = d
  digest_or_empty (err e) = ""

  abbrev pub check_sidecar : String → String → Value Number → SidecarDigestCheck
  check_sidecar name expected value =
      let computed = digest_or_empty (digest_canonical_value value) in
      record {
        name = name;
        expected = expected;
        computed = computed;
        matches = str_eq computed expected;
      }

  -- `if let Some(sidecar) = .. { if let Some(expected) = .. { .. } }`: the check that is made
  abbrev pub sidecar_check :
      String → Option String → Option (Value Number) → List SidecarDigestCheck
  sidecar_check name (some expected) (some value) = check_sidecar name expected value ∷ []
  sidecar_check name _ _ = []

  -- The checks of both sidecars.
  abbrev pub all_checks : PayloadDigests → BundleSidecars Number → List SidecarDigestCheck
  all_checks digests sidecars =
      List.◌++◌ (sidecar_check "layer_trace" digests.layer_trace_digest sidecars.layer_trace)
        (sidecar_check "selection_policy" digests.selection_policy_digest sidecars.selection_policy)

  -- `verify_bundle`, once the format is the expected one.
  abbrev pub bundle_result : ExecutionBundle Number → BundleVerificationResult
  bundle_result bundle =
      let envelope_result = verify_receipt (as_bytes bundle.envelope_canonical) in
      let checks = all_checks (extract_payload_digests bundle.envelope_canonical) bundle.sidecars in
      let errors = List.◌++◌ (envelope_errors envelope_result) (checks_errors checks) in
      record {
        status =
            if is_valid envelope_result.status && is_empty errors && all (λ c. c.matches) checks
            then valid
            else invalid;
        schema_version = profile_version;
        envelope_result = envelope_result;
        sidecar_checks = checks;
        errors = errors;
      }

  -- `verify_bundle`, after `serde_json::from_slice`. The conversion is derived by serde.
  unfoldable pub verify_bundle : Result String (ExecutionBundle Number) → BundleVerificationResult
  verify_bundle (err e) = invalid_bundle ("malformed bundle JSON: " ++ e)
  verify_bundle (ok bundle) =
      if not (str_eq bundle.format expected_format)
      then invalid_bundle (
          "unsupported bundle format: expected \"" ++ expected_format ++ "\", got \""
          ++ bundle.format ++ "\"")
      else bundle_result bundle
