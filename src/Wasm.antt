-- ===== src/Wasm.antt =====
-- src/wasm.rs: the bindings for WebAssembly, which return each result as a JSON text.
pub mod Canonical
use Prim.Native.String.{◌++◌}
use vertrule_verifier.Prelude.{ℕ, String, Option, none, some, List, Result, ok, err}
use vertrule_verifier.Prelude.Text.{as_bytes}
use vertrule_verifier.Json.{Value, string, array, object, cons, nil, field, end}
use vertrule_verifier.External.{External}
use vertrule_verifier.Error.{VerifyError, to_string}
use vertrule_verifier.SchemaProfile.{profile_version}
use vertrule_verifier.Identity.{generic_from_bytes, generic_to_hex_string}
use vertrule_verifier.Result.{VerificationResult}
use vertrule_verifier.Verify.{verify_receipt, verify_receipt_chain, verify_signed_receipt}
use vertrule_verifier.Support.{Packs}
use vertrule_verifier.DecisionPack.{verify_decision_pack}
use vertrule_verifier.ClosureBundle.{verify_closure_bundle}
use vertrule_verifier.Bundle.{verify_bundle}
use vertrule_verifier.Formats.{
  Formats, result_to_canon_string, bundle_to_canon_string, decision_to_canon_string,
  closure_to_canon_bytes,
}

abbrev pub static_fallback : String
static_fallback = "{\"errors\":[\"internal verifier error\"],\"status\":\"INVALID\"}"

abbrev pub verifier_version : String
verifier_version = profile_version

module _ ⦃x : External⦄ where
  open x use {Number, JcsError, json_to_string, to_canon_string_from_str}

  -- `FallbackError`, as serde writes it
  abbrev pub fallback_error : String → Value Number
  fallback_error message =
      object
        (field "errors" (array (cons (string message) nil)) (field "status" (string "INVALID") end))

  -- The match on the canonical form of the serialized error.
  abbrev pub canonical_or_static : Result JcsError String → String
  canonical_or_static (ok s) = s
  canonical_or_static (err e) = static_fallback

  abbrev pub serialized_or_static : Result String String → String
  serialized_or_static (ok json) = canonical_or_static (to_canon_string_from_str json)
  serialized_or_static (err e) = static_fallback

  unfoldable pub error_json : String → String
  error_json message = serialized_or_static (json_to_string (fallback_error message))

  -- `match result.to_canon_string()`
  abbrev pub text_or_error : Result VerifyError String → String
  text_or_error (ok s) = s
  text_or_error (err e) = error_json ("canonicalization error: " ++ to_string e)

  -- `digest_hex`
  abbrev pub digest_hex : List ℕ → String
  digest_hex input = generic_to_hex_string (generic_from_bytes input)

  -- `String::from_utf8(bytes).unwrap_or_else(..)`
  abbrev pub utf8_or_error : Option String → String
  utf8_or_error (some s) = s
  utf8_or_error none = error_json "closure bundle result was not valid UTF-8"

  -- `match result.to_canon_bytes()`; `String::from_utf8` is a parameter
  abbrev pub bytes_or_error : (List ℕ → Option String) → Result VerifyError (List ℕ) → String
  bytes_or_error from_utf8 (ok bytes) = utf8_or_error (from_utf8 bytes)
  bytes_or_error from_utf8 (err e) = error_json ("canonicalization error: " ++ to_string e)

  module _ ⦃f : Formats⦄ where
    open f use {signature_from_slice, bundle_from_slice, decision_from_slice, closure_from_slice}

    abbrev pub result_to_json : VerificationResult → String
    result_to_json r = text_or_error (result_to_canon_string r)

    unfoldable pub verify_receipt_json : String → String
    verify_receipt_json receipt_json = result_to_json (verify_receipt (as_bytes receipt_json))

    unfoldable pub verify_chain_json : String → String
    verify_chain_json chain_json = result_to_json (verify_receipt_chain (as_bytes chain_json))

    unfoldable pub verify_signed_receipt_json : String → String → String
    verify_signed_receipt_json receipt_json signature_json = result_to_json (
        verify_signed_receipt signature_from_slice (as_bytes receipt_json)
          (as_bytes signature_json))

    unfoldable pub verify_bundle_json : String → String
    verify_bundle_json bundle_json =
        text_or_error
          (bundle_to_canon_string (verify_bundle (bundle_from_slice (as_bytes bundle_json))))

    module _ ⦃p : Packs⦄ where
      unfoldable pub verify_decision_pack_json : String → String
      verify_decision_pack_json pack_json = text_or_error (
          decision_to_canon_string
            (verify_decision_pack (decision_from_slice (as_bytes pack_json))))

      module _ (from_utf8 : List ℕ → Option String) where
        unfoldable pub verify_closure_bundle_json : String → String
        verify_closure_bundle_json bundle_json = bytes_or_error from_utf8 (
            closure_to_canon_bytes
              (verify_closure_bundle (closure_from_slice (as_bytes bundle_json))))
