-- ===== src/Ingestion.antt =====
-- src/ingestion.rs: the fail-closed way from raw bytes to envelopes.
pub mod Admission
pub mod Elements
use Prim.Native.String.{◌++◌}
use vertrule_verifier.Prelude.{
  ℕ, ◌+◌, Bool, true, false, ◌&&◌, not, String, Option, none, some, List, [], ◌∷◌, Result, ok, err,
  ◌>>=◌, ◌>>◌, map_err, length, if◌then◌else◌,
}
use vertrule_verifier.Prelude.Text.{display}
use vertrule_verifier.Json.{Value, Fields, as_object, array, items, number, get_field}
use vertrule_verifier.External.{External}
use vertrule_verifier.Error.{VerifyError, malformed_json, limit_exceeded, float_in_structural_field}
use vertrule_verifier.Limits.{
  VerifierLimits, default_limits, check_byte_limit, check_chain_length, check_structure,
}
use vertrule_verifier.Canon.{admit_canonical_bytes}
use vertrule_verifier.SchemaProfile.{validate_envelope_schema}

abbrev pub structural_integer_fields : List String
structural_integer_fields = "envelope_version" ∷ "logical_time" ∷ []

module _ ⦃x : External⦄ where
  open x use {Number, is_f64, is_u64, is_i64, ReceiptEnvelope, from_slice, envelope_from_value}

  -- `n.is_f64() && !n.is_u64() && !n.is_i64()` at a field that holds a number
  abbrev is_float_field : Option (Value Number) → Bool
  is_float_field (some (number n)) = is_f64 n && not (is_u64 n) && not (is_i64 n)
  is_float_field _ = false

  abbrev float_at : Fields Number → String → Bool
  float_at obj name = is_float_field (get_field obj name)

  -- The loop over the structural fields.
  reject_floats : Fields Number → List String → Result VerifyError (Unit {0})
  reject_floats obj [] = ok tt
  reject_floats obj (name ∷ rest) =
      if not (float_at obj name)
      then reject_floats obj rest
      else err (float_in_structural_field name)

  unfoldable pub reject_structural_floats : Value Number → Result VerifyError (Unit {0})
  unfolding reject_floats
  reject_structural_floats value = elim (as_object value) [
    | none ↦ ok tt
    | some obj ↦ reject_floats obj structural_integer_fields
  ]

  -- What both entry points do first: the byte limit, canonical admission, the parse, and the limits
  -- on the parsed value.
  unfoldable pub admit_value : List ℕ → VerifierLimits → Result VerifyError (Value Number)
  admit_value raw_bytes limits = do
    map_err limit_exceeded (check_byte_limit raw_bytes limits)
    admit_canonical_bytes raw_bytes
    value ← map_err malformed_json (from_slice raw_bytes)
    map_err limit_exceeded (check_structure value limits)
    ok value

  unfoldable pub ingest_envelope_with_limits :
      List ℕ → VerifierLimits → Result VerifyError ReceiptEnvelope
  unfolding admit_value
  ingest_envelope_with_limits raw_bytes limits = do
    value ← admit_value raw_bytes limits
    validate_envelope_schema value
    reject_structural_floats value
    map_err malformed_json (envelope_from_value value)

  unfoldable pub ingest_envelope : List ℕ → Result VerifyError ReceiptEnvelope
  ingest_envelope raw_bytes = ingest_envelope_with_limits raw_bytes default_limits

  -- `format!("element {i}: {e}")`
  abbrev element_error : ℕ → String → VerifyError
  element_error i e = malformed_json ("element " ++ display i ++ ": " ++ e)

  ingest_element : ℕ → Value Number → Result VerifyError ReceiptEnvelope
  ingest_element i element = do
    validate_envelope_schema element
    reject_structural_floats element
    map_err (element_error i) (envelope_from_value element)

  -- The loop over the elements, the first of which has the index `i`.
  pub ingest_elements : ℕ → List (Value Number) → Result VerifyError (List ReceiptEnvelope)
  unfolding ingest_element
  ingest_elements i [] = ok []
  ingest_elements i (element ∷ rest) = do
    envelope ← ingest_element i element
    envelopes ← ingest_elements (i + 1) rest
    ok (envelope ∷ envelopes)

  ingest_array : VerifierLimits → List (Value Number) → Result VerifyError (List ReceiptEnvelope)
  unfolding ingest_elements
  ingest_array limits [] = ok []
  ingest_array limits (element ∷ rest) = do
    map_err limit_exceeded (check_chain_length (length (element ∷ rest)) limits)
    ingest_elements 0 (element ∷ rest)

  -- `let Value::Array(elements) = array else { .. }`, and what follows it
  abbrev chain_of : VerifierLimits → Value Number → Result VerifyError (List ReceiptEnvelope)
  chain_of limits (array elements) = ingest_array limits (items elements)
  chain_of limits _ = err (malformed_json "chain must be a JSON array")

  unfoldable pub ingest_chain_with_limits :
      List ℕ → VerifierLimits → Result VerifyError (List ReceiptEnvelope)
  unfolding admit_value ingest_array
  ingest_chain_with_limits raw_bytes limits = do
    value ← admit_value raw_bytes limits
    chain_of limits value

  unfoldable pub ingest_chain : List ℕ → Result VerifyError (List ReceiptEnvelope)
  ingest_chain raw_bytes = ingest_chain_with_limits raw_bytes default_limits
