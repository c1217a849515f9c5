-- ===== src/Rbh.antt =====
-- src/rbh.rs: the verification of an external receipt at the host boundary, and of a projection
-- against the receipt that it cites.
pub mod Receipts
pub mod Projection
use Prim.Native.String.{◌++◌}
use vertrule_verifier.Prelude.{
  ℕ, Bool, true, false, ◌&&◌, not, String, Option, none, some, List, [], ◌∷◌, Result, ok, err,
  ◌>>=◌, ◌>>◌, map_err, ◌==◌, str_eq, if◌then◌else◌,
}
use vertrule_verifier.Prelude.Text.{display, chars}
use vertrule_verifier.Json.{Value, get, as_str, unwrap_or_default}
use vertrule_verifier.Json
use vertrule_verifier.External.{
  External, EventHashProfileId, constitutional_envelope_v1, runtime_port_event_preimage_v1,
}
use vertrule_verifier.SchemaProfile.{is_some}

pub data ReceiptVerifyError : Type 0 where
  parse_error : String → ReceiptVerifyError
  unsupported_version : ℕ → ReceiptVerifyError
  event_hash_mismatch : (expected actual : String) → ReceiptVerifyError
  event_hash_law_ambiguous : (receipt_type : String) → ReceiptVerifyError
  profile_not_envelope_verifiable : (profile : String) → ReceiptVerifyError
  commitment_error : String → ReceiptVerifyError
  non_canonical_decode_step : (schema : String) → ReceiptVerifyError
  projection_missing_source_binding : (field : String) → ReceiptVerifyError
  projection_source_mismatch : (field expected actual : String) → ReceiptVerifyError

-- The `#[error]` texts.
unfoldable pub to_string : ReceiptVerifyError → String
to_string (parse_error e) = "receipt parse error: " ++ e
to_string (unsupported_version v) = "unsupported envelope version: " ++ display v
to_string (event_hash_mismatch expected actual) =
    "event hash mismatch: expected " ++ expected ++ ", actual " ++ actual
to_string (event_hash_law_ambiguous receipt_type) =
    "event_hash law ambiguous: receipt_type " ++ receipt_type
    ++ " is multi-law and declares no event_hash_profile"
to_string (profile_not_envelope_verifiable profile) =
    "event_hash profile " ++ profile ++ " is not verifiable by envelope-only RBH"
to_string (commitment_error e) = "envelope commitment failed: " ++ e
to_string (non_canonical_decode_step schema) =
    "non-canonical decode-step schema: " ++ schema ++ " (only @0.2 is a canonical decode claim)"
to_string (projection_missing_source_binding field) = "projection missing source binding: " ++ field
to_string (projection_source_mismatch field expected actual) =
    "projection source mismatch on " ++ field ++ ": expected " ++ expected ++ ", actual " ++ actual

pub data EventHashLaw : Type 0 where
  envelope_minus runtime_port_preimage : EventHashLaw

abbrev pub canonical_decode_step_schema : String
canonical_decode_step_schema = "vr.operator_stream.decode_step@0.2"

abbrev pub decode_step_schema_prefix : String
decode_step_schema_prefix = "vr.operator_stream.decode_step@"

abbrev has_prefix : List ℕ → List ℕ → Bool
has_prefix [] text = true
has_prefix (p ∷ ps) [] = false
has_prefix (p ∷ ps) (c ∷ cs) = (p == c) && has_prefix ps cs

-- `text.starts_with(prefix)`
unfoldable pub starts_with : String → String → Bool
starts_with text prefix = has_prefix (chars prefix) (chars text)

abbrev pub projection_source_fields : List String
projection_source_fields =
    "source_receipt_type" ∷ "source_schema_version" ∷ "source_event_hash" ∷ "projection_law_id"
    ∷ "omitted_evidence_classes" ∷ []

module _ ⦃x : External⦄ where
  open x use {
    Number, Digest, ReceiptType, ReceiptEnvelope, BoundaryOrigin, from_slice, envelope_from_slice,
    compute_event_hash, digest_eq, to_hex, version_eq, version_number, v1, envelope_version,
    receipt_type, is_event, receipt_type_debug, context_digest, schema_digest, policy_digest,
    logical_time, event_hash, payload, boundary_origin, boundary_origin_debug, event_hash_profile,
  }

  -- `vertrule_schemas::VerifiedReceiptMetadata` and its constructor.
  pub record Metadata : Type 1 where
    pub VerifiedReceiptMetadata : Type 0
    pub new :
        (context_hex policy_hex schema_hex event_hex receipt_type : String) (logical_time : ℕ)
        (boundary_origin : Option String) (payload : Value Number)
        → VerifiedReceiptMetadata
    -- `serde_json::to_vec`
    pub metadata_to_vec : VerifiedReceiptMetadata → Result String (List ℕ)

  unfoldable pub verify_envelope_version : ReceiptEnvelope → Result ReceiptVerifyError (Unit {0})
  verify_envelope_version envelope =
      if version_eq (envelope_version envelope) v1
      then ok tt
      else err (unsupported_version (version_number (envelope_version envelope)))

  abbrev is_multi_law : ReceiptType → Bool
  is_multi_law receipt_type = is_event receipt_type

  -- The match of `resolve_profile` on the profile, at a receipt type.
  abbrev pub law_of :
      Option EventHashProfileId → ReceiptType → Result ReceiptVerifyError EventHashLaw
  law_of (some constitutional_envelope_v1) receipt_type = ok envelope_minus
  law_of (some runtime_port_event_preimage_v1) receipt_type = ok runtime_port_preimage
  law_of none receipt_type =
      if is_multi_law receipt_type
      then err (event_hash_law_ambiguous (receipt_type_debug receipt_type))
      else ok envelope_minus

  abbrev pub resolve_profile : ReceiptEnvelope → Result ReceiptVerifyError EventHashLaw
  resolve_profile envelope = law_of (event_hash_profile envelope) (receipt_type envelope)

  abbrev pub same_hash : ReceiptEnvelope → Digest → Result ReceiptVerifyError (Unit {0})
  same_hash envelope recomputed =
      if digest_eq recomputed (event_hash envelope)
      then ok tt
      else err (event_hash_mismatch (to_hex (event_hash envelope)) (to_hex recomputed))

  -- The match of `verify_event_hash` on the law.
  abbrev pub verify_under : ReceiptEnvelope → EventHashLaw → Result ReceiptVerifyError (Unit {0})
  verify_under envelope envelope_minus = do
    recomputed ← map_err commitment_error (compute_event_hash envelope)
    same_hash envelope recomputed
  verify_under envelope runtime_port_preimage =
      err (profile_not_envelope_verifiable "runtime_port_event_preimage_v1")

  unfoldable pub verify_event_hash : ReceiptEnvelope → Result ReceiptVerifyError (Unit {0})
  verify_event_hash envelope = do law ← resolve_profile envelope; verify_under envelope law

  abbrev pub text_at : Value Number → String → Option String
  text_at value key = Json.◌>>=◌ (get value key) as_str

  -- The test on a schema that the payload declares.
  abbrev pub check_schema : Option String → Result ReceiptVerifyError (Unit {0})
  check_schema none = ok tt
  check_schema (some schema) =
      if not (
        starts_with schema decode_step_schema_prefix
        && not (str_eq schema canonical_decode_step_schema))
      then ok tt
      else err (non_canonical_decode_step schema)

  unfoldable pub verify_decode_step_schema : ReceiptEnvelope → Result ReceiptVerifyError (Unit {0})
  verify_decode_step_schema envelope = check_schema (text_at (payload envelope) "schema")

  -- `field.and_then(Value::as_str).unwrap_or_default()`
  abbrev pub text_or_empty : Option (Value Number) → String
  text_or_empty field = unwrap_or_default (Json.◌>>=◌ field as_str)

  unfoldable pub assert_projection_bind :
      Value Number → String → Option (Value Number) → Result ReceiptVerifyError (Unit {0})
  assert_projection_bind projection field expected =
      if str_eq (text_or_empty (get projection field)) (text_or_empty expected)
      then ok tt
      else err (
          projection_source_mismatch field (text_or_empty expected)
            (text_or_empty (get projection field)))

  -- The loop over the required fields of a projection.
  unfoldable pub require_bindings :
      Value Number → List String → Result ReceiptVerifyError (Unit {0})
  require_bindings projection [] = ok tt
  require_bindings projection (field ∷ rest) =
      if is_some (get projection field)
      then require_bindings projection rest
      else err (projection_missing_source_binding field)

  -- `envelope.get("payload").and_then(|p| p.get("schema"))`
  abbrev pub cited_schema : Value Number → Option (Value Number)
  cited_schema envelope = Json.◌>>=◌ (get envelope "payload") (λ p. get p "schema")

  -- What `verify_projection_source` checks once both inputs are parsed.
  unfoldable pub check_projection :
      Value Number → Value Number → Result ReceiptVerifyError (Unit {0})
  check_projection projection envelope = do
    require_bindings projection projection_source_fields
    assert_projection_bind projection "source_receipt_type" (get envelope "receipt_type")
    assert_projection_bind projection "source_schema_version" (cited_schema envelope)
    assert_projection_bind projection "source_event_hash" (get envelope "event_hash")

  abbrev origin_text : Option BoundaryOrigin → Option String
  origin_text none = none
  origin_text (some origin) = some (boundary_origin_debug origin)

  module _ ⦃m : Metadata⦄ where
    open m use {VerifiedReceiptMetadata, new}

    abbrev pub metadata_of : ReceiptEnvelope → VerifiedReceiptMetadata
    metadata_of envelope =
        new (to_hex (context_digest envelope)) (to_hex (policy_digest envelope))
          (to_hex (schema_digest envelope)) (to_hex (event_hash envelope))
          (receipt_type_debug (receipt_type envelope)) (logical_time envelope)
          (origin_text (boundary_origin envelope)) (payload envelope)

    unfoldable pub verify_external_receipt :
        List ℕ → Result ReceiptVerifyError VerifiedReceiptMetadata
    verify_external_receipt receipt_bytes = do
      envelope ← map_err parse_error (envelope_from_slice receipt_bytes)
      verify_envelope_version envelope
      verify_event_hash envelope
      verify_decode_step_schema envelope
      ok (metadata_of envelope)

    unfoldable pub verify_projection_source :
        List ℕ → List ℕ → Result ReceiptVerifyError VerifiedReceiptMetadata
    verify_projection_source projection_bytes canonical_envelope_bytes = do
      meta ← verify_external_receipt canonical_envelope_bytes
      envelope ← map_err parse_error (from_slice canonical_envelope_bytes)
      projection ← map_err parse_error (from_slice projection_bytes)
      check_projection projection envelope
      ok meta
