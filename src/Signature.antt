-- ===== src/Signature.antt =====
-- src/signature.rs: key identifiers, and the verification of an Ed25519 signature over a receipt.
pub mod KeyIds
pub mod Soundness
use Prim.Native.String.{◌++◌}
use mathlib.Core.List
use vertrule_verifier.Prelude.{
  ℕ, Bool, false, String, Option, none, some, List, [], ◌∷◌, Result, ok, err, ◌>>=◌, ◌>>◌, map_err,
  is_ok, length, all, not, ◌==◌, str_eq, if◌then◌else◌, take,
}
use vertrule_verifier.Prelude.Text.{chars, as_bytes, is_lower_hex, display}
use vertrule_verifier.Json.{Value, object, get_field, remove_field}
use vertrule_verifier.External.{External}
use vertrule_verifier.Canon.{typed_canon_bytes}
use vertrule_verifier.Error.{VerifyError, canon, signature_invalid, signature_data_malformed}

abbrev receipt_prefix : String
receipt_prefix = "VR-ReceiptDigest|v1|"

abbrev signature_prefix : String
signature_prefix = "VR-ReceiptSig|v1|"

abbrev pub expected_alg : String
expected_alg = "Ed25519"

abbrev pub expected_schema_version : String
expected_schema_version = "0.2"

abbrev pub expected_basis : String
expected_basis = "BLAKE3+JCS"

abbrev ed25519_pk_len : ℕ
ed25519_pk_len = 32

abbrev ed25519_sig_len : ℕ
ed25519_sig_len = 64

abbrev pub key_id_hex_len : ℕ
key_id_hex_len = 24

-- The string inside a `KeyId`.
pub record KeyId : Type 0 where
  pub as_hex : String

pub record SignatureBundle : Type 0 where
  pub alg : String
  pub key_id : KeyId
  pub public_key_b64 : String
  pub signature_b64 : String
  pub schema_version : String
  pub basis : String
  pub timestamp : String

module _ ⦃x : External⦄ where
  open x use {
    Number, Digest, from_array, to_hex, ReceiptEnvelope, envelope_to_value, blake3, hex_encode,
    decode_b64, VerifyingKey, key_from_bytes, key_as_bytes, ed25519_verify,
  }

  -- `KeyId::from_hex`
  unfoldable pub from_hex : String → Result VerifyError KeyId
  from_hex hex =
      if not (length (as_bytes hex) == key_id_hex_len)
      then err (
          signature_data_malformed (
            "key_id wrong length: expected "
            ++ display key_id_hex_len
            ++ ", got "
            ++ display (length (as_bytes hex))))
      else if not (all is_lower_hex (chars hex))
      then err (signature_data_malformed "key_id contains non-lowercase-hex characters")
      else ok (record { as_hex = hex })

  -- `map.remove("event_hash").is_none()` is the error; the rest is canonicalised.
  abbrev without_event_hash : Value Number → Result VerifyError (Value Number)
  without_event_hash (object map) = elim (get_field map "event_hash") [
    | none ↦ err (
        signature_data_malformed
          "receipt envelope missing top-level event_hash during digest construction")
    | some _ ↦ ok (object (remove_field map "event_hash"))
  ]
  without_event_hash _ = err (canon "serialized envelope is not a JSON object")

  unfoldable pub compute_receipt_digest : ReceiptEnvelope → Result VerifyError Digest
  compute_receipt_digest envelope = do
    value ← map_err canon (envelope_to_value envelope)
    rest ← without_event_hash value
    canon_bytes ← typed_canon_bytes rest
    ok (from_array (blake3 (List.◌++◌ (as_bytes receipt_prefix) canon_bytes)))

  -- One comparison of `validate_metadata`.
  abbrev expect : String → String → String → Result VerifyError (Unit {0})
  expect label expected actual =
      if str_eq actual expected
      then ok tt
      else err (
          signature_data_malformed
            ("unsupported " ++ label ++ ": expected " ++ expected ++ ", got " ++ actual))

  unfoldable pub validate_metadata : SignatureBundle → Result VerifyError (Unit {0})
  validate_metadata bundle = do
    expect "algorithm" expected_alg bundle.alg
    expect "schema version" expected_schema_version bundle.schema_version
    expect "basis" expected_basis bundle.basis

  -- `decode_b64_fixed::<N>`
  decode_b64_fixed : ℕ → String → String → Result VerifyError (List ℕ)
  decode_b64_fixed n b64 label = do
    bytes ←
        map_err (λ e. signature_data_malformed ("invalid " ++ label ++ " base64: " ++ e))
          (decode_b64 b64)
    if length bytes == n
        then ok bytes
        else err (
            signature_data_malformed (
              label
              ++ " wrong length: expected "
              ++ display n
              ++ ", got "
              ++ display (length bytes)))

  unfoldable pub decode_public_key : String → Result VerifyError VerifyingKey
  unfolding decode_b64_fixed
  decode_public_key b64 = do
    pk_array ← decode_b64_fixed ed25519_pk_len b64 "public key"
    map_err (λ e. signature_data_malformed ("invalid Ed25519 public key: " ++ e))
        (key_from_bytes pk_array)

  -- The bytes of the `Signature`.
  unfoldable pub decode_signature : String → Result VerifyError (List ℕ)
  unfolding decode_b64_fixed
  decode_signature b64 = decode_b64_fixed ed25519_sig_len b64 "signature"

  -- `hex::encode(&hash.as_bytes()[..12])`
  abbrev pub key_fingerprint : VerifyingKey → String
  key_fingerprint key = hex_encode (take 12 (blake3 (key_as_bytes key)))

  unfoldable pub validate_key_id_matches : VerifyingKey → KeyId → Result VerifyError (Unit {0})
  validate_key_id_matches key expected =
      let computed = key_fingerprint key in
      if str_eq computed expected.as_hex
      then ok tt
      else err (
          signature_invalid
            ("key_id mismatch: computed " ++ computed ++ ", declared " ++ expected.as_hex))

  -- `let Ok(key) = decoded else { return false }`, and the comparison
  abbrev consistent : Result VerifyError VerifyingKey → KeyId → Bool
  consistent (err _) expected = false
  consistent (ok key) expected = is_ok (validate_key_id_matches key expected)

  unfoldable pub check_key_id_consistency : SignatureBundle → Bool
  check_key_id_consistency bundle =
      consistent (decode_public_key bundle.public_key_b64) bundle.key_id

  abbrev pub construct_canonical_message : Digest → String → List ℕ
  construct_canonical_message receipt_digest timestamp =
      List.◌++◌ (as_bytes signature_prefix)
        (List.◌++◌ (as_bytes (to_hex receipt_digest)) (b'|' ∷ as_bytes timestamp))

  unfoldable pub verify_signature :
      ReceiptEnvelope → SignatureBundle → Result VerifyError (Unit {0})
  verify_signature envelope bundle = do
    validate_metadata bundle
    verifying_key ← decode_public_key bundle.public_key_b64
    validate_key_id_matches verifying_key bundle.key_id
    receipt_digest ← compute_receipt_digest envelope
    let canonical_message = construct_canonical_message receipt_digest bundle.timestamp
    signature ← decode_signature bundle.signature_b64
    if ed25519_verify verifying_key canonical_message signature
        then ok tt
        else err (signature_invalid "Ed25519 signature verification failed")
