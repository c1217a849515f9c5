-- ===== src/External.antt =====
-- What the verifier calls and this repository does not define, as one record of parameters:
-- the crates vertrule-schemas and vr-receipt-identity (types and the event-hash law), serde_json,
-- vr-jcs, blake3, hex, base64 and ed25519-dalek. An error of a crate that the code only formats is
-- the text that it formats to. A hash that the code feeds in pieces is the hash of the pieces joined.
use vertrule_verifier.Prelude.{ℕ, String, Bool, true, Option, List, ◌≡◌, ◌↔◌, Result}
use vertrule_verifier.Json.{Value}

-- `vertrule_schemas::EventHashProfileId`, whose two variants src/rbh.rs matches.
pub data EventHashProfileId : Type 0 where
  constitutional_envelope_v1 runtime_port_event_preimage_v1 : EventHashProfileId

pub record External : Type 1 where
  -- serde_json: numbers, and the text and typed forms of a value
  pub Number : Type 0
  pub is_f64 : Number → Bool
  pub is_u64 : Number → Bool
  pub is_i64 : Number → Bool
  pub as_u64 : Number → Option ℕ
  pub from_slice : List ℕ → Result String (Value Number)
  pub to_vec : Value Number → Result String (List ℕ)
  pub from_str : String → Result String (Value Number)
  pub json_to_string : Value Number → Result String String
  -- vertrule_schemas: digests
  pub Digest : Type 0
  pub digest_eq : Digest → Digest → Bool
  pub digest_eq_iff : (a b : Digest) → (digest_eq a b ≡ true) ↔ (a ≡ b)
  pub digest_display : Digest → String
  pub digest_debug : Digest → String
  pub to_hex : Digest → String
  pub from_array : List ℕ → Digest
  pub DefinitionError : Type 0
  pub definition_display : DefinitionError → String
  -- vertrule_schemas: versions and discriminators
  pub SchemaVersion : Type 0
  pub v1 : SchemaVersion
  pub version_eq : SchemaVersion → SchemaVersion → Bool
  pub version_eq_iff : (a b : SchemaVersion) → (version_eq a b ≡ true) ↔ (a ≡ b)
  pub version_number : SchemaVersion → ℕ
  pub expected_digest_algorithm : SchemaVersion → String
  pub expected_canonicalization : SchemaVersion → String
  pub ReceiptType : Type 0
  pub is_event : ReceiptType → Bool
  pub receipt_type_debug : ReceiptType → String
  pub BoundaryOrigin : Type 0
  pub boundary_origin_debug : BoundaryOrigin → String
  -- vertrule_schemas::ReceiptEnvelope: the type, its public fields, and its serde forms
  pub ReceiptEnvelope : Type 0
  pub envelope_version : ReceiptEnvelope → SchemaVersion
  pub receipt_type : ReceiptEnvelope → ReceiptType
  pub context_digest : ReceiptEnvelope → Digest
  pub schema_digest : ReceiptEnvelope → Digest
  pub policy_digest : ReceiptEnvelope → Digest
  pub logical_time : ReceiptEnvelope → ℕ
  pub event_hash : ReceiptEnvelope → Digest
  pub payload : ReceiptEnvelope → Value Number
  pub parent_id : ReceiptEnvelope → Option Digest
  pub boundary_origin : ReceiptEnvelope → Option BoundaryOrigin
  pub digest_algorithm : ReceiptEnvelope → Option String
  pub canonicalization : ReceiptEnvelope → Option String
  pub event_hash_profile : ReceiptEnvelope → Option EventHashProfileId
  pub envelope_from_value : Value Number → Result String ReceiptEnvelope
  pub envelope_from_slice : List ℕ → Result String ReceiptEnvelope
  pub envelope_to_value : ReceiptEnvelope → Result String (Value Number)
  -- vr_receipt_identity
  pub compute_event_hash : ReceiptEnvelope → Result String Digest
  -- vr_jcs
  pub JcsError : Type 0
  pub is_json_error : JcsError → Bool
  pub jcs_display : JcsError → String
  pub to_canon_bytes_from_slice : List ℕ → Result JcsError (List ℕ)
  pub to_canon_string_from_str : String → Result JcsError String
  pub parse_json_value_no_duplicates : List ℕ → Result JcsError (Value Number)
  pub DigestAlgorithm : Type 0
  pub algorithm_name : DigestAlgorithm → String
  pub CanonicalDigest : Type 0
  pub digest_algorithm_of : CanonicalDigest → DigestAlgorithm
  pub digest_bytes : CanonicalDigest → List ℕ
  pub DigestStrategy : Type 0
  pub blake3_untagged : DigestStrategy
  pub to_canon_digest_with : Value Number → DigestStrategy → Result JcsError CanonicalDigest
  -- blake3 and hex
  pub blake3 : List ℕ → List ℕ
  pub hex_encode : List ℕ → String
  -- base64 and ed25519-dalek
  pub decode_b64 : String → Result String (List ℕ)
  pub VerifyingKey : Type 0
  pub key_from_bytes : List ℕ → Result String VerifyingKey
  pub key_as_bytes : VerifyingKey → List ℕ
  pub ed25519_verify : VerifyingKey → List ℕ → List ℕ → Bool
