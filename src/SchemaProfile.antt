-- ===== src/SchemaProfile.antt =====
-- src/schema_profile.rs: the v1 governance profile of an envelope's JSON.
pub mod Conformance
use vertrule_verifier.Prelude.{
  String, Bool, true, false, ◌||◌, Option, none, some, List, [], ◌∷◌, Result, ok, err, ◌>>=◌, ◌>>◌,
  str_eq, if◌then◌else◌,
}
use vertrule_verifier.Json.{Value, Fields, object, keys, get_field, as_str, as_object}
use vertrule_verifier.Json
use vertrule_verifier.External.{External}
use vertrule_verifier.Error.{
  VerifyError, malformed_json, unknown_field, missing_required_field, unknown_receipt_type,
  unknown_boundary_origin,
}

abbrev pub profile_version : String
profile_version = "v1"

abbrev pub required_envelope_fields : List String
required_envelope_fields =
    "envelope_version" ∷ "receipt_type" ∷ "context_digest" ∷ "schema_digest" ∷ "policy_digest"
    ∷ "logical_time" ∷ "event_hash" ∷ "payload" ∷ []

abbrev pub optional_envelope_fields : List String
optional_envelope_fields =
    "parent_id" ∷ "boundary_origin" ∷ "digest_algorithm" ∷ "canonicalization" ∷ "event_hash_profile"
    ∷ []

abbrev pub known_receipt_types : List String
known_receipt_types =
    "event" ∷ "llm" ∷ "mri" ∷ "governance" ∷ "adapter" ∷ "projection" ∷ "training" ∷ "operation"
    ∷ "finalization" ∷ "abort" ∷ []

abbrev pub known_boundary_origins : List String
known_boundary_origins = "engine" ∷ "adapter" ∷ "numeric" ∷ "governance" ∷ "model" ∷ "training" ∷ []

-- `slice.contains(&value)`
unfoldable pub contains : List String → String → Bool
contains [] value = false
contains (x ∷ xs) value = str_eq x value || contains xs value

pub is_known_field : String → Bool
is_known_field field =
    contains required_envelope_fields field || contains optional_envelope_fields field

pub is_known_receipt_type : String → Bool
is_known_receipt_type value = contains known_receipt_types value

pub is_known_boundary_origin : String → Bool
is_known_boundary_origin value = contains known_boundary_origins value

-- `obj.contains_key(key)`
abbrev pub is_some : {A : Type 0} → Option A → Bool
is_some none = false
is_some (some a) = true

module _ ⦃x : External⦄ where
  open x use {Number}

  -- The loop over the keys.
  reject_unknown : List String → Result VerifyError (Unit {0})
  reject_unknown [] = ok tt
  reject_unknown (key ∷ rest) =
      if is_known_field key then reject_unknown rest else err (unknown_field key)

  -- The loop over the required fields.
  require_fields : Fields Number → List String → Result VerifyError (Unit {0})
  require_fields obj [] = ok tt
  require_fields obj (name ∷ rest) =
      if is_some (get_field obj name)
      then require_fields obj rest
      else err (missing_required_field name)

  -- `if let Some(value) = field { if !is_known(value) { return Err(..) } }`
  abbrev check_known :
      Option String → (String → Bool) → (String → VerifyError) → Result VerifyError (Unit {0})
  check_known none is_known unknown = ok tt
  check_known (some value) is_known unknown = if is_known value then ok tt else err (unknown value)

  abbrev string_at : Fields Number → String → Option String
  string_at obj name = Json.◌>>=◌ (get_field obj name) as_str

  validate_object : Fields Number → Result VerifyError (Unit {0})
  validate_object obj = do
    reject_unknown (keys obj)
    require_fields obj required_envelope_fields
    check_known (string_at obj "receipt_type") is_known_receipt_type unknown_receipt_type
    check_known (string_at obj "boundary_origin") is_known_boundary_origin unknown_boundary_origin

  unfoldable pub validate_envelope_schema : Value Number → Result VerifyError (Unit {0})
  unfolding validate_object reject_unknown require_fields is_known_field is_known_receipt_type
      is_known_boundary_origin contains
  validate_envelope_schema raw = elim (as_object raw) [
    | none ↦ err (malformed_json "envelope must be a JSON object")
    | some obj ↦ validate_object obj
  ]
