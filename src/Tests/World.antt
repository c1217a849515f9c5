-- ===== src/Tests/World.antt =====
-- A concrete instance of the parameters, on which the theorems are applied: digests, versions and
-- numbers are natural numbers, an event hash is the logical time plus 100, and three inputs parse.
use vertrule_verifier.Prelude.{
  ℕ, ◌+◌, Bool, true, false, String, Option, none, some, List, [], ◌∷◌, Result, ok, err, ◌==◌,
  ==_iff, str_eq, if◌then◌else◌, is_empty, not,
}
use vertrule_verifier.Json.{
  Value, Items, Fields, null, number, string, array, object, nil, cons, end, field, get_field,
  as_number,
}
use vertrule_verifier.Json
use vertrule_verifier.External.{External}

pub record Receipt : Type 0 where
  pub hash : ℕ
  pub time : ℕ
  pub parent : Option ℕ

abbrev parent_json : Option ℕ → Value ℕ
parent_json none = null
parent_json (some p) = number p

-- A receipt with every field of the profile.
abbrev pub receipt_json : Receipt → Value ℕ
receipt_json r = object (
    field "context_digest" (number 1) (
      field "envelope_version" (number 1) (
        field "event_hash" (number r.hash) (
          field "logical_time" (number r.time) (
            field "parent_id" (parent_json r.parent) (
              field "payload" null (
                field "policy_digest" (number 1) (
                  field "receipt_type" (string "event")
                    (field "schema_digest" (number 1) end)))))))))

abbrev pub first_receipt : Receipt
first_receipt = record { hash = 107; time = 7; parent = none }

abbrev pub second_receipt : Receipt
second_receipt = record { hash = 109; time = 9; parent = some 107 }

abbrev pub chain_json : Items ℕ
chain_json = cons (receipt_json first_receipt) (cons (receipt_json second_receipt) nil)

abbrev pub receipt_bytes : List ℕ
receipt_bytes = 1 ∷ []

abbrev pub chain_bytes : List ℕ
chain_bytes = 2 ∷ []

abbrev number_at : Fields ℕ → String → Option ℕ
number_at fs k = Json.◌>>=◌ (get_field fs k) as_number

abbrev or_zero : Option ℕ → ℕ
or_zero none = 0
or_zero (some n) = n

abbrev parse : List ℕ → Result String (Value ℕ)
parse bs = elim bs [
  | [] ↦ err "end of input"
  | b ∷ rest ↦
      if b == 1
      then ok (receipt_json first_receipt)
      else if b == 2
      then ok (array chain_json)
      else err "unexpected token"
]

abbrev to_receipt : Value ℕ → Result String Receipt
to_receipt (object fs) = ok (record {
  hash = or_zero (number_at fs "event_hash");
  time = or_zero (number_at fs "logical_time");
  parent = number_at fs "parent_id";
})
to_receipt _ = err "expected an object"

-- The bytes of a text of the instance: 32 for a key, 64 for a signature.
abbrev zeros_8 : List ℕ → List ℕ
zeros_8 xs = 0 ∷ 0 ∷ 0 ∷ 0 ∷ 0 ∷ 0 ∷ 0 ∷ 0 ∷ xs

abbrev zeros_32 : List ℕ → List ℕ
zeros_32 xs = zeros_8 (zeros_8 (zeros_8 (zeros_8 xs)))

abbrev from_b64 : String → Result String (List ℕ)
from_b64 s =
    if str_eq s "key"
    then ok (zeros_32 [])
    else if str_eq s "sig"
    then ok (zeros_32 (zeros_32 []))
    else err "invalid byte"

abbrev pub toy : External
toy = record {
  Number = ℕ;
  is_f64 = λ n. false;
  is_u64 = λ n. true;
  is_i64 = λ n. true;
  as_u64 = λ n. some n;
  from_slice = parse;
  to_vec = λ v. ok (1 ∷ []);
  from_str = λ s. ok (receipt_json first_receipt);
  json_to_string = λ v. ok "{}";
  Digest = ℕ;
  digest_eq = λ a b. a == b;
  digest_eq_iff = ==_iff;
  digest_display = λ d. "digest";
  digest_debug = λ d. "Digest";
  to_hex = λ d. "00";
  from_array = λ bs. 5;
  DefinitionError = String;
  definition_display = λ e. e;
  SchemaVersion = ℕ;
  v1 = 1;
  version_eq = λ a b. a == b;
  version_eq_iff = ==_iff;
  version_number = λ v. v;
  expected_digest_algorithm = λ v. "BLAKE3";
  expected_canonicalization = λ v. "JCS";
  ReceiptType = Bool;
  is_event = λ t. t;
  receipt_type_debug = λ t. "Event";
  BoundaryOrigin = ℕ;
  boundary_origin_debug = λ o. "Engine";
  ReceiptEnvelope = Receipt;
  envelope_version = λ r. 1;
  receipt_type = λ r. true;
  context_digest = λ r. 1;
  schema_digest = λ r. 1;
  policy_digest = λ r. 1;
  logical_time = λ r. r.time;
  event_hash = λ r. r.hash;
  payload = λ r. null;
  parent_id = λ r. r.parent;
  boundary_origin = λ r. none;
  digest_algorithm = λ r. some "BLAKE3";
  canonicalization = λ r. none;
  event_hash_profile = λ r. none;
  envelope_from_value = to_receipt;
  envelope_from_slice = λ bs. ok first_receipt;
  envelope_to_value = λ r. ok (receipt_json r);
  compute_event_hash = λ r. ok (r.time + 100);
  JcsError = String;
  is_json_error = λ e. false;
  jcs_display = λ e. e;
  to_canon_bytes_from_slice = λ bs. ok bs;
  to_canon_string_from_str = λ s. ok s;
  parse_json_value_no_duplicates = parse;
  DigestAlgorithm = String;
  algorithm_name = λ a. a;
  CanonicalDigest = List ℕ;
  digest_algorithm_of = λ d. "blake3-untagged";
  digest_bytes = λ d. d;
  DigestStrategy = String;
  blake3_untagged = "blake3-untagged";
  to_canon_digest_with = λ v s. ok (1 ∷ []);
  blake3 = λ bs. bs;
  hex_encode = λ bs. "000000000000000000000000";
  decode_b64 = from_b64;
  VerifyingKey = List ℕ;
  key_from_bytes = λ bs. ok bs;
  key_as_bytes = λ k. k;
  ed25519_verify = λ k m s. not (is_empty m);
}
