-- ===== src/Tests/Closures.antt =====
-- The theorems on closure bundles, applied to a bundle that is valid: the root "r" is a pack that
-- depends on the receipt "d", a provider.
use vertrule_verifier.Prelude.{
  ℕ, String, none, List, [], ◌∷◌, Result, ok, err, ◌==◌, str_eq, if◌then◌else◌,
}
use vertrule_verifier.Prelude.Map
use vertrule_verifier.Json.{Value, number, string, array, object, field, end, cons, nil}
use vertrule_verifier.External.{External}
use vertrule_verifier.Support.{SupportMember, typed_receipt_dependency, Packs}
use vertrule_verifier.Prelude.StringSet
use vertrule_verifier.SchemaProfile
use vertrule_verifier.ClosureBundle.Report.{ClosureBundle}
use vertrule_verifier.Tests.World.{toy}

-- A receipt with a text for its event hash.
abbrev pub pack_receipt : String → Value ℕ → Value ℕ
pack_receipt hash payload = object (
    field "context_digest" (number 1) (
      field "envelope_version" (number 1) (
        field "event_hash" (string hash) (
          field "logical_time" (number 7) (
            field "payload" payload (
              field "policy_digest" (number 1) (
                field "receipt_type" (string "governance")
                  (field "schema_digest" (number 1) end))))))))

abbrev pub zero_digest : String
zero_digest = "000000000000000000000000"

abbrev root_json : Value ℕ
root_json = pack_receipt "aa" (
    object (
      field "closure_manifest_digest" (string zero_digest)
        (field "payload_kind" (string "pack") (field "support_set" (string "one") end))))

abbrev pub provider_json : Value ℕ
provider_json = pack_receipt "bb" (object (field "payload_kind" (string "provider") end))

abbrev parse : List ℕ → Result String (Value ℕ)
parse bs = elim bs [
  | [] ↦ err "end of input"
  | b ∷ rest ↦ if b == b'r' then ok root_json else ok provider_json
]

abbrev toy_bundles : External
toy_bundles = record toy {
  from_slice = parse;
  from_str = λ s. if str_eq s "r" then ok root_json else ok provider_json;
  envelope_from_value = λ v. ok (record { hash = 107; time = 7; parent = none });
}

abbrev support_of : Value ℕ → List (SupportMember String)
support_of (string s) = typed_receipt_dependency "bb" "input" "provider" ∷ []
support_of _ = []

abbrev bundle_packs : Packs ⦃x = toy_bundles⦄
bundle_packs = record {
  Role = String;
  role_to_value = λ r. ok (string r);
  provider_payload_kind = "provider";
  model_payload_kind = "model";
  pack_payload_kind = "pack";
  decision_payload_kind = "decision";
  support_set_from_value = λ v. ok (support_of v);
  decision_from_value = λ v. err "no decision";
  debug_str = λ s. s;
}

abbrev valid_bundle : ClosureBundle ℕ
valid_bundle = record {
  format = "vr-layered-bundle/v1";
  root_canonical = "r";
  manifest = object (
      field "dependency_count" (number 1) (
        field "manifest_digest" (string zero_digest)
          (field "receipt_closure" (array (cons (string "bb") nil)) end)));
  receipts = "d" ∷ [];
}
