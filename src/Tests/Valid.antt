-- ===== src/Tests/Valid.antt =====
-- The theorems on layered packs, decision packs and execution bundles, applied to inputs that are
-- valid: the text "r" is a provider receipt, "v" a decision, and every other text a provider receipt
-- that both depend on.
use vertrule_verifier.Prelude.{
  ℕ, ◌≡◌, refl, String, none, some, List, [], ◌∷◌, Result, ok, err, ◌==◌, str_eq, if◌then◌else◌,
}
use vertrule_verifier.Prelude.Text.{as_bytes}
use vertrule_verifier.Json.{Value, null, string, object, field, end, get_field}
use vertrule_verifier.External.{External}
use vertrule_verifier.Result.{valid}
use vertrule_verifier.Support.{
  SupportMember, typed_receipt_dependency, depended_on_receipt, evidence_digest, cited_link,
  selector_value, allow, Packs,
}
use vertrule_verifier.Verify.{verify_receipt, verify_single_envelope}
use vertrule_verifier.Ingestion.{
  ingest_envelope, ingest_envelope_with_limits, reject_structural_floats,
}
use vertrule_verifier.Limits.{check_byte_limit, check_structure}
use vertrule_verifier.Canon.{admit_canonical_bytes, bytes_eq}
use vertrule_verifier.SchemaProfile
use vertrule_verifier.SchemaProfile.{validate_envelope_schema}
use vertrule_verifier.Envelope.{verify_event_hash, verify_algorithms, verify_envelope_version}
use vertrule_verifier.Identity.{digest_trusted_value, recompute_from_value}
use vertrule_verifier.LayeredPack
use vertrule_verifier.LayeredPack.{verify_layered_pack, walk_edge, extract_layered_payload}
use vertrule_verifier.LayeredPack.Report.{LayeredPack, classify}
use vertrule_verifier.LayeredPack.Verdict as Layered
use vertrule_verifier.LayeredPack.Verdict.{verify_layered_pack-valid_iff}
use vertrule_verifier.DecisionPack
use vertrule_verifier.DecisionPack.{verify_decision_pack, extract_decision_payload}
use vertrule_verifier.DecisionPack.Report.{DecisionPack, is_lower_hex_64}
use vertrule_verifier.DecisionPack.Verdict as Decision
use vertrule_verifier.DecisionPack.Verdict.{verify_decision_pack-valid_iff}
use vertrule_verifier.Bundle.{
  ExecutionBundle, verify_bundle, extract_payload_digests, digest_canonical_value,
}
use vertrule_verifier.Bundle.Verdict as Bundles
use vertrule_verifier.Bundle.Verdict.{verify_bundle-valid_iff}
use vertrule_verifier.Tests.Closures.{pack_receipt, provider_json, zero_digest}
use vertrule_verifier.Tests.World.{toy}

abbrev root_json : Value ℕ
root_json = pack_receipt "aa" (
    object (
      field "layer_trace_digest" (string zero_digest)
        (field "payload_kind" (string "provider") (field "support_set" (string "one") end))))

abbrev decision_json : Value ℕ
decision_json = pack_receipt "cc" (object (field "payload_kind" (string "decision") end))

abbrev parse : List ℕ → Result String (Value ℕ)
parse bs = elim bs [
  | [] ↦ err "end of input"
  | b ∷ rest ↦
      if b == b'r' then ok root_json else if b == b'v' then ok decision_json else ok provider_json
]

abbrev parse_text : String → Result String (Value ℕ)
parse_text s =
    if str_eq s "r"
    then ok root_json
    else if str_eq s "v"
    then ok decision_json
    else ok provider_json

abbrev world : External
world = record toy {
  from_slice = parse;
  from_str = parse_text;
  envelope_from_value = λ v. ok (record { hash = 107; time = 7; parent = none });
}

abbrev decision_members : List (SupportMember String)
decision_members =
    typed_receipt_dependency "bb" "input" "provider"
    ∷ depended_on_receipt "bb"
    ∷ evidence_digest "log" "00112233445566778899aabbccddeeff00112233445566778899aabbccddeeff"
    ∷ cited_link "page" " a"
    ∷ selector_value "key"
    ∷ []

abbrev packs : Packs ⦃x = world⦄
packs = record {
  Role = String;
  role_to_value = λ r. ok (string r);
  provider_payload_kind = "provider";
  model_payload_kind = "model";
  pack_payload_kind = "pack";
  decision_payload_kind = "decision";
  support_set_from_value =
      λ v. ok (typed_receipt_dependency "bb" "input" "provider" ∷ selector_value "key" ∷ []);
  decision_from_value = λ v. ok (record { verdict = allow; support_set = decision_members });
  debug_str = λ s. s;
}

abbrev layered : LayeredPack
layered = record { format = "vr-layered-pack/v1"; root_canonical = "r"; receipts = "d" ∷ [] }

layered-IsValid : (verify_layered_pack ⦃x = world⦄ ⦃p = packs⦄ (ok layered)).status ≡ valid
unfolding verify_receipt verify_single_envelope ingest_envelope ingest_envelope_with_limits
    reject_structural_floats check_byte_limit check_structure admit_canonical_bytes bytes_eq
    validate_envelope_schema verify_event_hash verify_algorithms verify_envelope_version as_bytes
    get_field SchemaProfile.contains verify_layered_pack extract_layered_payload walk_edge classify
    LayeredPack.index_supplied LayeredPack.index_all LayeredPack.extract_from
layered-IsValid = refl

verify_layered_pack-valid_iff_example :
    (pack : LayeredPack) × (◌≡◌ {A = Result String LayeredPack} (ok layered) (ok pack))
    × Layered.IsValidPack ⦃x = world⦄ ⦃p = packs⦄ pack
verify_layered_pack-valid_iff_example =
    (verify_layered_pack-valid_iff ⦃x = world⦄ ⦃p = packs⦄ (ok layered)).0 layered-IsValid

abbrev decision : DecisionPack
decision = record {
  format = "vr-decision-pack/v1";
  decision_canonical = "v";
  depended_on = "d" ∷ [];
}

decision-IsValid : (verify_decision_pack ⦃x = world⦄ ⦃p = packs⦄ (ok decision)).status ≡ valid
unfolding verify_receipt verify_single_envelope ingest_envelope ingest_envelope_with_limits
    reject_structural_floats check_byte_limit check_structure admit_canonical_bytes bytes_eq
    validate_envelope_schema verify_event_hash verify_algorithms verify_envelope_version as_bytes
    get_field SchemaProfile.contains verify_decision_pack extract_decision_payload
    DecisionPack.extract_from is_lower_hex_64
decision-IsValid = refl

verify_decision_pack-valid_iff_example :
    (pack : DecisionPack) × (◌≡◌ {A = Result String DecisionPack} (ok decision) (ok pack))
    × Decision.IsValidPack ⦃x = world⦄ ⦃p = packs⦄ pack
verify_decision_pack-valid_iff_example =
    (verify_decision_pack-valid_iff ⦃x = world⦄ ⦃p = packs⦄ (ok decision)).0 decision-IsValid

abbrev bundle : ExecutionBundle ℕ
bundle = record {
  format = "vr-execution-bundle/v1";
  envelope_canonical = "r";
  sidecars = record { layer_trace = some null; selection_policy = some null };
}

bundle-IsValid : (verify_bundle ⦃x = world⦄ (ok bundle)).status ≡ valid
unfolding verify_receipt verify_single_envelope ingest_envelope ingest_envelope_with_limits
    reject_structural_floats check_byte_limit check_structure admit_canonical_bytes bytes_eq
    validate_envelope_schema verify_event_hash verify_algorithms verify_envelope_version as_bytes
    get_field SchemaProfile.contains verify_bundle extract_payload_digests digest_canonical_value
    recompute_from_value digest_trusted_value
bundle-IsValid = refl

verify_bundle-valid_iff_example :
    (b : ExecutionBundle ℕ) × (◌≡◌ {A = Result String (ExecutionBundle ℕ)} (ok bundle) (ok b))
    × Bundles.IsValidBundle ⦃x = world⦄ b
verify_bundle-valid_iff_example = (verify_bundle-valid_iff ⦃x = world⦄ (ok bundle)).0 bundle-IsValid
