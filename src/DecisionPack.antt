-- ===== src/DecisionPack.antt =====
-- src/decision_pack.rs: a decision receipt with the receipts that its support set depends on.
pub mod Report
pub mod Payload
pub mod Supply
pub mod Members
pub mod Verdict
use Prim.Native.String.{◌++◌}
use mathlib.Core.List
use vertrule_verifier.Prelude.{
  ℕ, Bool, true, false, ◌&&◌, ◌||◌, not, String, Option, none, some, List, [], ◌∷◌, Result, ok, err,
  ◌>>=◌, map_err, all, any, is_empty, length, leb, ◌==◌, str_eq, if◌then◌else◌,
}
use vertrule_verifier.Prelude.Text.{as_bytes, chars}
use vertrule_verifier.Json.{Value, get, as_str, unwrap_or_default}
use vertrule_verifier.Json
use vertrule_verifier.External.{External}
use vertrule_verifier.SchemaProfile.{profile_version}
use vertrule_verifier.Result.{
  VerificationStatus, VerificationResult, valid, invalid, is_valid, invalid_result,
}
use vertrule_verifier.Verify.{verify_receipt}
use vertrule_verifier.Support.{
  SupportMember, typed_receipt_dependency, depended_on_receipt, evidence_digest, cited_link,
  selector_value, DecisionVerdict, DecisionReceiptPayload, allow, deny, conditional, no_match,
  Packs, join, read_event_hash,
}
use vertrule_verifier.LayeredPack.Report.{root_errors}
use vertrule_verifier.DecisionPack.Report.{
  expected_format, DecisionPack, holds, SupportMemberCheck, DecisionPackVerificationResult,
  verdict_kind_label, is_lower_hex_64, is_blank, invalid_pack, check, walk_receipt, SupplyState,
  note_supplied, MemberState, note_member, committed, failed,
}

module _ ⦃x : External⦄ ⦃p : Packs⦄ where
  open x use {Number, from_str}
  open p use {Role, decision_payload_kind, decision_from_value}

  unfoldable pub extract_from : Option (Value Number) → Result String (DecisionReceiptPayload Role)
  extract_from none = err "decision envelope has no payload"
  extract_from (some payload) =
      let kind = unwrap_or_default (Json.◌>>=◌ (get payload "payload_kind") as_str) in
      if not (str_eq kind decision_payload_kind)
      then err (
          "payload is not a decision payload: expected payload_kind \"" ++ decision_payload_kind
          ++ "\", got \"" ++ kind ++ "\"")
      else map_err (λ e. "malformed decision payload: " ++ e) (decision_from_value payload)

  unfoldable pub extract_decision_payload : String → Result String (DecisionReceiptPayload Role)
  unfolding extract_from
  extract_decision_payload envelope_json = do
    value ← map_err (λ e. "malformed envelope: " ++ e) (from_str envelope_json)
    extract_from (get value "payload")

  abbrev pub extract_event_hash : String → Option String
  extract_event_hash envelope_json = elim (from_str envelope_json) [
    | err _ ↦ none
    | ok value ↦ read_event_hash value
  ]

  -- The loop over the supplied receipts.
  pub index_supplied : List String → SupplyState → SupplyState
  index_supplied [] s = s
  index_supplied (supplied ∷ rest) s =
      index_supplied rest
        (note_supplied (verify_receipt (as_bytes supplied)) (extract_event_hash supplied) s)

  pub walk_member : SupportMember Role → List String → List (String × String) → SupportMemberCheck
  walk_member (depended_on_receipt event_hash) verified_hashes failed_hashes =
      walk_receipt "depended_on_receipt" event_hash verified_hashes failed_hashes
  walk_member (evidence_digest id digest) verified_hashes failed_hashes =
      if is_lower_hex_64 digest
      then check "evidence_digest" id committed none
      else check "evidence_digest" id failed (some "committed digest is not 64 lowercase hex chars")
  walk_member (cited_link id url) verified_hashes failed_hashes =
      if is_blank url
      then check "cited_link" id failed (some "committed link is empty")
      else check "cited_link" id committed none
  walk_member (selector_value key) verified_hashes failed_hashes =
      check "selector_value" key committed none
  walk_member (typed_receipt_dependency event_hash role target_schema) verified_hashes
        failed_hashes =
      walk_receipt "typed_receipt_dependency" event_hash verified_hashes failed_hashes

  -- The loop over the support set.
  pub walk_members :
      List (SupportMember Role) → List String → List (String × String) → MemberState → MemberState
  unfolding walk_member
  walk_members [] verified_hashes failed_hashes s = s
  walk_members (member ∷ rest) verified_hashes failed_hashes s =
      walk_members rest verified_hashes failed_hashes
        (note_member (walk_member member verified_hashes failed_hashes) s)

  abbrev decision_pack_result :
      DecisionPack
      → VerificationResult
      → Result String (DecisionReceiptPayload Role)
      → DecisionPackVerificationResult
  decision_pack_result pack decision_result (err e) = record {
    status = invalid;
    schema_version = profile_version;
    decision_result = decision_result;
    verdict_kind = none;
    member_checks = [];
    errors = List.◌++◌ (root_errors "decision envelope: " decision_result) (e ∷ []);
  }
  decision_pack_result pack decision_result (ok payload) =
      let supply = index_supplied pack.depended_on (record {
        verified_hashes = [];
        failed_hashes = [];
        errors = root_errors "decision envelope: " decision_result;
      }) in
      let s =
        walk_members payload.support_set supply.verified_hashes supply.failed_hashes
          (record { errors = supply.errors; member_checks = [] }) in
      let all_members_hold = all (λ c. holds c.status) s.member_checks in
      record {
        status =
            if is_valid decision_result.status && is_empty s.errors && all_members_hold
            then valid
            else invalid;
        schema_version = profile_version;
        decision_result = decision_result;
        verdict_kind = some (verdict_kind_label payload.verdict);
        member_checks = s.member_checks;
        errors = s.errors;
      }

  -- `verify_decision_pack`, after `serde_json::from_slice`. The conversion is derived by serde.
  unfoldable pub verify_decision_pack : Result String DecisionPack → DecisionPackVerificationResult
  unfolding index_supplied walk_members
  verify_decision_pack (err e) = invalid_pack ("malformed pack JSON: " ++ e)
  verify_decision_pack (ok pack) =
      if not (str_eq pack.format expected_format)
      then invalid_pack (
          "unsupported pack format: expected \"" ++ expected_format ++ "\", got \"" ++ pack.format
          ++ "\"")
      else decision_pack_result pack (verify_receipt (as_bytes pack.decision_canonical))
          (extract_decision_payload pack.decision_canonical)
