-- ===== src/LayeredPack.antt =====
-- src/layered_pack.rs: a root receipt of the layered family with the receipts that it depends on.
pub mod Report
pub mod Edges
pub mod Supply
pub mod Root
pub mod Verdict
use Prim.Native.String.{◌++◌}
use mathlib.Core.List
use vertrule_verifier.Prelude.{
  ℕ, Bool, true, false, ◌&&◌, not, String, Option, none, some, List, [], ◌∷◌, Result, ok, err,
  ◌>>=◌, map_err, map, all, is_empty, str_eq, if◌then◌else◌,
}
use vertrule_verifier.Prelude.Text.{as_bytes}
use vertrule_verifier.Json.{Value, get, as_str, unwrap_or_default}
use vertrule_verifier.Json
use vertrule_verifier.External.{External}
use vertrule_verifier.SchemaProfile.{profile_version, contains}
use vertrule_verifier.Result.{
  VerificationStatus, VerificationResult, valid, invalid, is_valid, invalid_result,
}
use vertrule_verifier.Verify.{verify_receipt}
use vertrule_verifier.Support.{
  SupportMember, typed_receipt_dependency, depended_on_receipt, Packs, join, read_event_hash,
  read_payload_kind, role_label,
}
use vertrule_verifier.LayeredPack.Report.{
  expected_format, LayeredPack, is_resolved, EdgeCheck, LayeredPackVerificationResult,
  SuppliedReceipt, find_supplied, classify, invalid_pack, EdgeState, note_edge, root_errors,
  untyped_edge,
}

module _ ⦃x : External⦄ ⦃p : Packs⦄ where
  open x use {Number, from_str}
  open p use {Role, provider_payload_kind, model_payload_kind, support_set_from_value, debug_str}

  abbrev pub layered_kinds : List String
  layered_kinds = provider_payload_kind ∷ model_payload_kind ∷ []

  -- `support_set.map_or_else(|| Ok(Vec::new()), serde_json::from_value)`
  abbrev pub support_set_of : Option (Value Number) → Result String (List (SupportMember Role))
  support_set_of none = ok []
  support_set_of (some v) = support_set_from_value v

  unfoldable pub extract_from :
      Option (Value Number) → Result String (String × List (SupportMember Role))
  extract_from none = err "layered root envelope has no payload"
  extract_from (some payload) =
      let kind = unwrap_or_default (Json.◌>>=◌ (get payload "payload_kind") as_str) in
      if not (contains layered_kinds kind)
      then err (
          "root is not a layered-family receipt: payload_kind \""
          ++ kind
          ++ "\" is not one of ["
          ++ debug_str provider_payload_kind
          ++ ", "
          ++ debug_str model_payload_kind
          ++ "]")
      else do
        support_set ←
            map_err (λ e. "malformed layered support_set: " ++ e)
              (support_set_of (get payload "support_set"))
        ok (kind, support_set)

  unfoldable pub extract_layered_payload :
      String → Result String (String × List (SupportMember Role))
  unfolding extract_from
  extract_layered_payload envelope_json = do
    value ← map_err (λ e. "malformed envelope: " ++ e) (from_str envelope_json)
    extract_from (get value "payload")

  abbrev pub indexed : String → Value Number → Option SuppliedReceipt
  indexed envelope_json value = elim (read_event_hash value) [
    | none ↦ none
    | some event_hash ↦
        let result = verify_receipt (as_bytes envelope_json) in
        some (record {
          event_hash = event_hash;
          payload_kind = unwrap_or_default (read_payload_kind value);
          status = result.status;
          detail = join result.errors;
        })
  ]

  unfoldable pub index_supplied : String → Option SuppliedReceipt
  index_supplied envelope_json = elim (from_str envelope_json) [
    | err _ ↦ none
    | ok value ↦ indexed envelope_json value
  ]

  -- `receipts.iter().filter_map(index_supplied).collect()`
  unfoldable pub index_all : List String → List SuppliedReceipt
  index_all [] = []
  index_all (raw ∷ rest) = elim (index_supplied raw) [
    | none ↦ index_all rest
    | some s ↦ s ∷ index_all rest
  ]

  unfoldable pub walk_edge : SupportMember Role → List SuppliedReceipt → Option EdgeCheck
  unfolding classify
  walk_edge (typed_receipt_dependency event_hash role target_schema) supplied =
      let (status, detail) = classify (find_supplied event_hash supplied) target_schema in
      some (record {
        event_hash = event_hash;
        role = role_label role;
        target_schema = some target_schema;
        status = status;
        detail = detail;
      })
  walk_edge (depended_on_receipt event_hash) supplied = some (record {
    event_hash = event_hash;
    role = none;
    target_schema = none;
    status = untyped_edge;
    detail = some "untyped depended_on_receipt edge in a layered-family receipt";
  })
  walk_edge _ supplied = none

  -- The loop over the support set.
  pub walk_edges : List (SupportMember Role) → List SuppliedReceipt → EdgeState → EdgeState
  unfolding walk_edge
  walk_edges [] supplied s = s
  walk_edges (member ∷ rest) supplied s =
      walk_edges rest supplied (note_edge (walk_edge member supplied) s)

  abbrev layered_result :
      LayeredPack
      → VerificationResult
      → Result String (String × List (SupportMember Role))
      → LayeredPackVerificationResult
  layered_result pack root_result (err e) = record {
    status = invalid;
    schema_version = profile_version;
    root_result = root_result;
    root_kind = none;
    edge_checks = [];
    errors = List.◌++◌ (root_errors "root envelope: " root_result) (e ∷ []);
  }
  layered_result pack root_result (ok (root_kind, support_set)) =
      let s =
        walk_edges support_set (index_all pack.receipts)
          (record { errors = root_errors "root envelope: " root_result; edge_checks = [] }) in
      let all_edges_resolved = all (λ c. is_resolved c.status) s.edge_checks in
      record {
        status =
            if is_valid root_result.status && is_empty s.errors && all_edges_resolved
            then valid
            else invalid;
        schema_version = profile_version;
        root_result = root_result;
        root_kind = some root_kind;
        edge_checks = s.edge_checks;
        errors = s.errors;
      }

  -- `verify_layered_pack`, after `serde_json::from_slice`. The conversion is derived by serde.
  unfoldable pub verify_layered_pack : Result String LayeredPack → LayeredPackVerificationResult
  unfolding walk_edges
  verify_layered_pack (err e) = invalid_pack ("malformed pack JSON: " ++ e)
  verify_layered_pack (ok pack) =
      if not (str_eq pack.format expected_format)
      then invalid_pack (
          "unsupported pack format: expected \"" ++ expected_format ++ "\", got \"" ++ pack.format
          ++ "\"")
      else layered_result pack (verify_receipt (as_bytes pack.root_canonical))
          (extract_layered_payload pack.root_canonical)
