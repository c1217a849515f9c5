-- ===== src/ClosureBundle.antt =====
-- src/closure_bundle.rs: a root pack receipt, a manifest of its closure and the receipts in it. The
-- graph and the walk over it are in ClosureGraph.
pub mod Report
pub mod Manifest
pub mod Notes
pub mod Closed
pub mod Verdict
pub mod Closure
use Prim.Native.String.{◌++◌}
use mathlib.Core.List
use vertrule_verifier.Prelude.{
  ℕ, Bool, true, false, ◌&&◌, not, String, Option, none, some, List, [], ◌∷◌, Result, ok, err, map,
  length, is_empty, ◌==◌, str_eq, if◌then◌else◌,
}
use vertrule_verifier.Prelude.Text.{as_bytes, display}
use vertrule_verifier.Prelude.Map.{Map}
use vertrule_verifier.Prelude.StringSet
use vertrule_verifier.Json.{
  Value, Fields, object, get, get_field, remove_field, as_object, as_array, as_str, as_number,
}
use vertrule_verifier.Json
use vertrule_verifier.External.{External}
use vertrule_verifier.SchemaProfile.{profile_version}
use vertrule_verifier.Canon.{typed_canon_bytes}
use vertrule_verifier.Result.{
  VerificationStatus, VerificationResult, valid, invalid, is_valid, invalid_result,
}
use vertrule_verifier.Verify.{verify_receipt}
use vertrule_verifier.Support.{Packs, read_event_hash, payload_at, read_payload_kind}
use vertrule_verifier.LayeredPack.Report.{EdgeCheck, is_resolved, edge_error, root_errors}
use vertrule_verifier.ClosureGraph.{WalkState, Node, insert_node, walk, initial_fuel, initial_state}
use vertrule_verifier.ClosureBundle.Report.{
  expected_format, ClosureBundle, ClosureBundleVerificationResult, invalid_bundle, digest_errors,
  root_digest_errors, count_errors, edge_errors, closure_errors,
}

module _ ⦃x : External⦄ where
  open x use {Number, from_str, as_u64, blake3, hex_encode}

  -- `typed_canon_bytes(..).ok().map(|b| GenericByteDigest::from_bytes(&b).to_hex_string())`
  abbrev recomputed_digest : Fields Number → Option String
  recomputed_digest obj = elim (typed_canon_bytes (object (remove_field obj "manifest_digest"))) [
    | ok b ↦ some (hex_encode (blake3 b))
    | err _ ↦ none
  ]

  abbrev stated_digest : Fields Number → Option String
  stated_digest obj = Json.◌>>=◌ (get_field obj "manifest_digest") as_str

  abbrev dependency_count : Fields Number → Option ℕ
  dependency_count obj = Json.◌>>=◌ (Json.◌>>=◌ (get_field obj "dependency_count") as_number) as_u64

  abbrev listed_length : Fields Number → Option ℕ
  listed_length obj = elim (Json.◌>>=◌ (get_field obj "receipt_closure") as_array) [
    | none ↦ none
    | some entries ↦ some (length entries)
  ]

  -- What `check_manifest_digest` pushes for an object; it returns whether that is nothing.
  manifest_errors : Fields Number → Option String → List String
  manifest_errors obj committed =
      List.◌++◌ (digest_errors (recomputed_digest obj) (stated_digest obj)) (
        List.◌++◌ (root_digest_errors (recomputed_digest obj) committed)
          (count_errors (dependency_count obj) (listed_length obj)))

  -- `check_manifest_digest`: the flag, and the errors that it pushes.
  unfoldable pub check_manifest_digest : Value Number → Option String → Bool × List String
  unfolding manifest_errors
  check_manifest_digest manifest committed_root_digest = elim (as_object manifest) [
    | none ↦ (false, "bundle manifest is not a JSON object" ∷ [])
    | some obj ↦ let errors = manifest_errors obj committed_root_digest in (is_empty errors, errors)
  ]

  -- `filter_map(|v| v.as_str().map(String::from))`
  abbrev strings : List (Value Number) → List String
  strings [] = []
  strings (v ∷ vs) = elim (as_str v) [ none ↦ strings vs | some s ↦ s ∷ strings vs ]

  -- `map(|entries| ..collect()).unwrap_or_default()`
  abbrev pub entries_closure : Option (List (Value Number)) → List String
  entries_closure none = []
  entries_closure (some entries) = StringSet.collect [] (strings entries)

  abbrev pub committed_closure : Value Number → List String
  committed_closure manifest =
      entries_closure (Json.◌>>=◌ (get manifest "receipt_closure") as_array)

  module _ ⦃p : Packs⦄ where
    open p use {pack_payload_kind, debug_str}

    -- The map and the errors that the loop over the supplied receipts writes to.
    pub record IndexState : Type 0 where
      pub index : Map Node
      pub errors : List String

    abbrev ignored : String
    ignored = "a supplied receipt is not valid JSON and was ignored"

    unfoldable pub insert_all : List String → IndexState → IndexState
    insert_all [] s = s
    insert_all (raw ∷ rest) s = insert_all rest (elim (from_str raw) [
      | ok v ↦ record s { index = insert_node s.index v raw }
      | err _ ↦ record s { errors = List.◌++◌ s.errors (ignored ∷ []) }
    ])

    -- `{root_kind:?}`
    abbrev kind_debug : Option String → String
    kind_debug none = "None"
    kind_debug (some k) = "Some(" ++ debug_str k ++ ")"

    -- `root_kind.as_deref() != Some(PACK_PAYLOAD_KIND)`
    abbrev is_pack_kind : Option String → Bool
    is_pack_kind none = false
    is_pack_kind (some k) = str_eq k pack_payload_kind

    abbrev kind_errors : Option String → List String
    kind_errors root_kind =
        if is_pack_kind root_kind
        then []
        else ("root is not a pack receipt: payload_kind "
            ++ kind_debug root_kind
            ++ " != \""
            ++ pack_payload_kind
            ++ "\"")
          ∷ []

    -- `if let Some(root_h) = &root_event_hash { walk(..) } else { errors.push(..) }`
    abbrev walked : Map Node → Option String → WalkState
    walked index none = initial_state
    walked index (some root_h) = walk (initial_fuel index) index root_h initial_state

    abbrev hash_errors : Option String → List String
    hash_errors none = "root envelope has no readable event_hash" ∷ []
    hash_errors (some root_h) = []

    abbrev dependencies_of : List String → Option String → List String
    dependencies_of reachable none = reachable
    dependencies_of reachable (some root_h) = StringSet.remove reachable root_h

    abbrev pub committed_digest : Value Number → Option String
    committed_digest root_value =
        Json.◌>>=◌ (payload_at root_value "closure_manifest_digest") as_str

    abbrev cycle_errors : Bool → List String
    cycle_errors cycle = if cycle then "dependency cycle detected over depends_on" ∷ [] else []

    -- The graph of the root and the supplied receipts, and the errors of the latter.
    abbrev pub indexed : ClosureBundle Number → Value Number → List String → IndexState
    indexed bundle root_value errors =
        insert_all bundle.receipts
          (record { index = insert_node [] root_value bundle.root_canonical; errors = errors })

    -- `verify_closure_bundle` from step 2 on.
    abbrev bundle_result :
        ClosureBundle Number → VerificationResult → Value Number → ClosureBundleVerificationResult
    bundle_result bundle root_result root_value =
        let root_event_hash = read_event_hash root_value in
        let root_kind = read_payload_kind root_value in
        let (manifest_digest_ok, from_manifest) =
          check_manifest_digest bundle.manifest (committed_digest root_value) in
        let before =
          List.◌++◌ (List.◌++◌ (root_errors "root envelope: " root_result) (kind_errors root_kind))
            from_manifest in
        let graph = indexed bundle root_value before in
        let s = walked graph.index root_event_hash in
        let committed = committed_closure bundle.manifest in
        let dependencies = dependencies_of s.reachable root_event_hash in
        let closure_complete = StringSet.equal committed dependencies in
        let after = List.◌++◌ graph.errors (
          List.◌++◌ (hash_errors root_event_hash) (
            List.◌++◌ (edge_errors s.edge_checks) (
              List.◌++◌ (cycle_errors s.cycle_detected)
                (closure_errors committed dependencies)))) in
        record {
          status =
              if is_valid root_result.status
                && manifest_digest_ok
                && closure_complete
                && not s.cycle_detected
                && is_empty after
              then valid
              else invalid;
          schema_version = profile_version;
          root_result = root_result;
          root_event_hash = root_event_hash;
          closure_size = length dependencies;
          manifest_digest_ok = manifest_digest_ok;
          closure_complete = closure_complete;
          cycle_detected = s.cycle_detected;
          edge_checks = s.edge_checks;
          errors = after;
        }

    -- The match on the parsed root envelope.
    abbrev rooted_result :
        ClosureBundle Number → Result String (Value Number) → ClosureBundleVerificationResult
    rooted_result bundle (err e) = invalid_bundle ("malformed root envelope: " ++ e)
    rooted_result bundle (ok root_value) =
        bundle_result bundle (verify_receipt (as_bytes bundle.root_canonical)) root_value

    -- `verify_closure_bundle`, after `serde_json::from_slice`. The conversion is derived by serde.
    unfoldable pub verify_closure_bundle :
        Result String (ClosureBundle Number) → ClosureBundleVerificationResult
    verify_closure_bundle (err e) = invalid_bundle ("malformed bundle JSON: " ++ e)
    verify_closure_bundle (ok bundle) =
        if not (str_eq bundle.format expected_format)
        then invalid_bundle (
            "unsupported bundle format: expected \"" ++ expected_format ++ "\", got \""
            ++ bundle.format ++ "\"")
        else rooted_result bundle (from_str bundle.root_canonical)
