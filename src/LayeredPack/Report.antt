-- ===== src/LayeredPack/Report.antt =====
-- src/layered_pack.rs: the types of a pack and of its result, and the checks and errors on an edge.
use Prim.Native.String.{◌++◌}
use mathlib.Core.List
use vertrule_verifier.Prelude.{
  Bool, true, false, not, String, Option, none, some, List, [], ◌∷◌, map, str_eq, if◌then◌else◌,
}
use vertrule_verifier.SchemaProfile.{profile_version}
use vertrule_verifier.Result.{
  VerificationStatus, VerificationResult, invalid, is_valid, invalid_result,
}

abbrev pub expected_format : String
expected_format = "vr-layered-pack/v1"

pub record LayeredPack : Type 0 where
  pub format : String
  pub root_canonical : String
  pub receipts : List String

pub data EdgeStatus : Type 0 where
  resolved missing failed schema_mismatch untyped_edge : EdgeStatus

-- `{:?}` of a status
abbrev pub status_debug : EdgeStatus → String
status_debug resolved = "Resolved"
status_debug missing = "Missing"
status_debug failed = "Failed"
status_debug schema_mismatch = "SchemaMismatch"
status_debug untyped_edge = "UntypedEdge"

abbrev pub is_resolved : EdgeStatus → Bool
is_resolved resolved = true
is_resolved _ = false

pub record EdgeCheck : Type 0 where
  pub event_hash : String
  pub role : Option String
  pub target_schema : Option String
  pub status : EdgeStatus
  pub detail : Option String

pub record LayeredPackVerificationResult : Type 0 where
  pub status : VerificationStatus
  pub schema_version : String
  pub root_result : VerificationResult
  pub root_kind : Option String
  pub edge_checks : List EdgeCheck
  pub errors : List String

pub record SuppliedReceipt : Type 0 where
  pub event_hash : String
  pub payload_kind : String
  pub status : VerificationStatus
  pub detail : String

-- `supplied.iter().find(|s| &s.event_hash == event_hash)`
abbrev pub find_supplied : String → List SuppliedReceipt → Option SuppliedReceipt
find_supplied event_hash [] = none
find_supplied event_hash (s ∷ rest) =
    if str_eq s.event_hash event_hash then some s else find_supplied event_hash rest

-- The match on the receipt that was found.
unfoldable pub classify : Option SuppliedReceipt → String → EdgeStatus × Option String
classify none target_schema = (missing, some "committed receipt not supplied in pack")
classify (some s) target_schema =
    if not (is_valid s.status)
    then (failed, some ("supplied receipt does not verify: " ++ s.detail))
    else if not (str_eq s.payload_kind target_schema)
    then (
      schema_mismatch,
      some (
          "edge target_schema \"" ++ target_schema ++ "\" != supplied payload_kind \""
          ++ s.payload_kind ++ "\""),
    )
    else (resolved, none)

-- The result of an error of the whole pack.
abbrev pub invalid_pack : String → LayeredPackVerificationResult
invalid_pack error = record {
  status = invalid;
  schema_version = profile_version;
  root_result = invalid_result "pack-level error";
  root_kind = none;
  edge_checks = [];
  errors = error ∷ [];
}

-- `format!("lineage edge \"{}\" is OUT ({:?})", ..)`
abbrev pub edge_error : EdgeCheck → String
edge_error check =
    "lineage edge \"" ++ check.event_hash ++ "\" is OUT (" ++ status_debug check.status ++ ")"

-- The vectors that the loop over the support set pushes to.
pub record EdgeState : Type 0 where
  pub errors : List String
  pub edge_checks : List EdgeCheck

abbrev pub note_edge : Option EdgeCheck → EdgeState → EdgeState
note_edge none s = s
note_edge (some check) s = record {
  errors =
      if is_resolved check.status then s.errors else List.◌++◌ s.errors (edge_error check ∷ []);
  edge_checks = List.◌++◌ s.edge_checks (check ∷ []);
}

-- The errors of a root that is not valid, each after the label.
abbrev pub root_errors : String → VerificationResult → List String
root_errors label result =
    if is_valid result.status then [] else map (λ e. label ++ e) result.errors
