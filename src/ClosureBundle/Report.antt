-- ===== src/ClosureBundle/Report.antt =====
-- src/closure_bundle.rs: the types of a bundle and of its result, and the errors that are pushed.
use Prim.Native.String.{◌++◌}
use mathlib.Core.List
use vertrule_verifier.Prelude.{
  ℕ, Bool, false, String, Option, none, some, List, [], ◌∷◌, map, ◌==◌, str_eq, if◌then◌else◌,
}
use vertrule_verifier.Prelude.Text.{display}
use vertrule_verifier.Prelude.StringSet
use vertrule_verifier.Json.{Value}
use vertrule_verifier.SchemaProfile.{profile_version}
use vertrule_verifier.Result.{VerificationStatus, VerificationResult, invalid, invalid_result}
use vertrule_verifier.LayeredPack.Report.{EdgeCheck, is_resolved, edge_error}

abbrev pub expected_format : String
expected_format = "vr-layered-bundle/v1"

pub record ClosureBundle (N : Type 0) : Type 0 where
  pub format : String
  pub root_canonical : String
  pub manifest : Value N
  pub receipts : List String

pub record ClosureBundleVerificationResult : Type 0 where
  pub status : VerificationStatus
  pub schema_version : String
  pub root_result : VerificationResult
  pub root_event_hash : Option String
  pub closure_size : ℕ
  pub manifest_digest_ok : Bool
  pub closure_complete : Bool
  pub cycle_detected : Bool
  pub edge_checks : List EdgeCheck
  pub errors : List String

abbrev pub invalid_bundle : String → ClosureBundleVerificationResult
invalid_bundle error = record {
  status = invalid;
  schema_version = profile_version;
  root_result = invalid_result "bundle-level error";
  root_event_hash = none;
  closure_size = 0;
  manifest_digest_ok = false;
  closure_complete = false;
  cycle_detected = false;
  edge_checks = [];
  errors = error ∷ [];
}

-- What a check of the manifest pushes: nothing if it passed.
abbrev pub digest_errors : Option String → Option String → List String
digest_errors (some r) (some s) =
    if str_eq r s
    then []
    else ("manifest_digest drift: recomputed \"" ++ r ++ "\" != stated \"" ++ s ++ "\"") ∷ []
digest_errors _ _ = "manifest_digest could not be computed or is absent" ∷ []

abbrev pub root_digest_errors : Option String → Option String → List String
root_digest_errors (some r) (some c) =
    if str_eq r c
    then []
    else ("root closure_manifest_digest \"" ++ c ++ "\" != manifest digest \"" ++ r ++ "\"") ∷ []
root_digest_errors recomputed none =
    "root pack receipt does not commit a closure_manifest_digest" ∷ []
root_digest_errors none (some c) = []

abbrev pub count_errors : Option ℕ → Option ℕ → List String
count_errors (some c) (some l) =
    if c == l
    then []
    else ("dependency_count " ++ display c ++ " != receipt_closure length " ++ display l) ∷ []
count_errors _ _ = []

-- The errors of every edge that is not resolved.
abbrev pub edge_errors : List EdgeCheck → List String
edge_errors [] = []
edge_errors (c ∷ cs) =
    if is_resolved c.status then edge_errors cs else edge_error c ∷ edge_errors cs

abbrev missing_error : String → String
missing_error h = "reachable dependency \"" ++ h ++ "\" is absent from receipt_closure"

abbrev extra_error : String → String
extra_error h = "receipt_closure entry \"" ++ h ++ "\" is not reachable from the root"

-- The errors of step 5.
abbrev pub closure_errors : List String → List String → List String
closure_errors committed dependencies =
    if StringSet.equal committed dependencies
    then []
    else List.◌++◌ (map missing_error (StringSet.difference dependencies committed))
        (map extra_error (StringSet.difference committed dependencies))
