-- ===== src/Cli.antt =====
-- src/bin/vr_verify.rs: the command line program. A run is what it writes and its exit code; the
-- files and the terminal are parameters.
pub mod Terminal
pub mod Args
pub mod Exit
pub mod Reports
pub mod Main
pub mod Codes
pub mod RoundTrip
use Prim.Native.String.{◌++◌}
use mathlib.Core.List
use vertrule_verifier.Prelude.{
  ℕ, Bool, true, false, String, Option, none, some, List, [], ◌∷◌, Result, ok, err, ◌>>=◌, map_err,
  str_eq, if◌then◌else◌,
}
use vertrule_verifier.Json.{Value, get}
use vertrule_verifier.External.{External}
use vertrule_verifier.Error.{VerifyError, to_string}
use vertrule_verifier.Limits.{VerifierLimits}
use vertrule_verifier.Trust.{AuthoritySet, TrustPolicy, default_policy}
use vertrule_verifier.Result.{VerificationStatus, VerificationResult, valid, invalid}
use vertrule_verifier.Verify.{
  verify_receipt, verify_receipt_with_limits, verify_receipt_chain,
  verify_receipt_chain_with_limits, verify_signed_receipt, verify_signed_receipt_with_trust,
}
use vertrule_verifier.Support.{Packs}
use vertrule_verifier.LayeredPack.{verify_layered_pack}
use vertrule_verifier.DecisionPack.{verify_decision_pack}
use vertrule_verifier.ClosureBundle.{verify_closure_bundle}
use vertrule_verifier.Bundle.{verify_bundle}
use vertrule_verifier.Rbh.{Metadata, ReceiptVerifyError, verify_external_receipt}
use vertrule_verifier.Rbh
use vertrule_verifier.Formats.{
  Formats, result_to_canon_bytes, result_digest, bundle_to_canon_bytes, layered_to_canon_bytes,
  decision_to_canon_bytes, closure_to_canon_bytes,
}
use vertrule_verifier.Cli.Args.{LimitArgs, is_present, resolve, parse_limit_args, parse_trust_arg}
use vertrule_verifier.Cli.Terminal.{
  Output, Host, Command, usage, failure, usage_error, sole, flagged, command_of, exit_code, receipt,
  chain, signed, bundle, layered, decision, closure, external,
}

module _ ⦃h : Host⦄ where
  open h use {read, write_all}

  -- The bytes, and then a newline whose failure is ignored.
  abbrev newline : List ℕ → Result String (Unit {0}) → List ℕ
  newline bytes (ok _) = List.◌++◌ bytes (10 ∷ [])
  newline bytes (err e) = bytes

  abbrev pub written : List ℕ → List String → ℕ → Result String (Unit {0}) → Output
  written bytes notes code (err e) = failure (("Error writing result: " ++ e) ∷ [])
  written bytes notes code (ok _) = record {
    stdout = newline bytes (write_all bytes (10 ∷ []));
    stderr = notes;
    code = code;
  }

  -- `write_all(&mut stdout(), bytes)`, and what follows it
  abbrev pub write_line : List ℕ → List String → ℕ → Output
  write_line bytes notes code = written bytes notes code (write_all [] bytes)

  -- `match std::fs::read(path)`, and what follows it
  abbrev pub with_file : String → (List ℕ → Output) → Result String (List ℕ) → Output
  with_file path rest (err e) = failure (("Error reading " ++ path ++ ": " ++ e) ∷ [])
  with_file path rest (ok bytes) = rest bytes

  module _ ⦃x : External⦄ where
    open x use {
      Number, Digest, JcsError, from_slice, jcs_display, to_canon_bytes_from_slice, digest_display,
    }

    -- `match result.to_canon_bytes()`, and the match on the status
    abbrev pub emit_canonical :
        Result VerifyError (List ℕ) → List String → VerificationStatus → Output
    emit_canonical (err e) notes status =
        failure (("Error canonicalizing result: " ++ to_string e) ∷ [])
    emit_canonical (ok bytes) notes status = write_line bytes notes (exit_code status)

    -- `match vr_jcs::to_canon_bytes_from_slice(&json)`, and the write
    abbrev canonical_line : Result JcsError (List ℕ) → Output
    canonical_line (err e) = failure (("Error canonicalizing metadata: " ++ jcs_display e) ∷ [])
    canonical_line (ok canonical) = write_line canonical [] 0

    -- `match result.digest()`
    abbrev digest_line : Result VerifyError Digest → String
    digest_line (ok d) = digest_display d
    digest_line (err e) = "digest error: " ++ to_string e

    module _ ⦃f : Formats⦄ where
      open f use {
        signature_from_slice, bundle_from_slice, layered_from_slice, decision_from_slice,
        closure_from_slice, authority_set_from_value, trust_policy_from_value,
      }

      abbrev pub emit_result : VerificationResult → Output
      emit_result r =
          emit_canonical (result_to_canon_bytes r) (digest_line (result_digest r) ∷ []) r.status

      abbrev pub receipt_result : LimitArgs → List ℕ → VerificationResult
      receipt_result limits raw_bytes =
          if is_present limits
          then verify_receipt_with_limits raw_bytes (resolve limits)
          else verify_receipt raw_bytes

      abbrev pub run_receipt : String → LimitArgs → Output
      run_receipt path limits =
          with_file path (λ raw_bytes. emit_result (receipt_result limits raw_bytes)) (read path)

      abbrev pub chain_result : LimitArgs → List ℕ → VerificationResult
      chain_result limits raw_bytes =
          if is_present limits
          then verify_receipt_chain_with_limits raw_bytes (resolve limits)
          else verify_receipt_chain raw_bytes

      abbrev pub run_chain : String → LimitArgs → Output
      run_chain path limits =
          with_file path (λ raw_bytes. emit_result (chain_result limits raw_bytes)) (read path)

      abbrev authority_set_of : Option (Value Number) → Result String AuthoritySet
      authority_set_of none = err "missing \"authority_set\""
      authority_set_of (some v) = authority_set_from_value v

      abbrev trust_policy_of : Option (Value Number) → Result String TrustPolicy
      trust_policy_of none = ok default_policy
      trust_policy_of (some v) = trust_policy_from_value v

      unfoldable pub load_trust_config : String → Result String (AuthoritySet × TrustPolicy)
      load_trust_config path = do
        bytes ← read path
        value ← from_slice bytes
        authority_set ← authority_set_of (get value "authority_set")
        trust_policy ← trust_policy_of (get value "trust_policy")
        ok (authority_set, trust_policy)

      abbrev with_trust :
          String → List ℕ → List ℕ → Result String (AuthoritySet × TrustPolicy) → Output
      with_trust path raw_bytes sig_bytes (err e) =
          failure (("Error loading trust config " ++ path ++ ": " ++ e) ∷ [])
      with_trust path raw_bytes sig_bytes (ok (authority_set, trust_policy)) = emit_result (
          verify_signed_receipt_with_trust signature_from_slice raw_bytes sig_bytes authority_set
            trust_policy)

      -- The match on the trust path, with both files read.
      abbrev pub signed_output : Option String → List ℕ → List ℕ → Output
      signed_output none raw_bytes sig_bytes =
          emit_result (verify_signed_receipt signature_from_slice raw_bytes sig_bytes)
      signed_output (some path) raw_bytes sig_bytes =
          with_trust path raw_bytes sig_bytes (load_trust_config path)

      abbrev pub run_signed : String → String → Option String → Output
      run_signed receipt_path sig_path trust_path =
          with_file receipt_path
            (λ raw_bytes.
              with_file sig_path (λ sig_bytes. signed_output trust_path raw_bytes sig_bytes)
                (read sig_path))
            (read receipt_path)

      abbrev pub run_bundle : String → Output
      run_bundle path =
          with_file path
            (λ raw_bytes.
              let result = verify_bundle (bundle_from_slice raw_bytes) in
              emit_canonical (bundle_to_canon_bytes result) [] result.status)
            (read path)

      module _ ⦃p : Packs⦄ where
        abbrev pub run_layered : String → Output
        run_layered path =
            with_file path
              (λ raw_bytes.
                let result = verify_layered_pack (layered_from_slice raw_bytes) in
                emit_canonical (layered_to_canon_bytes result) [] result.status)
              (read path)

        abbrev pub run_decision : String → Output
        run_decision path =
            with_file path
              (λ raw_bytes.
                let result = verify_decision_pack (decision_from_slice raw_bytes) in
                emit_canonical (decision_to_canon_bytes result) [] result.status)
              (read path)

        abbrev pub run_closure : String → Output
        run_closure path =
            with_file path
              (λ raw_bytes.
                let result = verify_closure_bundle (closure_from_slice raw_bytes) in
                emit_canonical (closure_to_canon_bytes result) [] result.status)
              (read path)

        module _ ⦃m : Metadata⦄ where
          open m use {VerifiedReceiptMetadata, metadata_to_vec}

          -- `match serde_json::to_vec(&meta)`, and the match on its canonical form
          abbrev canonical_metadata : Result String (List ℕ) → Output
          canonical_metadata (err e) = failure (("Error serializing metadata: " ++ e) ∷ [])
          canonical_metadata (ok json) = canonical_line (to_canon_bytes_from_slice json)

          abbrev pub external_output : Result ReceiptVerifyError VerifiedReceiptMetadata → Output
          external_output (ok meta) = canonical_metadata (metadata_to_vec meta)
          external_output (err e) = record { stdout = []; stderr = Rbh.to_string e ∷ []; code = 1 }

          abbrev pub run_external : String → Output
          run_external path =
              with_file path (λ raw_bytes. external_output (verify_external_receipt raw_bytes))
                (read path)

          -- The arm of a command, with the arguments from the third on.
          abbrev pub run_command : Command → String → List String → Output
          run_command receipt path rest = flagged (run_receipt path) (parse_limit_args rest false)
          run_command chain path rest = flagged (run_chain path) (parse_limit_args rest true)
          run_command signed path [] = usage_error "'signed' expects at least two arguments"
          run_command signed path (sig ∷ flags) =
              flagged (run_signed path sig) (parse_trust_arg flags)
          run_command bundle path rest = sole "bundle" rest (run_bundle path)
          run_command layered path rest = sole "layered" rest (run_layered path)
          run_command decision path rest = sole "decision" rest (run_decision path)
          run_command closure path rest = sole "closure" rest (run_closure path)
          run_command external path rest = sole "external" rest (run_external path)

          abbrev pub dispatch : String → Option Command → String → List String → Output
          dispatch name none path rest = usage_error ("unknown command \"" ++ name ++ "\"")
          dispatch name (some c) path rest = run_command c path rest

          unfoldable pub main : List String → Output
          main (program ∷ name ∷ path ∷ rest) = dispatch name (command_of name) path rest
          main _ = failure (usage ∷ [])
