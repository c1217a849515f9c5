-- ===== src/Tests/Programs.antt =====
-- The theorems on external receipts, execution bundles, the command line and the bindings, applied to
-- concrete inputs: every file holds the bytes of one receipt, and every write succeeds.
use vertrule_verifier.Prelude.{
  ℕ, inl, ◌≡◌, ◌↔◌, refl, true, String, Option, none, some, List, [], ◌∷◌, ok, err, arith,
}
use vertrule_verifier.Json.{Value, null, string}
use vertrule_verifier.External.{External, constitutional_envelope_v1}
use vertrule_verifier.Result.{VerificationStatus, valid}
use vertrule_verifier.Support.{Packs, allow}
use vertrule_verifier.Bundle.{ExecutionBundle}
use vertrule_verifier.Rbh.{Metadata, verify_external_receipt, verify_projection_source}
use vertrule_verifier.Rbh.Receipts.{IsVerified, verify_external_receipt-ok_iff}
use vertrule_verifier.Rbh.Projection.{IsProjectionOf, verify_projection_source-ok_iff}
use vertrule_verifier.Formats.{Formats}
use vertrule_verifier.Cli.{main}
use vertrule_verifier.Cli.Terminal.{Host}
use vertrule_verifier.Cli.Args.{LimitArgs, parse_limit_args}
use vertrule_verifier.Cli.Reports.{Says}
use vertrule_verifier.Cli.Main.{IsReported, main-Says_iff}
use vertrule_verifier.Cli.Codes.{main-two_iff}
use vertrule_verifier.Cli.RoundTrip.{
  IsLimit, IsPrintable, print_limits, parse_limit_args-print_limits,
}
use vertrule_verifier.Wasm.{verify_receipt_json}
use vertrule_verifier.Wasm.Canonical.{IsOutputOf, json_outputs}
use vertrule_verifier.Tests.World.{toy, first_receipt, receipt_bytes}

-- The receipts name the law of their event hash.
abbrev world : External
world = record toy { event_hash_profile = λ r. some constitutional_envelope_v1 }

abbrev no_packs : Packs ⦃x = world⦄
no_packs = record {
  Role = String;
  role_to_value = λ r. ok (string r);
  provider_payload_kind = "provider";
  model_payload_kind = "model";
  pack_payload_kind = "pack";
  decision_payload_kind = "decision";
  support_set_from_value = λ v. ok [];
  decision_from_value = λ v. ok (record { verdict = allow; support_set = [] });
  debug_str = λ s. s;
}

abbrev metadata : Metadata ⦃x = world⦄
metadata = record {
  VerifiedReceiptMetadata = ℕ;
  new = λ c p s e t time o v. time;
  metadata_to_vec = λ m. ok (m ∷ []);
}

abbrev sample_bundle : ExecutionBundle ℕ
sample_bundle = record {
  format = "vr-execution-bundle/v1";
  envelope_canonical = "envelope";
  sidecars = record { layer_trace = some null; selection_policy = none };
}

abbrev formats : Formats ⦃x = world⦄
formats = record {
  signature_from_slice = λ bs. err "no signature";
  bundle_from_slice = λ bs. ok sample_bundle;
  layered_from_slice = λ bs. err "no pack";
  decision_from_slice = λ bs. err "no pack";
  closure_from_slice = λ bs. err "no bundle";
  authority_set_from_value = λ v. err "no authorities";
  trust_policy_from_value = λ v. err "no policy";
  result_to_value = λ r. ok null;
  bundle_to_value = λ r. ok null;
  layered_to_value = λ r. ok null;
  decision_to_value = λ r. ok null;
  closure_to_value = λ r. ok null;
}

abbrev host : Host
host = record { read = λ path. ok receipt_bytes; write_all = λ before bytes. ok tt }

first_receipt-IsVerified : IsVerified ⦃x = world⦄ first_receipt
first_receipt-IsVerified =
    let verified : IsVerified ⦃x = world⦄ first_receipt = record {
      is_v1 = refl;
      law = inl refl;
      hash = refl;
      step = λ s q t. cc q;
    } in
    verified

verify_external_receipt-ok_iff_example :
    verify_external_receipt ⦃x = world⦄ ⦃m = metadata⦄ receipt_bytes ≡ ok 7
verify_external_receipt-ok_iff_example =
    (verify_external_receipt-ok_iff ⦃x = world⦄ ⦃m = metadata⦄ receipt_bytes 7).1
      (first_receipt, refl, first_receipt-IsVerified, refl)

verify_projection_source-ok_iff_example :
    (verify_projection_source ⦃x = world⦄ ⦃m = metadata⦄ receipt_bytes receipt_bytes ≡ ok 7) ↔ (
      (verify_external_receipt ⦃x = world⦄ ⦃m = metadata⦄ receipt_bytes ≡ ok 7)
      × (envelope : Value ℕ) × (projection : Value ℕ) × (External.from_slice world receipt_bytes
          ≡ ok envelope)
      × (External.from_slice world receipt_bytes ≡ ok projection)
      × IsProjectionOf ⦃x = world⦄ projection envelope)
verify_projection_source-ok_iff_example =
    verify_projection_source-ok_iff ⦃x = world⦄ ⦃m = metadata⦄ receipt_bytes receipt_bytes 7

abbrev arguments : List String
arguments = "vr-verify" ∷ "receipt" ∷ "receipt.json" ∷ "--max-bytes" ∷ "10" ∷ []

main-Says_iff_example :
    Says (main ⦃h = host⦄ ⦃x = world⦄ ⦃f = formats⦄ ⦃p = no_packs⦄ ⦃m = metadata⦄ arguments) valid
    ↔ IsReported ⦃h = host⦄ ⦃x = world⦄ ⦃f = formats⦄ ⦃p = no_packs⦄ ⦃m = metadata⦄ arguments valid
main-Says_iff_example =
    main-Says_iff ⦃h = host⦄ ⦃x = world⦄ ⦃f = formats⦄ ⦃p = no_packs⦄ ⦃m = metadata⦄ arguments valid

main-two_iff_example :
    ((main ⦃h = host⦄ ⦃x = world⦄ ⦃f = formats⦄ ⦃p = no_packs⦄ ⦃m = metadata⦄
        ("vr-verify" ∷ [])).code
      ≡ 2)
    ↔ ((s : VerificationStatus)
        → ¬ IsReported ⦃h = host⦄ ⦃x = world⦄ ⦃f = formats⦄ ⦃p = no_packs⦄ ⦃m = metadata⦄
            ("vr-verify" ∷ [])
            s)
main-two_iff_example =
    main-two_iff ⦃h = host⦄ ⦃x = world⦄ ⦃f = formats⦄ ⦃p = no_packs⦄ ⦃m = metadata⦄
      ("vr-verify" ∷ [])

abbrev two_limits : LimitArgs
two_limits = record { max_bytes = some 4096; max_chain_length = some 12 }

two_limits-IsPrintable : IsPrintable true two_limits
two_limits-IsPrintable =
    let printable : IsPrintable true two_limits = record {
      bytes = λ n q.
          let same : 4096 ≡ n = cc q in
          let limit : IsLimit n = record {
            is_positive = omega (arith, same);
            is_usize = omega (arith, same);
          } in
          limit;
      chain_length = λ n q.
          let same : 12 ≡ n = cc q in
          let limit : IsLimit n = record {
            is_positive = omega (arith, same);
            is_usize = omega (arith, same);
          } in
          (limit, refl);
    } in
    printable

parse_limit_args-print_limits_example :
    parse_limit_args (print_limits two_limits) true ≡ ok two_limits
parse_limit_args-print_limits_example =
    parse_limit_args-print_limits true two_limits two_limits-IsPrintable

abbrev to_text : List ℕ → Option String
to_text bs = some "{}"

json_outputs_example :
    IsOutputOf ⦃x = world⦄ (ok null) (verify_receipt_json ⦃x = world⦄ ⦃f = formats⦄ "receipt")
json_outputs_example =
    (json_outputs ⦃x = world⦄ to_text ⦃f = formats⦄ ⦃p = no_packs⦄ "receipt" "signature").0
