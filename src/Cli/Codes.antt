-- ===== src/Cli/Codes.antt =====
-- src/bin/vr_verify.rs: the exit code where no verdict is reported.
use vertrule_verifier.Prelude.{
  ℕ, ◌≡◌, ◌↔◌, ◌⊎◌, refl, sym, ◌∙◌, String, Option, none, some, List, [], ◌∷◌, Result, ok, err,
  true, false, inl, inr,
}
use vertrule_verifier.External.{External}
use vertrule_verifier.Error.{VerifyError}
use vertrule_verifier.Trust.{AuthoritySet, TrustPolicy}
use vertrule_verifier.Result.{VerificationStatus, valid, invalid}
use vertrule_verifier.Support.{Packs}
use vertrule_verifier.Rbh.{Metadata, ReceiptVerifyError, verify_external_receipt}
use vertrule_verifier.Formats.{Formats}
use vertrule_verifier.Cli.Args.{parse_limit_args, parse_trust_arg}
use vertrule_verifier.Cli.Exit.{exit_code-ne-two}
use vertrule_verifier.Cli.{
  with_file, written, emit_canonical, run_command, dispatch, main, canonical_line,
  canonical_metadata, external_output, signed_output, with_trust, load_trust_config,
}
use vertrule_verifier.Cli.Terminal.{
  Host, Output, Command, receipt, chain, signed, bundle, layered, decision, closure, external,
  command_of, exit_code, flagged, sole,
}
use vertrule_verifier.Cli.Reports.{Says}
use vertrule_verifier.Cli.Main.{IsReported, main-Says_iff}

-- An output reports a status, or its exit code is 2.
abbrev IsCoded : Output → Type 0
IsCoded o = ((s : VerificationStatus) × Says o s) ⊎ (o.code ≡ 2)

flagged-IsCoded :
    {A : Type 0} (run : A → Output) (r : Result String A)
    → ((a : A) → IsCoded (run a))
    → IsCoded (flagged run r)
flagged-IsCoded run (ok a) each = each a
flagged-IsCoded run (err e) each = inr refl

sole-IsCoded :
    (name : String) (rest : List String) (run : Output) → IsCoded run → IsCoded (sole name rest run)
sole-IsCoded name [] run coded = coded
sole-IsCoded name (extra ∷ rest) run coded = inr refl

module _ ⦃h : Host⦄ where
  open h use {read, write_all}

  written-IsCoded :
      (bytes : List ℕ) (notes : List String) (s : VerificationStatus) (r : Result String (Unit {0}))
      → IsCoded (written bytes notes (exit_code s) r)
  written-IsCoded bytes notes s (ok u) = inl (s, refl)
  written-IsCoded bytes notes s (err e) = inr refl

  with_file-IsCoded :
      (path : String) (rest : List ℕ → Output) (r : Result String (List ℕ))
      → ((bytes : List ℕ) → IsCoded (rest bytes))
      → IsCoded (with_file path rest r)
  with_file-IsCoded path rest (ok bytes) each = each bytes
  with_file-IsCoded path rest (err e) each = inr refl

  module _ ⦃x : External⦄ where
    open x use {JcsError, to_canon_bytes_from_slice}

    emit_canonical-IsCoded :
        (canonical : Result VerifyError (List ℕ)) (notes : List String) (s : VerificationStatus)
        → IsCoded (emit_canonical canonical notes s)
    emit_canonical-IsCoded (ok bytes) notes s = written-IsCoded bytes notes s (write_all [] bytes)
    emit_canonical-IsCoded (err e) notes s = inr refl

    canonical_line-IsCoded : (made : Result JcsError (List ℕ)) → IsCoded (canonical_line made)
    canonical_line-IsCoded (ok canonical) =
        written-IsCoded canonical [] valid (write_all [] canonical)
    canonical_line-IsCoded (err e) = inr refl

    module _ ⦃f : Formats⦄ where
      with_trust-IsCoded :
          (path : String) (raw sig : List ℕ) (loaded : Result String (AuthoritySet × TrustPolicy))
          → IsCoded (with_trust path raw sig loaded)
      with_trust-IsCoded path raw sig (ok (authorities, policy)) = emit_canonical-IsCoded _ _ _
      with_trust-IsCoded path raw sig (err e) = inr refl

      signed_output-IsCoded :
          (trust : Option String) (raw sig : List ℕ) → IsCoded (signed_output trust raw sig)
      signed_output-IsCoded none raw sig = emit_canonical-IsCoded _ _ _
      signed_output-IsCoded (some path) raw sig =
          with_trust-IsCoded path raw sig (load_trust_config path)

      module _ ⦃p : Packs⦄ ⦃m : Metadata⦄ where
        open m use {VerifiedReceiptMetadata, metadata_to_vec}

        canonical_metadata-IsCoded :
            (made : Result String (List ℕ)) → IsCoded (canonical_metadata made)
        canonical_metadata-IsCoded (ok json) =
            canonical_line-IsCoded (to_canon_bytes_from_slice json)
        canonical_metadata-IsCoded (err e) = inr refl

        external_output-IsCoded :
            (verified : Result ReceiptVerifyError VerifiedReceiptMetadata)
            → IsCoded (external_output verified)
        external_output-IsCoded (ok meta) = canonical_metadata-IsCoded (metadata_to_vec meta)
        external_output-IsCoded (err e) = inl (invalid, refl)

        run_command-IsCoded :
            (c : Command) (path : String) (rest : List String) → IsCoded (run_command c path rest)
        run_command-IsCoded receipt path rest =
            flagged-IsCoded _ (parse_limit_args rest false) (λ limits.
              with_file-IsCoded path _ (read path) (λ bytes. emit_canonical-IsCoded _ _ _))
        run_command-IsCoded chain path rest =
            flagged-IsCoded _ (parse_limit_args rest true) (λ limits.
              with_file-IsCoded path _ (read path) (λ bytes. emit_canonical-IsCoded _ _ _))
        run_command-IsCoded signed path [] = inr refl
        run_command-IsCoded signed path (sig ∷ flags) =
            flagged-IsCoded _ (parse_trust_arg flags) (λ trust.
              with_file-IsCoded path _ (read path) (λ raw.
                with_file-IsCoded sig _ (read sig)
                  (λ bytes. signed_output-IsCoded trust raw bytes)))
        run_command-IsCoded bundle path rest =
            sole-IsCoded "bundle" rest _
              (with_file-IsCoded path _ (read path) (λ bytes. emit_canonical-IsCoded _ _ _))
        run_command-IsCoded layered path rest =
            sole-IsCoded "layered" rest _
              (with_file-IsCoded path _ (read path) (λ bytes. emit_canonical-IsCoded _ _ _))
        run_command-IsCoded decision path rest =
            sole-IsCoded "decision" rest _
              (with_file-IsCoded path _ (read path) (λ bytes. emit_canonical-IsCoded _ _ _))
        run_command-IsCoded closure path rest =
            sole-IsCoded "closure" rest _
              (with_file-IsCoded path _ (read path) (λ bytes. emit_canonical-IsCoded _ _ _))
        run_command-IsCoded external path rest = sole-IsCoded "external" rest _ (
            with_file-IsCoded path _ (read path)
              (λ bytes. external_output-IsCoded (verify_external_receipt bytes)))

        dispatch-IsCoded :
            (name : String) (found : Option Command) (path : String) (rest : List String)
            → IsCoded (dispatch name found path rest)
        dispatch-IsCoded name none path rest = inr refl
        dispatch-IsCoded name (some c) path rest = run_command-IsCoded c path rest

        main-IsCoded : (args : List String) → IsCoded (main args)
        unfolding main
        main-IsCoded [] = inr refl
        main-IsCoded (program ∷ []) = inr refl
        main-IsCoded (program ∷ name ∷ []) = inr refl
        main-IsCoded (program ∷ name ∷ path ∷ rest) =
            dispatch-IsCoded name (command_of name) path rest

        -- The program exits with 2 exactly when it reports no verdict, neither a valid input nor an
        -- invalid one.
        pub main-two_iff :
            (args : List String)
            → ((main args).code ≡ 2) ↔ ((s : VerificationStatus) → ¬ IsReported args s)
        main-two_iff args = (
          λ q s r. exit_code-ne-two s (sym q ∙ (main-Says_iff args s).1 r),
          λ q. elim (main-IsCoded args) [
            | inr two ↦ two
            | inl (s, says) ↦ absurd (q s ((main-Says_iff args s).0 says))
          ],
        )
