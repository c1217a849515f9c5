-- ===== src/Cli/Reports.antt =====
-- src/bin/vr_verify.rs: what the program reports by its exit code.
use vertrule_verifier.Prelude.{
  ℕ, ◌≡◌, ◌↔◌, refl, sym, ap, subst, ok-injective, String, Option, none, some, List, [], ◌∷◌,
  Result, ok, err, true, false, Result-cases, inl, inr,
}
use vertrule_verifier.External.{External}
use vertrule_verifier.Error.{VerifyError}
use vertrule_verifier.Trust.{AuthoritySet, TrustPolicy}
use vertrule_verifier.Result.{VerificationStatus, valid, invalid}
use vertrule_verifier.Verify.{verify_signed_receipt, verify_signed_receipt_with_trust}
use vertrule_verifier.Support.{Packs}
use vertrule_verifier.LayeredPack.{verify_layered_pack}
use vertrule_verifier.DecisionPack.{verify_decision_pack}
use vertrule_verifier.ClosureBundle.{verify_closure_bundle}
use vertrule_verifier.Bundle.{verify_bundle}
use vertrule_verifier.Rbh.{Metadata, ReceiptVerifyError, verify_external_receipt}
use vertrule_verifier.Formats.{
  Formats, result_to_canon_bytes, bundle_to_canon_bytes, layered_to_canon_bytes,
  decision_to_canon_bytes, closure_to_canon_bytes,
}
use vertrule_verifier.Cli.Args.{LimitArgs, parse_limit_args, parse_trust_arg}
use vertrule_verifier.Cli.Exit.{exit_code-ne-two, exit_code-injective}
use vertrule_verifier.Cli.{
  write_line, with_file, emit_canonical, receipt_result, chain_result, load_trust_config,
  external_output, canonical_line, canonical_metadata, signed_output, with_trust,
}
use vertrule_verifier.Cli.Terminal.{
  Host, Output, Command, receipt, chain, signed, bundle, layered, decision, closure, external,
  exit_code, failure,
}

-- Whether an output reports the status.
abbrev pub Says : Output → VerificationStatus → Type 0
Says output s = output.code ≡ exit_code s

failure-silent : (lines : List String) (s : VerificationStatus) → ¬ Says (failure lines) s
failure-silent lines s h = exit_code-ne-two s h

module _ ⦃h : Host⦄ where
  open h use {read, write_all}

  -- Standard output takes the bytes.
  abbrev pub IsWritten : List ℕ → Type 0
  IsWritten bytes = write_all [] bytes ≡ ok tt

  pub write_line-Says_iff :
      (bytes : List ℕ) (notes : List String) (t s : VerificationStatus)
      → Says (write_line bytes notes (exit_code t)) s ↔ (IsWritten bytes × (t ≡ s))
  write_line-Says_iff bytes notes t s = elim (Result-cases (write_all [] bytes)) [
    | inl (tt, p) ↦ rw p (λ q. (refl, exit_code-injective t s q), λ q. cc q.1)
    | inr (e, p) ↦ rw p (λ q. absurd (exit_code-ne-two s q), λ q. cc q.0)
  ]

  pub with_file-Says_iff :
      (path : String) (rest : List ℕ → Output) (r : Result String (List ℕ)) (s : VerificationStatus)
      → Says (with_file path rest r) s ↔ ((bytes : List ℕ) × (r ≡ ok bytes) × Says (rest bytes) s)
  with_file-Says_iff path rest (ok bytes) s = (λ q. (bytes, refl, q), λ q. cc (q.1, q.2))
  with_file-Says_iff path rest (err e) s = (λ q. absurd (exit_code-ne-two s q), λ q. cc q.1)

  module _ ⦃x : External⦄ where
    -- A canonical form that standard output takes, of a result with the status.
    abbrev pub Emits :
        Result VerifyError (List ℕ) → VerificationStatus → VerificationStatus → Type 0
    Emits canonical status s =
        (bytes : List ℕ) × (canonical ≡ ok bytes) × IsWritten bytes × (status ≡ s)

    pub emit_canonical-Says_iff :
        (canonical : Result VerifyError (List ℕ)) (notes : List String) (t s : VerificationStatus)
        → Says (emit_canonical canonical notes t) s ↔ Emits canonical t s
    emit_canonical-Says_iff (err e) notes t s = (λ q. absurd (exit_code-ne-two s q), λ q. cc q.1)
    emit_canonical-Says_iff (ok bytes) notes t s =
        let line = write_line-Says_iff bytes notes t s in
        (
          λ q. let (a, b) = line.0 q in (bytes, refl, a, b),
          λ q. let (b, e, w, v) = q in line.1 (cc (e, w), v),
        )

    open x use {JcsError, to_canon_bytes_from_slice}

    -- The canonical form of the metadata is written.
    abbrev pub CanonicalReports : List ℕ → VerificationStatus → Type 0
    CanonicalReports json s =
        (canonical : List ℕ) × (to_canon_bytes_from_slice json ≡ ok canonical)
        × IsWritten canonical
        × (valid ≡ s)

    canonical_line-Says_iff :
        (made : Result JcsError (List ℕ)) (s : VerificationStatus)
        → Says (canonical_line made) s
          ↔ ((canonical : List ℕ) × (made ≡ ok canonical) × IsWritten canonical × (valid ≡ s))
    canonical_line-Says_iff (err e) s = (λ q. absurd (exit_code-ne-two s q), λ q. cc q.1)
    canonical_line-Says_iff (ok canonical) s =
        let line = write_line-Says_iff canonical [] valid s in
        (
          λ q. let (a, b) = line.0 q in (canonical, refl, a, b),
          λ q. let (c, e, w, v) = q in line.1 (cc (e, w), v),
        )

    module _ ⦃f : Formats⦄ where
      open f use {
        signature_from_slice, bundle_from_slice, layered_from_slice, decision_from_slice,
        closure_from_slice,
      }

      -- The report on a signed receipt under a trust configuration.
      abbrev pub TrustedReports :
          AuthoritySet × TrustPolicy → List ℕ → List ℕ → VerificationStatus → Type 0
      TrustedReports (authorities, policy) raw sig s =
          let result =
            verify_signed_receipt_with_trust signature_from_slice raw sig authorities policy in
          Emits (result_to_canon_bytes result) result.status s

      -- The report on a signed receipt, with its bytes and those of the signature.
      abbrev pub SignedReports : Option String → List ℕ → List ℕ → VerificationStatus → Type 0
      SignedReports none raw sig s =
          let result = verify_signed_receipt signature_from_slice raw sig in
          Emits (result_to_canon_bytes result) result.status s
      SignedReports (some path) raw sig s =
          (config : AuthoritySet × TrustPolicy) × (load_trust_config path ≡ ok config)
          × TrustedReports config raw sig s

      with_trust-Says_iff :
          (path : String) (raw sig : List ℕ) (loaded : Result String (AuthoritySet × TrustPolicy))
          (s : VerificationStatus)
          → Says (with_trust path raw sig loaded) s ↔ (
              (config : AuthoritySet × TrustPolicy) × (loaded ≡ ok config)
              × TrustedReports config raw sig s)
      with_trust-Says_iff path raw sig (err e) s = (λ q. absurd (exit_code-ne-two s q), λ q. cc q.1)
      with_trust-Says_iff path raw sig (ok (authorities, policy)) s =
          let emitted = emit_canonical-Says_iff _ _ _ s in
          (
            λ q. ((authorities, policy), refl, emitted.0 q),
            λ q. emitted.1 (subst (λ c. TrustedReports c raw sig s) (sym (ok-injective q.1)) q.2),
          )

      pub signed_output-Says_iff :
          (trust : Option String) (raw sig : List ℕ) (s : VerificationStatus)
          → Says (signed_output trust raw sig) s ↔ SignedReports trust raw sig s
      signed_output-Says_iff none raw sig s = emit_canonical-Says_iff _ _ _ s
      signed_output-Says_iff (some path) raw sig s =
          with_trust-Says_iff path raw sig (load_trust_config path) s

      module _ ⦃p : Packs⦄ ⦃m : Metadata⦄ where
        open m use {VerifiedReceiptMetadata, metadata_to_vec}

        -- The report on an external receipt: a verified one is valid.
        abbrev pub ExternalReports :
            Result ReceiptVerifyError VerifiedReceiptMetadata → VerificationStatus → Type 0
        ExternalReports (ok meta) s =
            (json : List ℕ) × (metadata_to_vec meta ≡ ok json) × CanonicalReports json s
        ExternalReports (err e) s = invalid ≡ s

        canonical_metadata-Says_iff :
            (made : Result String (List ℕ)) (s : VerificationStatus)
            → Says (canonical_metadata made) s
              ↔ ((json : List ℕ) × (made ≡ ok json) × CanonicalReports json s)
        canonical_metadata-Says_iff (err e) s = (λ q. absurd (exit_code-ne-two s q), λ q. cc q.1)
        canonical_metadata-Says_iff (ok json) s =
            let line = canonical_line-Says_iff (to_canon_bytes_from_slice json) s in
            (
              λ q. (json, refl, line.0 q),
              λ q. line.1 (subst (λ j. CanonicalReports j s) (sym (ok-injective q.1)) q.2),
            )

        pub external_output-Says_iff :
            (verified : Result ReceiptVerifyError VerifiedReceiptMetadata) (s : VerificationStatus)
            → Says (external_output verified) s ↔ ExternalReports verified s
        external_output-Says_iff (err e) s =
            (λ q. exit_code-injective invalid s q, λ q. ap exit_code q)
        external_output-Says_iff (ok meta) s = canonical_metadata-Says_iff (metadata_to_vec meta) s

        -- What each command reports, with the arguments from the third on.
        abbrev pub Reports : Command → String → List String → VerificationStatus → Type 0
        Reports receipt path rest s =
            (limits : LimitArgs) × (parse_limit_args rest false ≡ ok limits)
            × ((bytes : List ℕ) × (read path ≡ ok bytes)
                × Emits (result_to_canon_bytes (receipt_result limits bytes))
                    (receipt_result limits bytes).status s)
        Reports chain path rest s =
            (limits : LimitArgs) × (parse_limit_args rest true ≡ ok limits)
            × ((bytes : List ℕ) × (read path ≡ ok bytes)
                × Emits (result_to_canon_bytes (chain_result limits bytes))
                    (chain_result limits bytes).status s)
        Reports signed path [] s = ⊥
        Reports signed path (sig_path ∷ flags) s =
            (trust : Option String) × (parse_trust_arg flags ≡ ok trust)
            × ((raw : List ℕ) × (read path ≡ ok raw)
                × ((sig : List ℕ) × (read sig_path ≡ ok sig) × SignedReports trust raw sig s))
        Reports bundle path rest s =
            (rest ≡ [])
            × ((bytes : List ℕ) × (read path ≡ ok bytes)
                × (let result = verify_bundle (bundle_from_slice bytes) in
                    Emits (bundle_to_canon_bytes result) result.status s))
        Reports layered path rest s =
            (rest ≡ [])
            × ((bytes : List ℕ) × (read path ≡ ok bytes)
                × (let result = verify_layered_pack (layered_from_slice bytes) in
                    Emits (layered_to_canon_bytes result) result.status s))
        Reports decision path rest s =
            (rest ≡ [])
            × ((bytes : List ℕ) × (read path ≡ ok bytes)
                × (let result = verify_decision_pack (decision_from_slice bytes) in
                    Emits (decision_to_canon_bytes result) result.status s))
        Reports closure path rest s =
            (rest ≡ [])
            × ((bytes : List ℕ) × (read path ≡ ok bytes)
                × (let result = verify_closure_bundle (closure_from_slice bytes) in
                    Emits (closure_to_canon_bytes result) result.status s))
        Reports external path rest s =
            (rest ≡ [])
            × ((bytes : List ℕ) × (read path ≡ ok bytes)
                × ExternalReports (verify_external_receipt bytes) s)
