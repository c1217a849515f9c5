-- ===== src/Bundle/Verdict.antt =====
-- src/bundle.rs: when an execution bundle is valid.
use mathlib.Core.List
use vertrule_verifier.Prelude.{
  ◌≡◌, ◌↔◌, refl, String, List, [], ◌∷◌, Result, ok, err, ok-holds_iff, ↔_trans, str_eq, eq_iff,
  All, all, all-true_iff, is_empty, is_empty_iff, append-nil_iff, Bool-cases, inl, inr,
}
use vertrule_verifier.Prelude.Text.{as_bytes}
use vertrule_verifier.External.{External}
use vertrule_verifier.Result.{VerificationResult, valid, is_valid}
use vertrule_verifier.Result.Status.{is_valid_iff, chosen-valid_iff, tested-valid_iff}
use vertrule_verifier.Verify.{verify_receipt}
use vertrule_verifier.Bundle.{
  ExecutionBundle, SidecarDigestCheck, expected_format, invalid_bundle, envelope_errors,
  checks_errors, extract_payload_digests, sidecar_check, all_checks, bundle_result, verify_bundle,
}
use vertrule_verifier.Bundle.Sidecars.{IsMatch, IsBound, trace_checked_iff, policy_checked_iff}

envelope_errors-nil : (r : VerificationResult) → r.status ≡ valid → envelope_errors r ≡ []
envelope_errors-nil r h = rw h

checks_errors-nil_iff : (cs : List SidecarDigestCheck) → (checks_errors cs ≡ []) ↔ All IsMatch cs
checks_errors-nil_iff [] = (λ h. tt, λ h. refl)
checks_errors-nil_iff (c ∷ cs) =
    let rest = checks_errors-nil_iff cs in
    elim (Bool-cases c.matches) [
      | inl p ↦ rw p (λ h. (refl, rest.0 h), λ h. rest.1 h.1)
      | inr p ↦ rw p (λ h. cc, λ h. cc h.0)
    ]

All-++_iff :
    (cs ds : List SidecarDigestCheck)
    → All IsMatch (List.◌++◌ cs ds) ↔ (All IsMatch cs × All IsMatch ds)
All-++_iff [] ds = (λ h. (tt, h), λ h. h.1)
All-++_iff (c ∷ cs) ds =
    let rest = All-++_iff cs ds in
    (λ h. let (a, b) = rest.0 h.1 in ((h.0, a), b), λ h. (h.0.0, rest.1 (h.0.1, h.1)))

module _ ⦃x : External⦄ where
  open x use {
    Number, JcsError, CanonicalDigest, DigestStrategy, from_str, to_canon_digest_with,
    blake3_untagged, hex_encode, digest_bytes,
  }

  -- What makes an execution bundle valid.
  pub record IsValidBundle (bundle : ExecutionBundle Number) : Type 0 where
    pub has_format : bundle.format ≡ expected_format
    pub envelope_valid : (verify_receipt (as_bytes bundle.envelope_canonical)).status ≡ valid
    pub trace_bound :
        IsBound bundle.envelope_canonical "layer_trace_digest" bundle.sidecars.layer_trace
    pub policy_bound :
        IsBound bundle.envelope_canonical "selection_policy_digest" bundle.sidecars.selection_policy

  bundle_result-valid_iff :
      (bundle : ExecutionBundle Number)
      → ((bundle_result bundle).status ≡ valid) ↔ (
          ((verify_receipt (as_bytes bundle.envelope_canonical)).status ≡ valid)
          × All IsMatch
              (all_checks (extract_payload_digests bundle.envelope_canonical) bundle.sidecars))
  bundle_result-valid_iff bundle =
      let r = verify_receipt (as_bytes bundle.envelope_canonical) in
      let checks = all_checks (extract_payload_digests bundle.envelope_canonical) bundle.sidecars in
      let errors = List.◌++◌ (envelope_errors r) (checks_errors checks) in
      let chosen =
        chosen-valid_iff (is_valid r.status) (is_empty errors) (all (λ c. c.matches) checks) in
      (
        λ h.
            let (a, b, c) = chosen.0 h in
            ((is_valid_iff r.status).0 a, (all-true_iff (λ c. c.matches) checks).0 c),
        λ h. chosen.1 (
          (is_valid_iff r.status).1 h.0,
          (is_empty_iff errors).1 (
              (append-nil_iff (envelope_errors r) (checks_errors checks)).1
                (envelope_errors-nil r h.0, (checks_errors-nil_iff checks).1 h.1)),
          (all-true_iff (λ c. c.matches) checks).1 h.1,
        ),
      )

  valid_iff :
      (bundle : ExecutionBundle Number)
      → ((verify_bundle (ok bundle)).status ≡ valid) ↔ IsValidBundle bundle
  unfolding verify_bundle
  valid_iff bundle =
      let format = eq_iff bundle.format expected_format in
      let digests = extract_payload_digests bundle.envelope_canonical in
      let trace =
        sidecar_check "layer_trace" digests.layer_trace_digest bundle.sidecars.layer_trace in
      let policy =
        sidecar_check "selection_policy" digests.selection_policy_digest
          bundle.sidecars.selection_policy in
      let both = All-++_iff trace policy in
      let trace_iff = trace_checked_iff bundle.envelope_canonical bundle.sidecars.layer_trace in
      let policy_iff =
        policy_checked_iff bundle.envelope_canonical bundle.sidecars.selection_policy in
      let inner = bundle_result-valid_iff bundle in
      let tested =
        tested-valid_iff (λ r. r.status) (str_eq bundle.format expected_format) (invalid_bundle _)
          (bundle_result bundle) refl in
      (
        λ h.
            let (q, r) = tested.0 h in
            let (v, m) = inner.0 r in
            let (a, b) = both.0 m in
            record {
              has_format = format.0 q;
              envelope_valid = v;
              trace_bound = trace_iff.0 a;
              policy_bound = policy_iff.0 b;
            },
        λ h. tested.1 (
          format.1 h.has_format,
          inner.1
              (h.envelope_valid, both.1 (trace_iff.1 h.trace_bound, policy_iff.1 h.policy_bound)),
        ),
      )

  -- An execution bundle is reported valid exactly when it parses, has the expected format, its
  -- envelope is a receipt that is reported valid, and the layer trace and the selection policy, each
  -- if it is there, have the digest that the payload of the envelope declares as a text under
  -- `layer_trace_digest` and `selection_policy_digest`, where it declares one. The digest is that of
  -- the canonical form, in hexadecimal; a sidecar that has none counts as one with the empty digest.
  pub verify_bundle-valid_iff :
      (parsed : Result String (ExecutionBundle Number))
      → ((verify_bundle parsed).status ≡ valid)
        ↔ ((bundle : ExecutionBundle Number) × (parsed ≡ ok bundle) × IsValidBundle bundle)
  unfolding verify_bundle
  verify_bundle-valid_iff (err e) = (λ h. cc, λ h. cc h.1)
  verify_bundle-valid_iff (ok bundle) =
      ↔_trans (valid_iff bundle) (ok-holds_iff IsValidBundle bundle)
