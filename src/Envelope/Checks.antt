-- ===== src/Envelope/Checks.antt =====
-- src/envelope.rs: what each check on an envelope accepts.
use vertrule_verifier.Prelude.{
  String, ◌≡◌, ◌↔◌, refl, Bool, true, Option, none, some, ok, err, map_err, str_eq, eq_iff,
  guard-ok_iff, >>=-ok_iff, >>-ok_iff, map_err-ok_iff, ×_iff, ↔_trans, if◌then◌else◌,
}
use vertrule_verifier.External.{External}
use vertrule_verifier.Error.{
  VerifyError, canon, event_hash_mismatch, digest_algorithm_mismatch, canonicalization_mismatch,
}
use vertrule_verifier.Envelope.{
  verify_event_hash, verify_envelope_version, verify_algorithms, check_declared, same_hash,
  validate_receipt_envelope_integrity,
}

module _ ⦃x : External⦄ where
  open x use {
    Digest, ReceiptEnvelope, SchemaVersion, digest_eq, digest_eq_iff, version_eq, version_eq_iff,
    version_number, v1, envelope_version, event_hash, digest_algorithm, canonicalization,
    expected_digest_algorithm, expected_canonicalization, compute_event_hash,
  }

  -- A marker, where it is declared, is the expected one.
  abbrev pub Declares : Option String → String → Type 0
  Declares declared expected = (t : String) → declared ≡ some t → t ≡ expected

  -- Both algorithm markers agree with the version.
  abbrev pub HasAlgorithms : ReceiptEnvelope → Type 0
  HasAlgorithms e =
      Declares (digest_algorithm e) (expected_digest_algorithm (envelope_version e))
      × Declares (canonicalization e) (expected_canonicalization (envelope_version e))

  -- The declared event hash is the recomputed one.
  abbrev pub HasEventHash : ReceiptEnvelope → Type 0
  HasEventHash e = compute_event_hash e ≡ ok (event_hash e)

  -- The three checks that every entry point makes on an envelope.
  abbrev pub IsSound : ReceiptEnvelope → Type 0
  IsSound e = (envelope_version e ≡ v1) × HasAlgorithms e × HasEventHash e

  guard_tt_iff : (b : Bool) (e : VerifyError) → ((if b then ok tt else err e) ≡ ok tt) ↔ (b ≡ true)
  guard_tt_iff b e =
      let guarded = guard-ok_iff b (ok tt) e tt in (λ h. (guarded.0 h).0, λ h. guarded.1 (h, refl))

  pub verify_envelope_version-ok_iff :
      (e : ReceiptEnvelope) → (verify_envelope_version e ≡ ok tt) ↔ (envelope_version e ≡ v1)
  unfolding verify_envelope_version
  verify_envelope_version-ok_iff e =
      ↔_trans (guard_tt_iff (version_eq (envelope_version e) v1) _)
        (version_eq_iff (envelope_version e) v1)

  check_declared-ok_iff :
      (declared : Option String) (expected : String) (f : String → String → VerifyError)
      → (check_declared declared expected f ≡ ok tt) ↔ Declares declared expected
  check_declared-ok_iff none expected f = (λ h t e. cc, λ h. refl)
  check_declared-ok_iff (some s) expected f =
      let guarded = guard_tt_iff (str_eq s expected) (f s expected) in
      (
        λ h t e. cc (e, (eq_iff s expected).0 (guarded.0 h)),
        λ h. guarded.1 ((eq_iff s expected).1 (h s refl)),
      )

  pub verify_algorithms-ok_iff :
      (e : ReceiptEnvelope) → (verify_algorithms e ≡ ok tt) ↔ HasAlgorithms e
  unfolding verify_algorithms
  verify_algorithms-ok_iff e =
      let version = envelope_version e in
      ↔_trans
        (>>-ok_iff
          (check_declared (digest_algorithm e) (expected_digest_algorithm version)
            digest_algorithm_mismatch)
          _ tt)
        (×_iff
          (check_declared-ok_iff (digest_algorithm e) (expected_digest_algorithm version)
            digest_algorithm_mismatch)
          (check_declared-ok_iff (canonicalization e) (expected_canonicalization version)
            canonicalization_mismatch))

  pub verify_event_hash-ok_iff :
      (e : ReceiptEnvelope) → (verify_event_hash e ≡ ok tt) ↔ HasEventHash e
  unfolding verify_event_hash
  verify_event_hash-ok_iff e =
      let computed = compute_event_hash e in
      let steps = >>=-ok_iff (map_err canon computed) (same_hash e) tt in
      let same = λ (d : Digest).
        ↔_trans (guard_tt_iff (digest_eq d (event_hash e)) (event_hash_mismatch (event_hash e) d))
          (digest_eq_iff d (event_hash e)) in
      (
        λ h.
            let (d, p, q) = steps.0 h in
            let equal : d ≡ event_hash e = (same d).0 q in
            cc ((map_err-ok_iff canon computed d).0 p),
        λ h. steps.1 (
          event_hash e,
          (map_err-ok_iff canon computed (event_hash e)).1 h,
          (same (event_hash e)).1 refl,
        ),
      )

  -- The integrity check accepts an envelope exactly when its algorithm markers, where declared, are
  -- those of its version, and its event hash is the recomputed one; it does not read the version.
  pub integrity-ok_iff :
      (e : ReceiptEnvelope)
      → (validate_receipt_envelope_integrity e ≡ ok tt) ↔ (HasAlgorithms e × HasEventHash e)
  unfolding validate_receipt_envelope_integrity
  integrity-ok_iff e = ↔_trans (>>-ok_iff (verify_algorithms e) _ tt) (
      ×_iff (verify_algorithms-ok_iff e) (
        ↔_trans (>>-ok_iff (verify_event_hash e) (ok tt) tt)
          (λ h. (verify_event_hash-ok_iff e).0 h.0, λ h. ((verify_event_hash-ok_iff e).1 h, refl))))
