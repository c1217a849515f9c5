-- ===== src/Verify/Accumulate.antt =====
-- src/verify.rs: how the checks accumulate into one result.
use vertrule_verifier.Prelude.{
  ℕ, ◌+◌, ◌≡◌, ◌≢◌, ◌↔◌, refl, sym, ◌∙◌, Bool, true, String, List, [], ◌∷◌, ◌++◌, Result, ok, err,
  is_ok, All, ×_iff, ↔_trans, &&-true_iff,
}
use vertrule_verifier.External.{External}
use vertrule_verifier.Error.{VerifyError, to_string}
use vertrule_verifier.Envelope.{verify_envelope_version, verify_algorithms, verify_event_hash}
use vertrule_verifier.Envelope.Checks.{
  IsSound, HasEventHash, verify_envelope_version-ok_iff, verify_algorithms-ok_iff,
  verify_event_hash-ok_iff,
}
use vertrule_verifier.Result.{VerificationResult, valid, invalid, add_error, valid_single}
use vertrule_verifier.Verify.{
  note_error, mark_hashes, verify_single_envelope, per_envelope_step, check_per_envelope,
  add_errors, at_envelope,
}

append-ne-nil : {A : Type 0} (xs : List A) (a : A) → xs ++ a ∷ [] ≢ []
append-ne-nil [] a h = cc
append-ne-nil (y ∷ ys) a h = cc

pub cons-ne-nil : {A : Type 0} {a : A} {xs : List A} → a ∷ xs ≢ []
cons-ne-nil h = cc

pub invalid-ne-valid : invalid ≢ valid
invalid-ne-valid h = cc

-- A result is valid exactly when it reports no error.
pub record IsConsistent (r : VerificationResult) : Type 0 where
  pub agrees : (r.status ≡ valid) ↔ (r.errors ≡ [])

pub add_error-IsConsistent : (r : VerificationResult) (e : String) → IsConsistent (add_error r e)
add_error-IsConsistent r e = record { agrees = (λ h. cc, λ h. absurd (append-ne-nil r.errors e h)) }

module _ ⦃x : External⦄ where
  open x use {ReceiptEnvelope}

  pub note_error-valid_iff :
      (text : VerifyError → String) (m : Result VerifyError (Unit {0})) (r : VerificationResult)
      → ((note_error text m r).status ≡ valid) ↔ ((r.status ≡ valid) × (m ≡ ok tt))
  note_error-valid_iff text (ok tt) r = (λ h. (h, refl), λ h. h.0)
  note_error-valid_iff text (err e) r = (λ h. cc, λ h. cc)

  pub note_error-IsConsistent :
      (text : VerifyError → String) (m : Result VerifyError (Unit {0})) (r : VerificationResult)
      → IsConsistent r
      → IsConsistent (note_error text m r)
  note_error-IsConsistent text (ok tt) r h = h
  note_error-IsConsistent text (err e) r h = add_error-IsConsistent r (text e)

  mark_hashes-status :
      (m : Result VerifyError (Unit {0})) (r : VerificationResult)
      → (mark_hashes m r).status ≡ r.status
  mark_hashes-status (ok tt) r = refl
  mark_hashes-status (err e) r = refl

  mark_hashes-IsConsistent :
      (m : Result VerifyError (Unit {0})) (r : VerificationResult)
      → IsConsistent r
      → IsConsistent (mark_hashes m r)
  mark_hashes-IsConsistent (ok tt) r h = h
  mark_hashes-IsConsistent (err e) r h = record { agrees = h.agrees }

  -- The version and algorithm checks on an envelope, noted in a result.
  named-valid_iff :
      (text : VerifyError → String) (e : ReceiptEnvelope) (r : VerificationResult)
      → ((note_error text
            (verify_algorithms e)
            (note_error text (verify_envelope_version e) r)).status
          ≡ valid)
        ↔ (((r.status ≡ valid) × (verify_envelope_version e ≡ ok tt))
            × (verify_algorithms e ≡ ok tt))
  named-valid_iff text e r =
      ↔_trans
        (note_error-valid_iff text (verify_algorithms e)
          (note_error text (verify_envelope_version e) r))
        (×_iff (note_error-valid_iff text (verify_envelope_version e) r) (λ h. h, λ h. h))

  IsSound-iff :
      (e : ReceiptEnvelope)
      → ((verify_envelope_version e ≡ ok tt)
          × (verify_algorithms e ≡ ok tt)
          × (verify_event_hash e ≡ ok tt))
        ↔ IsSound e
  IsSound-iff e =
      let version = verify_envelope_version-ok_iff e in
      let named = verify_algorithms-ok_iff e in
      let hashed = verify_event_hash-ok_iff e in
      (
        λ h. (version.0 h.0, named.0 h.1, hashed.0 h.2),
        λ h. (version.1 h.0, named.1 h.1, hashed.1 h.2),
      )

  -- The result for one envelope is valid exactly when the three checks on it pass.
  pub single-valid_iff :
      (e : ReceiptEnvelope) → ((verify_single_envelope e).status ≡ valid) ↔ IsSound e
  unfolding verify_single_envelope
  single-valid_iff e =
      let named = named-valid_iff to_string e valid_single in
      let hashed = note_error-valid_iff to_string (verify_event_hash e) (
        mark_hashes (verify_event_hash e) (
          note_error to_string (verify_algorithms e)
            (note_error to_string (verify_envelope_version e) valid_single))) in
      let marked = mark_hashes-status (verify_event_hash e) (
        note_error to_string (verify_algorithms e)
          (note_error to_string (verify_envelope_version e) valid_single)) in
      (
        λ h.
            let (p, q) = hashed.0 h in
            let (before, algorithms) = named.0 (sym marked ∙ p) in
            (IsSound-iff e).0 (before.1, algorithms, q),
        λ h.
            let (version, algorithms, hash) = (IsSound-iff e).1 h in
            hashed.1 (marked ∙ named.1 ((refl, version), algorithms), hash),
      )

  pub single-IsConsistent : (e : ReceiptEnvelope) → IsConsistent (verify_single_envelope e)
  unfolding verify_single_envelope
  single-IsConsistent e = note_error-IsConsistent _ (verify_event_hash e) _ (
      mark_hashes-IsConsistent (verify_event_hash e) _ (
        note_error-IsConsistent _ (verify_algorithms e) _ (
          note_error-IsConsistent _ (verify_envelope_version e) _
            (record { agrees = (λ h. refl, λ h. refl) }))))

  pub add_errors-valid_iff :
      (r : VerificationResult) (es : List VerifyError)
      → ((add_errors r es).status ≡ valid) ↔ ((r.status ≡ valid) × (es ≡ []))
  unfolding add_errors
  add_errors-valid_iff r [] = (λ h. (h, refl), λ h. h.0)
  add_errors-valid_iff r (e ∷ es) =
      let ih = add_errors-valid_iff (add_error r (to_string e)) es in
      (λ h. absurd (invalid-ne-valid (ih.0 h).0), λ h. absurd (cons-ne-nil h.1))

  pub add_errors-IsConsistent :
      (r : VerificationResult) (es : List VerifyError)
      → IsConsistent r
      → IsConsistent (add_errors r es)
  unfolding add_errors
  add_errors-IsConsistent r [] h = h
  add_errors-IsConsistent r (e ∷ es) h =
      add_errors-IsConsistent (add_error r _) es (add_error-IsConsistent r _)

  -- A round keeps a result valid exactly when the envelope is sound, and its flag tells the hash.
  step-valid_iff :
      (i : ℕ) (e : ReceiptEnvelope) (r : VerificationResult) (b : Bool)
      → ((per_envelope_step i e (r, b)).0.status ≡ valid) ↔ ((r.status ≡ valid) × IsSound e)
  unfolding per_envelope_step
  step-valid_iff i e r b =
      let named = named-valid_iff (at_envelope i) e r in
      let hashed = note_error-valid_iff (at_envelope i) (verify_event_hash e) (
        note_error (at_envelope i) (verify_algorithms e)
          (note_error (at_envelope i) (verify_envelope_version e) r)) in
      (
        λ h.
            let (p, q) = hashed.0 h in
            let (before, algorithms) = named.0 p in
            (before.0, (IsSound-iff e).0 (before.1, algorithms, q)),
        λ h.
            let (version, algorithms, hash) = (IsSound-iff e).1 h.1 in
            hashed.1 (named.1 ((h.0, version), algorithms), hash),
      )

  is_ok_iff : (m : Result VerifyError (Unit {0})) → (is_ok m ≡ true) ↔ (m ≡ ok tt)
  is_ok_iff (ok tt) = (λ h. refl, λ h. refl)
  is_ok_iff (err e) = (λ h. cc, λ h. cc)

  step-hashes_iff :
      (i : ℕ) (e : ReceiptEnvelope) (r : VerificationResult) (b : Bool)
      → ((per_envelope_step i e (r, b)).1 ≡ true) ↔ ((b ≡ true) × HasEventHash e)
  unfolding per_envelope_step
  step-hashes_iff i e r b = ↔_trans (&&-true_iff b (is_ok (verify_event_hash e))) (
      ×_iff (λ h. h, λ h. h)
        (↔_trans (is_ok_iff (verify_event_hash e)) (verify_event_hash-ok_iff e)))

  pub per_envelope-valid_iff :
      (i : ℕ) (es : List ReceiptEnvelope) (r : VerificationResult) (b : Bool)
      → ((check_per_envelope i es (r, b)).0.status ≡ valid) ↔ ((r.status ≡ valid) × All IsSound es)
  unfolding check_per_envelope
  per_envelope-valid_iff i [] r b = (λ h. (h, tt), λ h. h.0)
  per_envelope-valid_iff i (e ∷ es) r b =
      let (r', b') = per_envelope_step i e (r, b) in
      let ih = per_envelope-valid_iff (i + 1) es r' b' in
      let step = step-valid_iff i e r b in
      (
        λ h.
            let (p, others) = ih.0 h in let (before, sound) = step.0 p in (before, (sound, others)),
        λ h. ih.1 (step.1 (h.0, h.1.0), h.1.1),
      )

  pub per_envelope-hashes_iff :
      (i : ℕ) (es : List ReceiptEnvelope) (r : VerificationResult) (b : Bool)
      → ((check_per_envelope i es (r, b)).1 ≡ true) ↔ ((b ≡ true) × All HasEventHash es)
  unfolding check_per_envelope
  per_envelope-hashes_iff i [] r b = (λ h. (h, tt), λ h. h.0)
  per_envelope-hashes_iff i (e ∷ es) r b =
      let (r', b') = per_envelope_step i e (r, b) in
      let ih = per_envelope-hashes_iff (i + 1) es r' b' in
      let step = step-hashes_iff i e r b in
      (
        λ h.
            let (p, others) = ih.0 h in
            let (before, matches) = step.0 p in (before, (matches, others)),
        λ h. ih.1 (step.1 (h.0, h.1.0), h.1.1),
      )

  pub per_envelope-IsConsistent :
      (i : ℕ) (es : List ReceiptEnvelope) (r : VerificationResult) (b : Bool)
      → IsConsistent r
      → IsConsistent (check_per_envelope i es (r, b)).0
  unfolding check_per_envelope
  per_envelope-IsConsistent i [] r b h = h
  per_envelope-IsConsistent i (e ∷ es) r b h =
      per_envelope-IsConsistent (i + 1) es (per_envelope_step i e (r, b)).0
        (per_envelope_step i e (r, b)).1
        (note_error-IsConsistent _ (verify_event_hash e) _ (
          note_error-IsConsistent _ (verify_algorithms e) _
            (note_error-IsConsistent _ (verify_envelope_version e) _ h)))
