-- ===== src/MriProfile/Payloads.antt =====
-- src/mri_profile.rs: when a payload is accepted.
use vertrule_verifier.Prelude.{
  ℕ, ◌≤◌, ◌<◌, ◌≡◌, ◌↔◌, refl, sym, subst, true, String, Result, ok, err, ◌>>◌, length, ◌==◌,
  str_eq, eq_iff, arith, All, >>=-ok_iff, >>-ok_iff, guard-ok_iff, ↔_trans, ×_iff, if◌then◌else◌,
  Bool-cases, inl, inr,
}
use vertrule_verifier.External.{External}
use vertrule_verifier.Error.{VerifyError}
use vertrule_verifier.MriProfile.{
  MriBatchPayload, GradientCouplingPayload, gradient_coupling_schema, is_finite, in_unit,
  checked_len, check_schema, validate_mri_batch_payload, validate_gradient_coupling_payload,
}
use vertrule_verifier.MriProfile.Shapes.{
  HasBatchLength, IsFinite, checked_len-ok_iff, same_length-ok_iff, check_vector_field-ok_iff,
  check_all_finite-ok_iff, check_cosine-ok_iff,
}

-- A step that holds exactly for `A`, then the others, which hold exactly for `B`.
then_iff :
    {E A B : Type 0} {m k : Result E (Unit {0})}
    → (m ≡ ok tt) ↔ A
    → (k ≡ ok tt) ↔ B
    → ((m >> k) ≡ ok tt) ↔ (A × B)
then_iff {m = m} {k = k} f g = ↔_trans (>>-ok_iff m k tt) (×_iff f g)

module _ ⦃x : External⦄ (usize_max : ℕ) (f32_display : ℕ → String) where
  -- An MRI batch payload is accepted exactly when each of its four vectors and its mask, where it
  -- is there, has the length `batch_len`, which is then there and fits a `usize`.
  pub validate_mri_batch_payload-ok_iff :
      (p : MriBatchPayload)
      → (validate_mri_batch_payload usize_max f32_display p ≡ ok tt) ↔ (
          HasBatchLength usize_max p.batch_len p.q_per_example
          × (HasBatchLength usize_max p.batch_len p.e_per_example
              × (HasBatchLength usize_max p.batch_len p.h_per_example
                  × (HasBatchLength usize_max p.batch_len p.c_per_example
                      × HasBatchLength usize_max p.batch_len p.degenerate_mask))))
  unfolding validate_mri_batch_payload
  validate_mri_batch_payload-ok_iff p =
      let n = p.batch_len in
      then_iff (check_vector_field-ok_iff usize_max f32_display n p.q_per_example _) (
        then_iff (check_vector_field-ok_iff usize_max f32_display n p.e_per_example _) (
          then_iff (check_vector_field-ok_iff usize_max f32_display n p.h_per_example _) (
            then_iff (check_vector_field-ok_iff usize_max f32_display n p.c_per_example _)
              (check_vector_field-ok_iff usize_max f32_display n p.degenerate_mask _))))

  check_schema-ok_iff :
      (schema : String)
      → (check_schema usize_max f32_display schema ≡ ok tt) ↔ (schema ≡ gradient_coupling_schema)
  unfolding check_schema
  check_schema-ok_iff schema =
      let guard = guard-ok_iff (str_eq schema gradient_coupling_schema) (ok tt) _ tt in
      let same = eq_iff schema gradient_coupling_schema in
      (λ h. same.0 (guard.0 h).0, λ h. guard.1 (same.1 h, refl))

  nonzero-ok_iff :
      (n : ℕ) (e : VerifyError)
      → (◌≡◌ {A = Result VerifyError (Unit {0})} (if n == 0 then err e else ok tt) (ok tt))
        ↔ (0 < n)
  nonzero-ok_iff n e = elim (Bool-cases (n == 0)) [
    | inl q ↦ (λ h. ground (arith, q, h), λ h. ground (arith, q, h))
    | inr q ↦ (λ h. ground (arith, q), λ h. rw q)
  ]

  -- What the checks of the vectors and the cosine accept, for a number of layers.
  abbrev pub HasLayers : ℕ → GradientCouplingPayload → Type 0
  HasLayers n p =
      (length p.grad_q_norms ≡ n)
      × ((length p.grad_lm_norms ≡ n)
          × ((length p.coupling_ratios ≡ n)
              × (All IsFinite p.grad_q_norms
                  × (All IsFinite p.grad_lm_norms
                      × (All IsFinite p.coupling_ratios
                          × ((is_finite p.profile_cosine ≡ true)
                              × (in_unit p.profile_cosine ≡ true)))))))

  -- A gradient-coupling payload is accepted exactly when it names its schema, has at least one
  -- layer and a number of layers that fits a `usize`, its three vectors have one finite number for
  -- each layer, and its cosine is finite and within [-1, 1].
  pub validate_gradient_coupling_payload-ok_iff :
      (p : GradientCouplingPayload)
      → (validate_gradient_coupling_payload usize_max f32_display p ≡ ok tt) ↔ (
          (p.schema ≡ gradient_coupling_schema)
          × ((0 < p.num_layers) × ((p.num_layers ≤ usize_max) × HasLayers p.num_layers p)))
  unfolding validate_gradient_coupling_payload
  validate_gradient_coupling_payload-ok_iff p =
      let vectors : (n : ℕ) → _ ↔ HasLayers n p = λ n.
        then_iff
          (same_length-ok_iff usize_max f32_display "grad_q_norms" (length p.grad_q_norms)
            "num_layers" n)
          (then_iff
            (same_length-ok_iff usize_max f32_display "grad_lm_norms" (length p.grad_lm_norms)
              "num_layers" n)
            (then_iff
              (same_length-ok_iff usize_max f32_display "coupling_ratios" (length p.coupling_ratios)
                "num_layers" n)
              (then_iff
                (check_all_finite-ok_iff usize_max f32_display p.grad_q_norms "grad_q_norms")
                (then_iff
                  (check_all_finite-ok_iff usize_max f32_display p.grad_lm_norms "grad_lm_norms")
                  (then_iff
                    (check_all_finite-ok_iff usize_max f32_display p.coupling_ratios
                      "coupling_ratios")
                    (check_cosine-ok_iff usize_max f32_display p.profile_cosine)))))) in
      then_iff (check_schema-ok_iff p.schema) (
        then_iff (nonzero-ok_iff p.num_layers _) (
          λ h.
              let (n, q, r) =
                (>>=-ok_iff (checked_len usize_max f32_display "num_layers" p.num_layers) _ tt).0
                  h in
              let (fits, same) =
                (checked_len-ok_iff usize_max f32_display "num_layers" p.num_layers n).0 q in
              (fits, subst (λ k. HasLayers k p) (sym same) ((vectors n).0 r)),
          λ h. (>>=-ok_iff (checked_len usize_max f32_display "num_layers" p.num_layers) _ tt).1 (
            p.num_layers,
            (checked_len-ok_iff usize_max f32_display "num_layers" p.num_layers p.num_layers).1
                (h.0, refl),
            (vectors p.num_layers).1 h.1,
          ),
        ))
