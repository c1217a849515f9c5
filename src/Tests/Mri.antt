-- ===== src/Tests/Mri.antt =====
-- The theorems on MRI payloads, applied to concrete inputs: 1065353216 are the bits of 1.
use vertrule_verifier.Prelude.{◌≡◌, refl, none, some, [], ◌∷◌, ok, arith}
use vertrule_verifier.Prelude.Text.{display}
use vertrule_verifier.MriProfile.{
  MriBatchPayload, GradientCouplingPayload, validate_mri_batch_payload,
  validate_gradient_coupling_payload,
}
use vertrule_verifier.MriProfile.Shapes.{HasBatchLength}
use vertrule_verifier.MriProfile.Payloads.{
  validate_mri_batch_payload-ok_iff, validate_gradient_coupling_payload-ok_iff,
}
use vertrule_verifier.Tests.World.{toy}

abbrev batch : MriBatchPayload
batch = record {
  batch_len = some 2;
  q_per_example = some (1 ∷ 2 ∷ []);
  e_per_example = none;
  h_per_example = none;
  c_per_example = none;
  degenerate_mask = some (0 ∷ 1 ∷ []);
}

validate_mri_batch_payload-ok_iff_example :
    validate_mri_batch_payload ⦃x = toy⦄ 100 display batch ≡ ok tt
unfolding HasBatchLength
validate_mri_batch_payload-ok_iff_example =
    (validate_mri_batch_payload-ok_iff ⦃x = toy⦄ 100 display batch).1
      ((2, refl, omega arith, refl), (tt, (tt, (tt, (2, refl, omega arith, refl)))))

abbrev coupling : GradientCouplingPayload
coupling = record {
  schema = "vr.mri.gradient_coupling@0.1";
  num_layers = 1;
  grad_q_norms = 1_065_353_216 ∷ [];
  grad_lm_norms = 0 ∷ [];
  coupling_ratios = 5 ∷ [];
  profile_cosine = 1_065_353_216;
}

validate_gradient_coupling_payload-ok_iff_example :
    validate_gradient_coupling_payload ⦃x = toy⦄ 100 display coupling ≡ ok tt
validate_gradient_coupling_payload-ok_iff_example =
    (validate_gradient_coupling_payload-ok_iff ⦃x = toy⦄ 100 display coupling).1 (
      refl,
      (
        omega arith,
        (
          omega arith,
          (refl, (refl, (refl, ((refl, tt), ((refl, tt), ((refl, tt), (refl, refl))))))),
        ),
      ),
    )
