-- ===== src/MriProfile.antt =====
-- src/mri_profile.rs: the shapes and the numbers of two payloads of MRI receipts. An `f32` is given
-- by its 32 bits, a natural number under 2 ^ 32: it is finite where the 8 bits of the exponent are
-- not all set, and within [-1, 1] where the bits below the sign are at most those of 1.
pub mod Shapes
pub mod Payloads
use Prim.Native.String.{◌++◌}
use vertrule_verifier.Prelude.{
  ℕ, ◌+◌, ◌/◌, ◌%◌, ◌^◌, Bool, true, false, not, String, Option, none, some, List, [], ◌∷◌, Result,
  ok, err, ◌>>=◌, ◌>>◌, length, ltb, leb, ◌==◌, str_eq, if◌then◌else◌,
}
use vertrule_verifier.Prelude.Text.{display}
use vertrule_verifier.External.{External}
use vertrule_verifier.Error.{VerifyError, payload_shape_mismatch}

abbrev gradient_coupling_schema : String
gradient_coupling_schema = "vr.mri.gradient_coupling@0.1"

-- The fields of `vertrule_schemas::MriBatchPayload` that the code reads.
pub record MriBatchPayload : Type 0 where
  pub batch_len : Option ℕ
  pub q_per_example : Option (List ℕ)
  pub e_per_example : Option (List ℕ)
  pub h_per_example : Option (List ℕ)
  pub c_per_example : Option (List ℕ)
  pub degenerate_mask : Option (List ℕ)

-- The fields of `vertrule_schemas::GradientCouplingPayload` that the code reads.
pub record GradientCouplingPayload : Type 0 where
  pub schema : String
  pub num_layers : ℕ
  pub grad_q_norms : List ℕ
  pub grad_lm_norms : List ℕ
  pub coupling_ratios : List ℕ
  pub profile_cosine : ℕ

-- `f32::from_bits(bits).is_finite()`
abbrev pub is_finite : ℕ → Bool
is_finite bits = not (((bits / 8_388_608) % 256) == 255)

-- `(-1.0..=1.0).contains(&f32::from_bits(bits))`, of a finite number
abbrev pub in_unit : ℕ → Bool
in_unit bits = leb (bits % 2_147_483_648) 1_065_353_216

-- `usize::MAX` of the target, and `{}` of an `f32`
module _ ⦃x : External⦄ (usize_max : ℕ) (f32_display : ℕ → String) where
  pub checked_len : String → ℕ → Result VerifyError ℕ
  checked_len name value =
      if leb value usize_max
      then ok value
      else err (payload_shape_mismatch (name ++ " does not fit in usize"))

  -- The comparison of a length with the one that is expected.
  abbrev pub same_length : String → ℕ → String → ℕ → Result VerifyError (Unit {0})
  same_length name actual whole expected =
      if actual == expected
      then ok tt
      else err (
          payload_shape_mismatch (
            name
            ++ " length "
            ++ display actual
            ++ " does not match "
            ++ whole
            ++ " "
            ++ display expected))

  -- `check_vector_field`; the length of the mask is checked in the same way.
  pub check_vector_field : Option ℕ → Option (List ℕ) → String → Result VerifyError (Unit {0})
  unfolding checked_len
  check_vector_field batch_len none name = ok tt
  check_vector_field none (some vec) name =
      err (payload_shape_mismatch (name ++ " present but batch_len is absent"))
  check_vector_field (some batch_len) (some vec) name = do
    expected ← checked_len "batch_len" batch_len
    same_length name (length vec) "batch_len" expected

  unfoldable pub validate_mri_batch_payload : MriBatchPayload → Result VerifyError (Unit {0})
  unfolding check_vector_field checked_len
  validate_mri_batch_payload payload = do
    check_vector_field payload.batch_len payload.q_per_example "q_per_example"
    check_vector_field payload.batch_len payload.e_per_example "e_per_example"
    check_vector_field payload.batch_len payload.h_per_example "h_per_example"
    check_vector_field payload.batch_len payload.c_per_example "c_per_example"
    check_vector_field payload.batch_len payload.degenerate_mask "degenerate_mask"

  abbrev pub check_fixed_vector : ℕ → List ℕ → String → Result VerifyError (Unit {0})
  check_fixed_vector expected field name = same_length name (length field) "num_layers" expected

  -- The loop of `check_all_finite`, the first number of which has the index `i`.
  finite_from : ℕ → List ℕ → String → Result VerifyError (Unit {0})
  finite_from i [] name = ok tt
  finite_from i (bits ∷ rest) name =
      let next = finite_from (i + 1) rest name in
      if not (is_finite bits)
      then err (
          payload_shape_mismatch
            (name ++ "[" ++ display i ++ "] is not finite: " ++ f32_display bits))
      else next

  pub check_all_finite : List ℕ → String → Result VerifyError (Unit {0})
  unfolding finite_from
  check_all_finite field name = finite_from 0 field name

  pub check_schema : String → Result VerifyError (Unit {0})
  check_schema schema =
      if str_eq schema gradient_coupling_schema
      then ok tt
      else err (
          payload_shape_mismatch
            ("schema must be \"" ++ gradient_coupling_schema ++ "\", got \"" ++ schema ++ "\""))

  pub check_cosine : ℕ → Result VerifyError (Unit {0})
  check_cosine cosine =
      if not (is_finite cosine)
      then err (payload_shape_mismatch ("profile_cosine is not finite: " ++ f32_display cosine))
      else if not (in_unit cosine)
      then err (
          payload_shape_mismatch
            ("profile_cosine " ++ f32_display cosine ++ " is outside [-1.0, 1.0]"))
      else ok tt

  unfoldable pub validate_gradient_coupling_payload :
      GradientCouplingPayload → Result VerifyError (Unit {0})
  unfolding check_schema checked_len check_all_finite finite_from check_cosine
  validate_gradient_coupling_payload payload = do
    check_schema payload.schema
    if payload.num_layers == 0 then err (payload_shape_mismatch "num_layers must be > 0") else ok tt
    n ← checked_len "num_layers" payload.num_layers
    check_fixed_vector n payload.grad_q_norms "grad_q_norms"
    check_fixed_vector n payload.grad_lm_norms "grad_lm_norms"
    check_fixed_vector n payload.coupling_ratios "coupling_ratios"
    check_all_finite payload.grad_q_norms "grad_q_norms"
    check_all_finite payload.grad_lm_norms "grad_lm_norms"
    check_all_finite payload.coupling_ratios "coupling_ratios"
    check_cosine payload.profile_cosine
