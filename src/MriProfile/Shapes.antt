-- ===== src/MriProfile/Shapes.antt =====
-- src/mri_profile.rs: when a length or a list of numbers passes its check.
use vertrule_verifier.Prelude.{
  ℕ, ◌+◌, ◌≤◌, ◌≡◌, ◌↔◌, refl, sym, true, String, Option, none, some, List, [], ◌∷◌, ok, length,
  leb, ◌==◌, ==_iff, arith, All, ◌∙◌, ap, >>=-ok_iff, guard-ok_iff, unless-ok_iff, ok-injective,
}
use vertrule_verifier.External.{External}
use vertrule_verifier.MriProfile.{
  is_finite, in_unit, checked_len, same_length, check_vector_field, finite_from, check_all_finite,
  check_cosine,
}

-- A vector that is there has the length of the batch, which is then there and fits a `usize`.
unfoldable pub HasBatchLength : ℕ → Option ℕ → Option (List ℕ) → Type 0
HasBatchLength usize_max batch_len none = Unit
HasBatchLength usize_max batch_len (some vec) =
    (n : ℕ) × (batch_len ≡ some n) × (n ≤ usize_max) × (length vec ≡ n)

abbrev pub IsFinite : ℕ → Type 0
IsFinite bits = is_finite bits ≡ true

module _ ⦃x : External⦄ (usize_max : ℕ) (f32_display : ℕ → String) where
  pub checked_len-ok_iff :
      (name : String) (value n : ℕ)
      → (checked_len usize_max f32_display name value ≡ ok n) ↔ ((value ≤ usize_max) × (value ≡ n))
  unfolding checked_len
  checked_len-ok_iff name value n =
      let guard = guard-ok_iff (leb value usize_max) (ok value) _ n in
      (
        λ h. let (p, q) = guard.0 h in (ground (arith, p), ok-injective q),
        λ h. guard.1 (let le = h.0 in ground (arith, le), ap ok h.1),
      )

  pub same_length-ok_iff :
      (name : String) (actual : ℕ) (whole : String) (expected : ℕ)
      → (same_length usize_max f32_display name actual whole expected ≡ ok tt) ↔ (actual ≡ expected)
  same_length-ok_iff name actual whole expected =
      let guard = guard-ok_iff (actual == expected) (ok tt) _ tt in
      let same = ==_iff actual expected in
      (λ h. same.0 (guard.0 h).0, λ h. guard.1 (same.1 h, refl))

  pub check_vector_field-ok_iff :
      (batch_len : Option ℕ) (field : Option (List ℕ)) (name : String)
      → (check_vector_field usize_max f32_display batch_len field name ≡ ok tt)
        ↔ HasBatchLength usize_max batch_len field
  unfolding check_vector_field HasBatchLength
  check_vector_field-ok_iff batch_len none name = (λ h. tt, λ h. refl)
  check_vector_field-ok_iff none (some vec) name = (λ h. cc, λ h. cc h.1)
  check_vector_field-ok_iff (some n) (some vec) name =
      let steps = >>=-ok_iff (checked_len usize_max f32_display "batch_len" n) _ tt in
      (
        λ h.
            let (m, p, q) = steps.0 h in
            let (fits, same) = (checked_len-ok_iff "batch_len" n m).0 p in
            let equal = (same_length-ok_iff name (length vec) "batch_len" m).0 q in
            (n, refl, fits, equal ∙ sym same),
        λ h.
            let same : h.0 ≡ n = cc h.1 in
            let fits = h.2 in
            let equal = h.3 in
            steps.1 (
              n,
              (checked_len-ok_iff "batch_len" n n).1 (omega (arith, same, fits), refl),
              (same_length-ok_iff name (length vec) "batch_len" n).1 (equal ∙ same),
            ),
      )

  finite_from-ok_iff :
      (i : ℕ) (field : List ℕ) (name : String)
      → (finite_from usize_max f32_display i field name ≡ ok tt) ↔ All IsFinite field
  unfolding finite_from
  finite_from-ok_iff i [] name = (λ h. tt, λ h. refl)
  finite_from-ok_iff i (bits ∷ rest) name =
      let guard =
        unless-ok_iff (is_finite bits) _ (finite_from usize_max f32_display (i + 1) rest name) tt in
      let others = finite_from-ok_iff (i + 1) rest name in
      (λ h. let (p, q) = guard.0 h in (p, others.0 q), λ h. guard.1 (h.0, others.1 h.1))

  pub check_all_finite-ok_iff :
      (field : List ℕ) (name : String)
      → (check_all_finite usize_max f32_display field name ≡ ok tt) ↔ All IsFinite field
  unfolding check_all_finite
  check_all_finite-ok_iff field name = finite_from-ok_iff 0 field name

  pub check_cosine-ok_iff :
      (bits : ℕ)
      → (check_cosine usize_max f32_display bits ≡ ok tt)
        ↔ ((is_finite bits ≡ true) × (in_unit bits ≡ true))
  unfolding check_cosine
  check_cosine-ok_iff bits =
      let outer = unless-ok_iff (is_finite bits) _ _ tt in
      let inner = unless-ok_iff (in_unit bits) _ (ok tt) tt in
      (λ h. let (p, q) = outer.0 h in (p, (inner.0 q).0), λ h. outer.1 (h.0, inner.1 (h.1, refl)))
