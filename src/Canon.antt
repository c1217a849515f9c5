-- ===== src/Canon.antt =====
-- src/canon.rs: the admission of raw bytes and the canonical form of a value.
use vertrule_verifier.Prelude.{
  ℕ, String, ◌≡◌, ◌↔◌, refl, Bool, true, false, ◌&&◌, List, [], ◌∷◌, Result, ok, err, ◌>>=◌,
  map_err, ◌==◌, if◌then◌else◌, >>=-ok_iff, map_err-ok_iff, guard-ok_iff, arith,
}
use vertrule_verifier.External.{External}
use vertrule_verifier.Json.{Value}
use vertrule_verifier.Error.{VerifyError, canon, malformed_json, non_canonical}

-- `==` on byte slices
unfoldable pub bytes_eq : List ℕ → List ℕ → Bool
bytes_eq [] [] = true
bytes_eq (a ∷ rest) (b ∷ bs) = a == b && bytes_eq rest bs
bytes_eq _ _ = false

pub bytes_eq_iff : (a b : List ℕ) → (bytes_eq a b ≡ true) ↔ (a ≡ b)
unfolding bytes_eq
bytes_eq_iff [] [] = (λ h. refl, λ h. refl)
bytes_eq_iff [] (y ∷ ys) = (λ h. cc, λ h. cc)
bytes_eq_iff (z ∷ zs) [] = (λ h. cc, λ h. cc)
bytes_eq_iff (z ∷ zs) (y ∷ ys) = grind (arith, bytes_eq_iff zs ys)

module _ ⦃x : External⦄ where
  open x use {
    Number, JcsError, is_json_error, jcs_display, to_canon_bytes_from_slice, to_vec, json_to_string,
    to_canon_string_from_str,
  }

  pub jcs_admission_error : JcsError → VerifyError
  jcs_admission_error e =
      if is_json_error e then malformed_json (jcs_display e) else non_canonical (jcs_display e)

  unfoldable pub admit_canonical_bytes : List ℕ → Result VerifyError (Unit {0})
  unfolding jcs_admission_error
  admit_canonical_bytes raw = do
    canonical ← map_err jcs_admission_error (to_canon_bytes_from_slice raw)
    if bytes_eq raw canonical
        then ok tt
        else err (non_canonical "input is not in JCS canonical form")

  unfoldable pub typed_canon_bytes : Value Number → Result VerifyError (List ℕ)
  typed_canon_bytes value = do
    json_bytes ← map_err canon (to_vec value)
    map_err (λ e. canon (jcs_display e)) (to_canon_bytes_from_slice json_bytes)

  unfoldable pub typed_canon_string : Value Number → Result VerifyError String
  typed_canon_string value = do
    json ← map_err canon (json_to_string value)
    map_err (λ e. canon (jcs_display e)) (to_canon_string_from_str json)

  -- Raw bytes are admitted exactly when canonicalisation returns them unchanged.
  pub admit_canonical_bytes-ok_iff :
      (raw : List ℕ)
      → (admit_canonical_bytes raw ≡ ok tt) ↔ (to_canon_bytes_from_slice raw ≡ ok raw)
  unfolding admit_canonical_bytes
  admit_canonical_bytes-ok_iff raw =
      let canonical = to_canon_bytes_from_slice raw in
      (
        λ h.
            let (c, p, q) = (>>=-ok_iff (map_err jcs_admission_error canonical) _ tt).0 h in
            let same = (bytes_eq_iff raw c).0 ((guard-ok_iff (bytes_eq raw c) _ _ tt).0 q).0 in
            cc ((map_err-ok_iff jcs_admission_error canonical c).0 p),
        λ h. (>>=-ok_iff (map_err jcs_admission_error canonical) _ tt).1 (
          raw,
          (map_err-ok_iff jcs_admission_error canonical raw).1 h,
          (guard-ok_iff (bytes_eq raw raw) (ok tt) _ tt).1 ((bytes_eq_iff raw raw).1 refl, refl),
        ),
      )
