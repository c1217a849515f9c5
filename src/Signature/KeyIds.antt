-- ===== src/Signature/KeyIds.antt =====
-- src/signature.rs: which texts are key identifiers.
use vertrule_verifier.Prelude.{
  ℕ, ◌<◌, ◌≡◌, ◌↔◌, subst, sym, ap, true, String, List, [], ◌∷◌, ok, All, arith, all, all-true_iff,
  length, ◌==◌, ==_iff, unless-ok_iff, ok-injective,
}
use vertrule_verifier.Prelude.Text.{chars, as_bytes, as_bytes-ascii, is_lower_hex}
use vertrule_verifier.External.{External}
use vertrule_verifier.Signature.{KeyId, from_hex}

-- 24 characters, all lowercase hexadecimal digits.
pub record IsKeyId (hex : String) : Type 0 where
  pub digits : All (λ c. is_lower_hex c ≡ true) (chars hex)
  pub count : length (chars hex) ≡ 24

lower_hex-lt : (c : ℕ) → is_lower_hex c ≡ true → c < 128
lower_hex-lt c h = ground arith

ascii_of_lower_hex : (cs : List ℕ) → All (λ c. is_lower_hex c ≡ true) cs → All (λ c. c < 128) cs
ascii_of_lower_hex [] h = tt
ascii_of_lower_hex (c ∷ cs) h = (lower_hex-lt c h.0, ascii_of_lower_hex cs h.1)

bytes_of_digits :
    (hex : String) → All (λ c. is_lower_hex c ≡ true) (chars hex) → as_bytes hex ≡ chars hex
bytes_of_digits hex h = as_bytes-ascii hex (ascii_of_lower_hex (chars hex) h)

module _ ⦃x : External⦄ where
  -- A text becomes a key identifier, unchanged, exactly when it is 24 lowercase hexadecimal
  -- characters. (The code counts bytes; such a text has one byte to a character.)
  pub from_hex-ok_iff :
      (hex : String) (k : KeyId)
      → (from_hex hex ≡ ok k) ↔ ((k ≡ record { as_hex = hex }) × IsKeyId hex)
  unfolding from_hex
  from_hex-ok_iff hex k =
      let n = length (as_bytes hex) in
      let sized = unless-ok_iff (n == 24) _ _ k in
      let spelled =
        unless-ok_iff (all is_lower_hex (chars hex)) _ (ok (record { as_hex = hex })) k in
      (
        λ h.
            let (p, q) = sized.0 h in
            let (r, same) = spelled.0 q in
            let digits = (all-true_iff is_lower_hex (chars hex)).0 r in
            (
              sym (ok-injective same),
              record {
                digits = digits;
                count =
                    subst (λ bs. length bs ≡ 24) (bytes_of_digits hex digits) ((==_iff n 24).0 p);
              },
            ),
        λ h. sized.1 (
          (==_iff n 24).1
              (subst (λ bs. length bs ≡ 24) (sym (bytes_of_digits hex h.1.digits)) h.1.count),
          spelled.1 ((all-true_iff is_lower_hex (chars hex)).1 h.1.digits, ap ok (sym h.0)),
        ),
      )
