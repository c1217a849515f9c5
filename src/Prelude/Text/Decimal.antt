-- ===== src/Prelude/Text/Decimal.antt =====
-- The decimal form of a number, read back digit by digit.
use Prim.Native.Char.{code}
use Prim.Native.String
use Prim.Native.String.append
use Prim.Native.String.{String}
use Prim.Native.Nat.{ℕ, zero, suc, ◌+◌, ◌/◌, ◌%◌, ◌<◌}
use mathlib.Core.Path.{◌≡◌, refl, ap, ◌∙◌}
use mathlib.Core.Logic.{inl, inr}
use mathlib.Core.List.{List, [], ◌∷◌, ◌++◌, map}
use native.Mathlib.Omega.{arith}
use vertrule_verifier.Prelude.Tests.{ltb, Bool-cases}
use vertrule_verifier.Prelude.Lists.{All}
use vertrule_verifier.Prelude.Text.{chars, digit, digits, render, value, value-digits, display}

-- The code of a digit.
abbrev pub digit_code : ℕ → ℕ
digit_code d = b'0' + d

abbrev pub IsDigit : ℕ → Type 0
IsDigit d = d < 10

chars-append : (s t : String) → chars (String.◌++◌ s t) ≡ chars s ++ chars t
chars-append String.[] t = ap chars (append.nil t)
chars-append (String.◌∷◌ c s) t =
    ap chars (append.cons c s t) ∙ ap (λ cs. code c ∷ cs) (chars-append s t)

chars-digit : (d : ℕ) → IsDigit d → chars (digit d) ≡ digit_code d ∷ []
chars-digit zero h = refl
chars-digit (suc zero) h = refl
chars-digit (suc (suc zero)) h = refl
chars-digit (suc (suc (suc zero))) h = refl
chars-digit (suc (suc (suc (suc zero)))) h = refl
chars-digit (suc (suc (suc (suc (suc zero))))) h = refl
chars-digit (suc (suc (suc (suc (suc (suc zero)))))) h = refl
chars-digit (suc (suc (suc (suc (suc (suc (suc zero))))))) h = refl
chars-digit (suc (suc (suc (suc (suc (suc (suc (suc zero)))))))) h = refl
chars-digit (suc (suc (suc (suc (suc (suc (suc (suc (suc zero))))))))) h = refl
chars-digit (suc (suc (suc (suc (suc (suc (suc (suc (suc (suc d)))))))))) h = absurd (omega arith)

chars-render : (ds : List ℕ) → All IsDigit ds → chars (render ds) ≡ map digit_code ds
unfolding render
chars-render [] h = refl
chars-render (d ∷ ds) h =
    let first = chars-digit d h.0 in
    let rest = chars-render ds h.1 in chars-append (digit d) (render ds) ∙ cc (first, rest)

-- The digits of a number, and what they come in front of, are digits.
digits-IsDigit :
    (fuel n : ℕ) (acc : List ℕ) → n < fuel → All IsDigit acc → All IsDigit (digits fuel n acc)
unfolding digits
digits-IsDigit zero n acc h all = elim h [ ]
digits-IsDigit (suc fuel) n acc h all = elim (Bool-cases (ltb n 10)) [
  | inl p ↦ let small : n < 10 = ground (arith, p) in rw (digits, p) (small, all)
  | inr p ↦
      rw (digits, p)
        (digits-IsDigit fuel (n / 10) (n % 10 ∷ acc) (ground arith) ((omega arith), all))
]

-- There is a first digit.
digits-ne-nil : (fuel n : ℕ) (acc : List ℕ) → n < fuel → ¬ (digits fuel n acc ≡ [])
unfolding digits
digits-ne-nil zero n acc h = elim h [ ]
digits-ne-nil (suc fuel) n acc h = elim (Bool-cases (ltb n 10)) [
  | inl p ↦ rw (digits, p) (λ q. cc)
  | inr p ↦ rw (digits, p) (digits-ne-nil fuel (n / 10) (n % 10 ∷ acc) (ground arith))
]

value-nil : (n : ℕ) → value n [] ≡ n
unfolding value
value-nil n = refl

-- The characters of the decimal form of a number are digits that stand for it.
pub record IsDecimal (n : ℕ) (text : String) : Type 0 where
  pub ds : List ℕ
  pub are_digits : All IsDigit ds
  pub is_value : value 0 ds ≡ n
  pub is_text : chars text ≡ map digit_code ds
  pub is_some : ¬ (ds ≡ [])

pub display-IsDecimal : (n : ℕ) → IsDecimal n (display n)
unfolding display
display-IsDecimal n =
    let all = digits-IsDigit (suc n) n [] (omega arith) tt in
    record {
      ds = digits (suc n) n [];
      are_digits = all;
      is_value = value-digits (suc n) n [] (omega arith) ∙ value-nil n;
      is_text = chars-render (digits (suc n) n []) all;
      is_some = digits-ne-nil (suc n) n [] (omega arith);
    }
