-- ===== src/Prelude/Lists.antt =====
-- Lists measured by native numbers, tests and predicates on every element.
use Prim.Native.Nat.{ℕ, zero, suc, ◌+◌}
use mathlib.Core.Path.{◌≡◌, refl}
use vertrule_verifier.Prelude.Tests.{&&-true_iff}
use mathlib.Core.Logic.{◌↔◌}
use mathlib.Core.Bool.{Bool, true, false, ◌&&◌, ◌||◌}
use mathlib.Core.List.{List, [], ◌∷◌, ◌++◌}
use native.Mathlib.Omega.{arith}

module _ {ℓ} {A : Type ℓ} where
  abbrev pub length : List A → ℕ
  length [] = 0
  length (x ∷ xs) = suc (length xs)

  pub length-append : (xs ys : List A) → length (xs ++ ys) ≡ length xs + length ys
  length-append [] ys = omega arith
  length-append (x ∷ xs) ys = omega (arith, length-append xs ys)

  -- `iter().all(p)` and `iter().any(p)`
  abbrev pub all : (A → Bool) → List A → Bool
  all p [] = true
  all p (x ∷ xs) = p x && all p xs

  abbrev pub any : (A → Bool) → List A → Bool
  any p [] = false
  any p (x ∷ xs) = p x || any p xs

  -- `&slice[..n]`, of a slice that is long enough
  abbrev pub take : ℕ → List A → List A
  take zero xs = []
  take (suc n) [] = []
  take (suc n) (x ∷ xs) = x ∷ take n xs

  -- `Vec::is_empty`
  abbrev pub is_empty : List A → Bool
  is_empty [] = true
  is_empty (x ∷ xs) = false

module _ {ℓ κ} {A : Type ℓ} (P : A → Type κ) where
  abbrev pub All : List A → Type κ
  All [] = Unit
  All (x ∷ xs) = P x × All xs

pub All_iff {ℓ} :
    {A : Type ℓ} {P Q : A → Type 0} → ((a : A) → P a ↔ Q a) → (xs : List A) → All P xs ↔ All Q xs
All_iff f [] = (λ h. tt, λ h. tt)
All_iff f (x ∷ xs) =
    let rest = All_iff f xs in (λ h. ((f x).0 h.0, rest.0 h.1), λ h. ((f x).1 h.0, rest.1 h.1))

pub all-true_iff {ℓ} :
    {A : Type ℓ} (p : A → Bool) (xs : List A) → (all p xs ≡ true) ↔ All (λ x. p x ≡ true) xs
all-true_iff p [] = (λ h. tt, λ h. refl)
all-true_iff p (x ∷ xs) =
    let both = &&-true_iff (p x) (all p xs) in
    let rest = all-true_iff p xs in
    (λ h. let (a, b) = both.0 h in (a, rest.0 b), λ h. both.1 (h.0, rest.1 h.1))
