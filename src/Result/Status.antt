-- ===== src/Result/Status.antt =====
-- src/result.rs: a status that tests decide.
use vertrule_verifier.Prelude.{◌≡◌, ◌↔◌, refl, Bool, true, false, not, ◌&&◌, if◌then◌else◌}
use vertrule_verifier.Result.{VerificationStatus, valid, invalid, is_valid}

pub is_valid_iff : (s : VerificationStatus) → (is_valid s ≡ true) ↔ (s ≡ valid)
is_valid_iff valid = (λ h. refl, λ h. refl)
is_valid_iff invalid = (λ h. cc, λ h. cc)

-- A status chosen by three tests.
pub chosen-valid_iff :
    (a b c : Bool)
    → ((if a && b && c then valid else invalid) ≡ valid) ↔ ((a ≡ true) × (b ≡ true) × (c ≡ true))
chosen-valid_iff true true true = (λ h. (refl, refl, refl), λ h. refl)
chosen-valid_iff true true false = (λ h. cc, λ h. cc h.2)
chosen-valid_iff true false c = (λ h. cc, λ h. cc h.1)
chosen-valid_iff false b c = (λ h. cc, λ h. cc h.0)

-- A result that a failed test makes invalid.
pub tested-valid_iff :
    {S : Type 0} (status : S → VerificationStatus) (b : Bool) (bad good : S)
    → status bad ≡ invalid
    → (status (if not b then bad else good) ≡ valid) ↔ ((b ≡ true) × (status good ≡ valid))
tested-valid_iff status true bad good h = (λ p. (refl, p), λ p. p.1)
tested-valid_iff status false bad good h = (λ p. cc, λ p. cc p.0)
