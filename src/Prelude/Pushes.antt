-- ===== src/Prelude/Pushes.antt =====
-- Lists that a loop pushes to.
use mathlib.Core.Path.{◌≡◌, refl}
use mathlib.Core.Logic.{◌↔◌}
use mathlib.Core.Bool.{Bool, true}
use mathlib.Core.List.{List, [], ◌∷◌, ◌++◌}
use vertrule_verifier.Prelude.Tests.{&&-true_iff}
use vertrule_verifier.Prelude.Lists.{all, is_empty, All}

pub append-ne-nil {ℓ} : {A : Type ℓ} (xs : List A) (x : A) → ¬ (xs ++ x ∷ [] ≡ [])
append-ne-nil [] x h = cc
append-ne-nil (y ∷ ys) x h = cc

pub all-append-true_iff {ℓ} :
    {A : Type ℓ} (p : A → Bool) (xs : List A) (x : A)
    → (all p (xs ++ x ∷ []) ≡ true) ↔ ((all p xs ≡ true) × (p x ≡ true))
all-append-true_iff p [] x =
    (λ h. (refl, ((&&-true_iff (p x) true).0 h).0), λ h. (&&-true_iff (p x) true).1 (h.1, refl))
all-append-true_iff p (y ∷ ys) x =
    let here = &&-true_iff (p y) (all p (ys ++ x ∷ [])) in
    let first = &&-true_iff (p y) (all p ys) in
    let rest = all-append-true_iff p ys x in
    (
      λ h. let (a, b) = here.0 h in let (c, d) = rest.0 b in (first.1 (a, c), d),
      λ h. let (a, b) = first.0 h.0 in here.1 (a, rest.1 (b, h.1)),
    )

pub is_empty_iff {ℓ} : {A : Type ℓ} (xs : List A) → (is_empty xs ≡ true) ↔ (xs ≡ [])
is_empty_iff [] = (λ h. refl, λ h. refl)
is_empty_iff (x ∷ xs) = (λ h. cc, λ h. cc)

pub append-nil_iff {ℓ} : {A : Type ℓ} (xs ys : List A) → (xs ++ ys ≡ []) ↔ ((xs ≡ []) × (ys ≡ []))
append-nil_iff [] ys = (λ h. (refl, h), λ h. h.1)
append-nil_iff (x ∷ xs) ys = (λ h. cc, λ h. cc h.0)

pub All-append_iff {ℓ} :
    {A : Type ℓ} (P : A → Type 0) (xs : List A) (x : A) → All P (xs ++ x ∷ []) ↔ (All P xs × P x)
All-append_iff P [] x = (λ h. (tt, h.0), λ h. (h.1, tt))
All-append_iff P (y ∷ ys) x =
    let rest = All-append_iff P ys x in
    (λ h. let (a, b) = rest.0 h.1 in ((h.0, a), b), λ h. (h.0.0, rest.1 (h.0.1, h.1)))
