-- ===== src/Prelude/Outcome.antt =====
-- Rust's `Result`, its `?` and `map_err`.
use mathlib.Core.Path.{◌≡◌, refl, sym, subst}
use mathlib.Core.Logic.{◌⊎◌, ◌↔◌, inl, inr}
use vertrule_verifier.Prelude.Tests.{if◌then◌else◌}
use mathlib.Core.Bool.{Bool, true, false, not}

pub data Result {ℓ} (E A : Type ℓ) : Type ℓ where
  ok : A → Result E A
  err : E → Result E A

infixl 5 ◌>>=◌ ◌>>◌
abbrev pub ◌>>=◌ {ℓ} : {E A B : Type ℓ} → Result E A → (A → Result E B) → Result E B
err failure >>= rest = err failure
ok value >>= rest = rest value

abbrev pub ◌>>◌ {ℓ} : {E B : Type ℓ} → Result E (Unit {ℓ}) → Result E B → Result E B
m >> k = m >>= λ _. k

abbrev pub map_err {ℓ} : {E F A : Type ℓ} → (E → F) → Result E A → Result F A
map_err f (ok a) = ok a
map_err f (err e) = err (f e)

abbrev pub is_ok {ℓ} : {E A : Type ℓ} → Result E A → Bool
is_ok (ok a) = true
is_ok (err e) = false

pub Result-cases {ℓ} :
    {E A : Type ℓ} (r : Result E A) → ((a : A) × (r ≡ ok a)) ⊎ ((e : E) × (r ≡ err e))
Result-cases (ok a) = inl (a, refl)
Result-cases (err e) = inr (e, refl)

pub ok-injective {ℓ} : {E A : Type ℓ} {a b : A} → ◌≡◌ {A = Result E A} (ok a) (ok b) → a ≡ b
ok-injective h = cc

pub >>=-ok_iff {ℓ} :
    {E A B : Type ℓ} (m : Result E A) (f : A → Result E B) (b : B)
    → ((m >>= f) ≡ ok b) ↔ ((a : A) × (m ≡ ok a) × (f a ≡ ok b))
>>=-ok_iff (ok a) f b = (λ h. (a, refl, h), λ h. cc (h.1, h.2))
>>=-ok_iff (err e) f b = (λ h. cc, λ h. cc)

-- A successful `?` had a successful first part.
pub >>=-eq-ok {ℓ} :
    {E A B : Type ℓ} (step : Result E A) (rest : A → Result E B) {result : B}
    → (step >>= rest) ≡ ok result
    → (a : A) × (step ≡ ok a) × (rest a ≡ ok result)
>>=-eq-ok step rest h = (>>=-ok_iff step rest _).0 h

-- A step for its effect alone, then the others.
pub >>-ok_iff {ℓ} :
    {E B : Type ℓ} (m : Result E (Unit {ℓ})) (k : Result E B) (b : B)
    → ((m >> k) ≡ ok b) ↔ ((m ≡ ok tt) × (k ≡ ok b))
>>-ok_iff (ok tt) k b = (λ h. (refl, h), λ h. h.1)
>>-ok_iff (err e) k b = (λ h. cc, λ h. cc)

pub map_err-ok_iff {ℓ} :
    {E F A : Type ℓ} (f : E → F) (m : Result E A) (a : A) → (map_err f m ≡ ok a) ↔ (m ≡ ok a)
map_err-ok_iff f (ok b) a = (λ h. cc, λ h. cc)
map_err-ok_iff f (err e) a = (λ h. cc, λ h. cc)

-- A guard: `if failed { return Err(e) }`, with the test turned round.
pub guard-ok_iff {ℓ} :
    {E A : Type ℓ} (b : Bool) (m : Result E A) (e : E) (a : A)
    → ((if b then m else err e) ≡ ok a) ↔ ((b ≡ true) × (m ≡ ok a))
guard-ok_iff true m e a = (λ h. (refl, h), λ h. h.1)
guard-ok_iff false m e a = (λ h. cc, λ h. cc)

-- A guard as the source writes it: `if !b { return Err(e) }`.
pub unless-ok_iff {ℓ} :
    {E A : Type ℓ} (b : Bool) (e : E) (m : Result E A) (a : A)
    → ((if not b then err e else m) ≡ ok a) ↔ ((b ≡ true) × (m ≡ ok a))
unless-ok_iff true e m a = (λ h. (refl, h), λ h. h.1)
unless-ok_iff false e m a = (λ h. cc, λ h. cc)

-- A check that is one test.
pub test-ok_iff :
    {E : Type 0} (b : Bool) (e : E) → ((if b then ok tt else err e) ≡ ok tt) ↔ (b ≡ true)
test-ok_iff true e = (λ h. refl, λ h. refl)
test-ok_iff false e = (λ h. cc, λ h. cc)

pub ok_iff {ℓ} : {E A : Type ℓ} (a b : A) → (◌≡◌ {A = Result E A} (ok a) (ok b)) ↔ (a ≡ b)
ok_iff a b = (λ h. cc h, λ h. cc h)

-- What holds of the value in a success.
pub ok-holds_iff {ℓ} :
    {E A : Type ℓ} (P : A → Type ℓ) (a : A)
    → P a ↔ ((b : A) × (◌≡◌ {A = Result E A} (ok a) (ok b)) × P b)
ok-holds_iff P a = (λ h. (a, refl, h), λ h. subst P (sym (ok-injective h.1)) h.2)
