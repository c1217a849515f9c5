-- ===== src/Prelude/StringSet/Order.antt =====
-- The order of texts that a `BTreeSet<String>` keeps is a strict linear order.
use Prim.Native.Nat.{ℕ}
use Prim.Native.Char.{code}
use Prim.Native.String.{String}
use mathlib.Core.Path.{◌≡◌, refl}
use mathlib.Core.Logic.{◌≢◌, inl, inr}
use mathlib.Core.Bool.{true, false}
use mathlib.Core.List.{List, [], ◌∷◌}
use native.Mathlib.Omega.{arith}
use text.Mathlib.TextEquality.{Char-path}
use vertrule_verifier.Prelude.Tests.{Bool-cases}
use vertrule_verifier.Prelude.Text.{chars}
use vertrule_verifier.Prelude.StringSet.{codes_lt, before}

codes_lt_irrefl : (xs : List ℕ) → codes_lt xs xs ≡ false
codes_lt_irrefl [] = refl
codes_lt_irrefl (a ∷ rest) = ground (arith, codes_lt_irrefl rest)

codes_lt_trans :
    (xs ys zs : List ℕ) → codes_lt xs ys ≡ true → codes_lt ys zs ≡ true → codes_lt xs zs ≡ true
codes_lt_trans [] ys [] p q = ground (arith, p, q)
codes_lt_trans [] ys (c ∷ zs) p q = refl
codes_lt_trans (a ∷ xs) [] zs p q = cc p
codes_lt_trans (a ∷ xs) (b ∷ ys) [] p q = cc q
codes_lt_trans (a ∷ xs) (b ∷ ys) (c ∷ zs) p q = ground (arith, codes_lt_trans xs ys zs, p, q)

codes_lt-total : (xs ys : List ℕ) → codes_lt xs ys ≡ false → codes_lt ys xs ≡ false → xs ≡ ys
codes_lt-total [] [] p q = refl
codes_lt-total [] (b ∷ ys) p q = cc p
codes_lt-total (a ∷ xs) [] p q = cc q
codes_lt-total (a ∷ xs) (b ∷ ys) p q = ground (arith, codes_lt-total xs ys, p, q)

chars-injective : (s t : String) → chars s ≡ chars t → s ≡ t
chars-injective String.[] String.[] h = refl
chars-injective String.[] (String.◌∷◌ d t) h = cc h
chars-injective (String.◌∷◌ c s) String.[] h = cc h
chars-injective (String.◌∷◌ c s) (String.◌∷◌ d t) h =
    let same : code c ≡ code d = cc h in
    let rest : chars s ≡ chars t = cc h in cc (Char-path c d same, chars-injective s t rest)

pub before_irrefl : (s : String) → before s s ≡ false
before_irrefl s = codes_lt_irrefl (chars s)

pub before_trans : (s t u : String) → before s t ≡ true → before t u ≡ true → before s u ≡ true
before_trans s t u p q = codes_lt_trans (chars s) (chars t) (chars u) p q

pub before-total : (s t : String) → s ≢ t → before s t ≡ false → before t s ≡ true
before-total s t ne p = elim (Bool-cases (before t s)) [
  | inl q ↦ q
  | inr q ↦ absurd (ne (chars-injective s t (codes_lt-total (chars s) (chars t) p q)))
]
