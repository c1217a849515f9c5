-- ===== src/Prelude/StringSet.antt =====
-- `BTreeSet<String>`: the members in ascending order of their bytes, each once.
pub mod Order
pub mod Ascending
use Prim.Native.Nat.{ℕ}
use Prim.Native.String.{String}
use mathlib.Core.Path.{◌≡◌, refl}
use mathlib.Core.Bool.{Bool, true, false, not, ◌&&◌, ◌||◌}
use mathlib.Core.List.{List, [], ◌∷◌}
use native.Mathlib.Omega.{arith}
use text.Mathlib.Text.{◌==◌ as str_eq}
use text.Mathlib.TextEquality.{eq_iff}
use vertrule_verifier.Prelude.Tests.{if◌then◌else◌, ltb, ◌==◌}
use vertrule_verifier.Prelude.Text.{chars}

-- The lexicographic order of code points, which is that of the UTF-8 bytes of the texts.
abbrev pub codes_lt : List ℕ → List ℕ → Bool
codes_lt [] [] = false
codes_lt [] (b ∷ bs) = true
codes_lt (a ∷ rest) [] = false
codes_lt (a ∷ rest) (b ∷ bs) = ltb a b || a == b && codes_lt rest bs

abbrev pub before : String → String → Bool
before s t = codes_lt (chars s) (chars t)

unfoldable pub contains : List String → String → Bool
contains [] k = false
contains (j ∷ s) k = str_eq j k || contains s k

unfoldable pub insert : List String → String → List String
insert [] k = k ∷ []
insert (j ∷ s) k =
    let rest = insert s k in
    if str_eq j k then j ∷ s else if before k j then k ∷ j ∷ s else j ∷ rest

unfoldable pub remove : List String → String → List String
remove [] k = []
remove (j ∷ s) k = let rest = remove s k in if str_eq j k then rest else j ∷ rest

-- `a.difference(&b)`
pub difference : List String → List String → List String
difference [] t = []
difference (j ∷ s) t = let rest = difference s t in if contains t j then rest else j ∷ rest

-- `iter().collect()`
abbrev pub collect : List String → List String → List String
collect s [] = s
collect s (k ∷ ks) = collect (insert s k) ks

-- `a == b`
unfoldable pub equal : List String → List String → Bool
equal [] [] = true
equal (j ∷ s) (k ∷ t) = str_eq j k && equal s t
equal _ _ = false

pub contains-insert :
    (s : List String) (k j : String) → contains (insert s k) j ≡ (str_eq k j || contains s j)
unfolding contains insert
contains-insert [] k j = refl
contains-insert (i ∷ s) k j =
    ground (arith, eq_iff k j, eq_iff i k, eq_iff i j, contains-insert s k j)

pub contains-remove :
    (s : List String) (k j : String) → contains (remove s k) j ≡ (not (str_eq k j) && contains s j)
unfolding contains remove
contains-remove [] k j = ground arith
contains-remove (i ∷ s) k j =
    ground (arith, eq_iff k j, eq_iff i k, eq_iff i j, contains-remove s k j)
