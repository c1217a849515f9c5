-- ===== src/Prelude/Text.antt =====
-- Rust strings: their characters, their UTF-8 bytes, and the decimal form of a number.
pub mod Decimal
use Prim.Native.Char.{code}
use Prim.Native.String
use Prim.Native.String.{String}
use Prim.Native.Nat.{ℕ, zero, suc, ◌+◌, ◌*◌, ◌/◌, ◌%◌, ◌<◌}
use mathlib.Core.Path.{◌≡◌, refl}
use mathlib.Core.Bool.{Bool, true, false, ◌&&◌, ◌||◌}
use mathlib.Core.List.{List, [], ◌∷◌, ◌++◌}
use native.Mathlib.Omega.{arith}
use vertrule_verifier.Prelude.Tests.{ltb, leb, ◌==◌, if◌then◌else◌}
use vertrule_verifier.Prelude.Lists.{All}

-- `str::chars`, as code points
abbrev pub chars : String → List ℕ
chars String.[] = []
chars (String.◌∷◌ c s) = code c ∷ chars s

-- The UTF-8 bytes of one code point.
unfoldable pub encode_utf8 : ℕ → List ℕ
encode_utf8 c =
    if ltb c 0x80
    then c ∷ []
    else if ltb c 0x800
    then (0xC0 + c / 64) ∷ (0x80 + c % 64) ∷ []
    else if ltb c 0x10000
    then (0xE0 + c / 4096) ∷ (0x80 + c / 64 % 64) ∷ (0x80 + c % 64) ∷ []
    else (0xF0 + c / 262144) ∷ (0x80 + c / 4096 % 64) ∷ (0x80 + c / 64 % 64) ∷ (0x80 + c % 64) ∷ []

encode_all : List ℕ → List ℕ
unfolding encode_utf8
encode_all [] = []
encode_all (c ∷ cs) = encode_utf8 c ++ encode_all cs

-- `str::as_bytes`
unfoldable pub as_bytes : String → List ℕ
unfolding encode_all
as_bytes s = encode_all (chars s)

-- `c.is_ascii_hexdigit() && !c.is_ascii_uppercase()`
abbrev pub is_lower_hex : ℕ → Bool
is_lower_hex c = leb b'0' c && leb c b'9' || leb b'a' c && leb c b'f'

encode_all-ascii : (cs : List ℕ) → All (λ c. c < 128) cs → encode_all cs ≡ cs
unfolding encode_all
encode_all-ascii [] h = refl
encode_all-ascii (c ∷ cs) h = ground (arith, encode_all-ascii cs h.1)

-- An ASCII text has its characters as its bytes.
pub as_bytes-ascii : (s : String) → All (λ c. c < 128) (chars s) → as_bytes s ≡ chars s
unfolding as_bytes
as_bytes-ascii s h = encode_all-ascii (chars s) h

abbrev digit : ℕ → String
digit n =
    if n == 0
    then "0"
    else if n == 1
    then "1"
    else if n == 2
    then "2"
    else if n == 3
    then "3"
    else if n == 4
    then "4"
    else if n == 5
    then "5"
    else if n == 6
    then "6"
    else if n == 7
    then "7"
    else if n == 8
    then "8"
    else "9"

-- The decimal digits of a number, the most significant first, in front of `acc`.
digits : ℕ → ℕ → List ℕ → List ℕ
digits zero n acc = acc
digits (suc fuel) n acc = elim (ltb n 10) [
  | true ↦ n ∷ acc
  | false ↦ digits fuel (n / 10) (n % 10 ∷ acc)
]

render : List ℕ → String
render [] = ""
render (d ∷ ds) = String.◌++◌ (digit d) (render ds)

-- A number under `{}` in a format string.
unfoldable pub display : ℕ → String
unfolding digits render
display n = render (digits (suc n) n [])

unfoldable pub value : ℕ → List ℕ → ℕ
value v [] = v
value v (d ∷ ds) = value (v * 10 + d) ds

-- The fuel is enough: the digits stand for the number.
value-digits : (fuel n : ℕ) (acc : List ℕ) → n < fuel → value 0 (digits fuel n acc) ≡ value n acc
unfolding value digits
value-digits zero n acc h = elim h [ ]
value-digits (suc fuel) n acc h = ground (arith, value-digits fuel (n / 10) (n % 10 ∷ acc))

display_runs : display 1048577 ≡ "1048577"
unfolding display
display_runs = refl
