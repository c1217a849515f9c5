-- ===== src/Cli/Args.antt =====
-- src/bin/vr_verify.rs: the optional flags of the commands.
use Prim.Native.String.{◌++◌}
use vertrule_verifier.Prelude.{
  ℕ, ◌+◌, ◌*◌, ◌-◌, Bool, true, false, ◌&&◌, ◌||◌, String, Option, none, some, List, [], ◌∷◌,
  Result, ok, err, ◌>>=◌, leb, ◌==◌, str_eq, if◌then◌else◌,
}
use vertrule_verifier.Prelude.Text.{chars}
use vertrule_verifier.Limits.{VerifierLimits, default_limits}

pub record LimitArgs : Type 0 where
  pub max_bytes : Option ℕ
  pub max_chain_length : Option ℕ

-- `LimitArgs::default()`
abbrev pub no_limits : LimitArgs
no_limits = record { max_bytes = none; max_chain_length = none }

abbrev is_set : Option ℕ → Bool
is_set none = false
is_set (some n) = true

abbrev pub is_present : LimitArgs → Bool
is_present a = is_set a.max_bytes || is_set a.max_chain_length

abbrev or_default : Option ℕ → ℕ → ℕ
or_default none d = d
or_default (some n) d = n

abbrev pub resolve : LimitArgs → VerifierLimits
resolve a = record default_limits {
  max_bytes = or_default a.max_bytes default_limits.max_bytes;
  max_chain_length = or_default a.max_chain_length default_limits.max_chain_length;
}

-- `usize::MAX` on a 64-bit target
abbrev pub usize_max : ℕ
usize_max = 18446744073709551615

abbrev pub is_digit : ℕ → Bool
is_digit c = leb b'0' c && leb c b'9'

-- The number that decimal digits stand for, after `acc`.
unfoldable pub parse_digits : ℕ → List ℕ → Option ℕ
parse_digits acc [] = some acc
parse_digits acc (c ∷ cs) =
    let rest = parse_digits (acc * 10 + (c - b'0')) cs in if is_digit c then rest else none

-- A plus sign may stand first.
abbrev pub unsigned : List ℕ → List ℕ
unsigned [] = []
unsigned (c ∷ cs) = if c == b'+' then cs else c ∷ cs

-- At least one digit is wanted.
abbrev pub parse_nonempty : List ℕ → Option ℕ
parse_nonempty [] = none
parse_nonempty (c ∷ cs) = parse_digits 0 (c ∷ cs)

abbrev pub fits : Option ℕ → Option ℕ
fits none = none
fits (some n) = if leb n usize_max then some n else none

-- `raw.parse::<usize>().ok()`
unfoldable pub parse_usize : String → Option ℕ
parse_usize raw = fits (parse_nonempty (unsigned (chars raw)))

-- What `parse_limit_value` makes of a parsed number.
abbrev pub limit_of : String → String → Option ℕ → Result String ℕ
limit_of flag raw none = err (flag ++ " expects a non-negative integer, got \"" ++ raw ++ "\"")
limit_of flag raw (some n) = if n == 0 then err (flag ++ " must be greater than 0") else ok n

unfoldable pub parse_limit_value : String → String → Result String ℕ
parse_limit_value flag raw = limit_of flag raw (parse_usize raw)

-- `iter.next().ok_or_else(|| message)`
abbrev pub required : String → Option String → Result String String
required message none = err message
required message (some raw) = ok raw

abbrev pub with_bytes : LimitArgs → Option String → Result String LimitArgs
with_bytes parsed next = do
  raw ← required "--max-bytes requires a value" next
  n ← parse_limit_value "--max-bytes" raw
  let result : LimitArgs = record parsed { max_bytes = some n }
  ok result

abbrev pub with_chain_length : LimitArgs → Option String → Result String LimitArgs
with_chain_length parsed next = do
  raw ← required "--max-chain-length requires a value" next
  n ← parse_limit_value "--max-chain-length" raw
  let result : LimitArgs = record parsed { max_chain_length = some n }
  ok result

-- One round of the loop of `parse_limit_args`, with the argument that comes next.
unfoldable pub limit_flag : Bool → LimitArgs → String → Option String → Result String LimitArgs
limit_flag allow_chain_length parsed flag next =
    if str_eq flag "--max-bytes"
    then with_bytes parsed next
    else if str_eq flag "--max-chain-length" && allow_chain_length
    then with_chain_length parsed next
    else err ("unexpected argument \"" ++ flag ++ "\"")

-- The loop.
unfoldable pub limit_flags : Bool → LimitArgs → List String → Result String LimitArgs
unfolding limit_flag
limit_flags allow_chain_length parsed [] = ok parsed
limit_flags allow_chain_length parsed (flag ∷ []) = limit_flag allow_chain_length parsed flag none
limit_flags allow_chain_length parsed (flag ∷ raw ∷ rest) = do
  next ← limit_flag allow_chain_length parsed flag (some raw)
  limit_flags allow_chain_length next rest

unfoldable pub parse_limit_args : List String → Bool → Result String LimitArgs
parse_limit_args flags allow_chain_length = limit_flags allow_chain_length no_limits flags

-- One round of the loop of `parse_trust_arg`.
unfoldable pub trust_flag : String → Option String → Result String (Option String)
trust_flag flag next =
    if str_eq flag "--trust"
    then (required "--trust requires a path" next >>= λ path. ok (some path))
    else err ("unexpected argument \"" ++ flag ++ "\"")

-- The loop.
unfoldable pub trust_flags : Option String → List String → Result String (Option String)
unfolding trust_flag
trust_flags trust [] = ok trust
trust_flags trust (flag ∷ []) = trust_flag flag none
trust_flags trust (flag ∷ path ∷ rest) = do
  next ← trust_flag flag (some path)
  trust_flags next rest

unfoldable pub parse_trust_arg : List String → Result String (Option String)
parse_trust_arg flags = trust_flags none flags
