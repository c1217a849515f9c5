-- ===== src/Cli/RoundTrip.antt =====
-- src/bin/vr_verify.rs: the limit flags of a command line are read back.
use mathlib.Core.List
use vertrule_verifier.Prelude.{
  ℕ, ◌+◌, ◌*◌, ◌-◌, ◌≤◌, ◌<◌, ◌≡◌, refl, ap, ◌∙◌, Bool, true, false, String, Option, none, some,
  List, [], ◌∷◌, ok, map, ◌==◌, All, arith,
}
use vertrule_verifier.Prelude.Text.{display, value}
use vertrule_verifier.Prelude.Text.Decimal.{digit_code, IsDigit, display-IsDecimal}
use vertrule_verifier.Cli.Args.{
  LimitArgs, no_limits, usize_max, is_digit, parse_digits, unsigned, parse_nonempty, fits,
  parse_usize, parse_limit_value, limit_flag, limit_flags, parse_limit_args,
}

parse_digits-value :
    (acc : ℕ) (ds : List ℕ)
    → All IsDigit ds
    → parse_digits acc (map digit_code ds) ≡ some (value acc ds)
unfolding parse_digits value
parse_digits-value acc [] h = refl
parse_digits-value acc (d ∷ ds) h =
    let rest = parse_digits-value (acc * 10 + d) ds h.1 in
    let same : digit_code d - b'0' ≡ d = omega arith in
    let test : is_digit (digit_code d) ≡ true = let small = h.0 in ground (arith, small) in
    rw (parse_digits, same, test) rest

-- Digits are no sign, and there is one.
parse_nonempty-value :
    (ds : List ℕ)
    → All IsDigit ds
    → ¬ (ds ≡ [])
    → parse_nonempty (unsigned (map digit_code ds)) ≡ some (value 0 ds)
parse_nonempty-value [] h some_digit = absurd (some_digit refl)
parse_nonempty-value (d ∷ ds) h some_digit =
    let test : (digit_code d == b'+') ≡ false = ground arith in
    rw test (parse_digits-value 0 (d ∷ ds) h)

fits-some : (n : ℕ) → n ≤ usize_max → fits (some n) ≡ some n
fits-some n h = ground (arith, h)

-- A number of the machine is read back from its decimal form.
parse_usize-display : (n : ℕ) → n ≤ usize_max → parse_usize (display n) ≡ some n
unfolding parse_usize
parse_usize-display n h =
    let d = display-IsDecimal n in
    let parsed = parse_nonempty-value d.ds d.are_digits d.is_some in
    let read = ap (λ cs. fits (parse_nonempty (unsigned cs))) d.is_text in
    read ∙ ap fits (parsed ∙ ap some d.is_value) ∙ fits-some n h

-- A limit that the program takes: not zero, and a number of the machine.
pub record IsLimit (n : ℕ) : Type 0 where
  pub is_positive : 0 < n
  pub is_usize : n ≤ usize_max

parse_limit_value-display :
    (flag : String) (n : ℕ) → IsLimit n → parse_limit_value flag (display n) ≡ ok n
unfolding parse_limit_value
parse_limit_value-display flag n h =
    let parsed = parse_usize-display n h.is_usize in
    let positive = h.is_positive in
    let test : (n == 0) ≡ false = ground (arith, positive) in rw (parsed, test) refl

-- The flags that state the limits.
abbrev pub print_bytes : Option ℕ → List String
print_bytes none = []
print_bytes (some n) = "--max-bytes" ∷ display n ∷ []

abbrev pub print_chain_length : Option ℕ → List String
print_chain_length none = []
print_chain_length (some n) = "--max-chain-length" ∷ display n ∷ []

abbrev pub print_limits : LimitArgs → List String
print_limits a = List.◌++◌ (print_bytes a.max_bytes) (print_chain_length a.max_chain_length)

-- What limits a command line can state; a chain length only where it is allowed.
pub record IsPrintable (allow_chain_length : Bool) (a : LimitArgs) : Type 0 where
  pub bytes : (n : ℕ) → a.max_bytes ≡ some n → IsLimit n
  pub chain_length : (n : ℕ) → a.max_chain_length ≡ some n → IsLimit n × (allow_chain_length ≡ true)

limit_flag-bytes :
    (allow : Bool) (a : LimitArgs) (n : ℕ)
    → IsLimit n
    → limit_flag allow a "--max-bytes" (some (display n)) ≡ ok (record a { max_bytes = some n })
unfolding limit_flag
limit_flag-bytes allow a n h = rw (parse_limit_value-display "--max-bytes" n h) refl

limit_flag-chain :
    (a : LimitArgs) (n : ℕ)
    → IsLimit n
    → limit_flag true a "--max-chain-length" (some (display n))
      ≡ ok (record a { max_chain_length = some n })
unfolding limit_flag
limit_flag-chain a n h = rw (parse_limit_value-display "--max-chain-length" n h) refl

-- The flag of a chain length, after that of a byte limit.
limit_flags-chain :
    (allow : Bool) (bytes chain : Option ℕ)
    → ((n : ℕ) → chain ≡ some n → IsLimit n × (allow ≡ true))
    → limit_flags allow
        (record { max_bytes = bytes; max_chain_length = none })
        (print_chain_length chain)
      ≡ ok (record { max_bytes = bytes; max_chain_length = chain })
unfolding limit_flags
limit_flags-chain allow bytes none h = refl
limit_flags-chain allow bytes (some n) h =
    let (limit, allowed) = h n refl in
    rw (allowed, limit_flag-chain (record { max_bytes = bytes; max_chain_length = none }) n limit)
      refl

limit_flags-bytes :
    (allow : Bool) (bytes chain : Option ℕ)
    → ((n : ℕ) → bytes ≡ some n → IsLimit n)
    → ((n : ℕ) → chain ≡ some n → IsLimit n × (allow ≡ true))
    → limit_flags allow no_limits (List.◌++◌ (print_bytes bytes) (print_chain_length chain))
      ≡ ok (record { max_bytes = bytes; max_chain_length = chain })
unfolding limit_flags
limit_flags-bytes allow none chain h k = limit_flags-chain allow none chain k
limit_flags-bytes allow (some n) chain h k =
    rw (limit_flag-bytes allow no_limits n (h n refl)) (limit_flags-chain allow (some n) chain k)

-- Limits that a command line can state, each positive and a number of the machine, and a chain length
-- only where the command allows one, are read back from the flags that state them.
pub parse_limit_args-print_limits :
    (allow_chain_length : Bool) (a : LimitArgs)
    → IsPrintable allow_chain_length a
    → parse_limit_args (print_limits a) allow_chain_length ≡ ok a
unfolding parse_limit_args
parse_limit_args-print_limits allow_chain_length a h =
    limit_flags-bytes allow_chain_length a.max_bytes a.max_chain_length h.bytes h.chain_length
