-- ===== src/Cli/Terminal.antt =====
-- src/bin/vr_verify.rs: what a run writes, the usage text, and the names of the commands.
use Prim.Native.String.{◌++◌}
use vertrule_verifier.Prelude.{
  ℕ, String, Option, none, some, List, [], ◌∷◌, Result, ok, err, str_eq, if◌then◌else◌,
}
use vertrule_verifier.Result.{VerificationStatus, valid, invalid}

-- What a run writes to the two streams, and its exit code.
pub record Output : Type 0 where
  pub stdout : List ℕ
  pub stderr : List String
  pub code : ℕ

-- The files and standard output: what reading a path gives, and whether a write succeeds after what
-- has been written. What a failed write leaves behind is not told.
pub record Host : Type 0 where
  pub read : String → Result String (List ℕ)
  pub write_all : List ℕ → List ℕ → Result String (Unit {0})

pub data Command : Type 0 where
  receipt chain signed bundle layered decision closure external : Command

abbrev pub usage : String
usage =
    "Usage:\n" ++ "  vr-verify receipt <file.json> [--max-bytes <N>]\n"
    ++ "  vr-verify chain   <chain.json> [--max-bytes <N>] [--max-chain-length <N>]\n"
    ++ "  vr-verify signed  <file.json> <sig.json> [--trust <trust.json>]\n"
    ++ "  vr-verify bundle  <bundle.json>\n" ++ "  vr-verify layered <pack.json>\n"
    ++ "  vr-verify decision <pack.json>\n" ++ "  vr-verify closure <bundle.json>\n"
    ++ "  vr-verify external <receipt.json>\n" ++ "\n" ++ "Options:\n"
    ++ "  --max-bytes <N>         Reject input larger than N bytes (must be > 0).\n"
    ++ "  --max-chain-length <N>  Reject chains with more than N envelopes (must be > 0).\n"
    ++ "  --trust <trust.json>    Evaluate the signing key against an authority set and\n"
    ++ "                          trust policy: {\"authority_set\": ..., \"trust_policy\": ...}.\n"
    ++ "\n" ++ "Omitting the limit/trust flags preserves the default verification behavior.\n"
    ++ "\n" ++ "Exit codes:\n" ++ "  0  VALID\n" ++ "  1  INVALID / UNSIGNED\n"
    ++ "  2  Usage error"

-- `eprintln!(..); return ExitCode::from(2)`
abbrev pub failure : List String → Output
failure lines = record { stdout = []; stderr = lines; code = 2 }

abbrev pub usage_error : String → Output
usage_error message = failure (("Error: " ++ message) ∷ usage ∷ [])

-- `if args.len() != 3 { .. }`
abbrev pub sole : String → List String → Output → Output
sole name [] run = run
sole name (extra ∷ rest) run = usage_error ("'" ++ name ++ "' expects exactly one argument")

-- `match parse_limit_args(..)` and `match parse_trust_arg(..)`
abbrev pub flagged : {A : Type 0} → (A → Output) → Result String A → Output
flagged run (ok a) = run a
flagged run (err e) = usage_error e

-- The texts that the match on the command names.
abbrev pub command_name : Command → String
command_name receipt = "receipt"
command_name chain = "chain"
command_name signed = "signed"
command_name bundle = "bundle"
command_name layered = "layered"
command_name decision = "decision"
command_name closure = "closure"
command_name external = "external"

-- The arms of the match on the command.
unfoldable pub command_of : String → Option Command
command_of s =
    if str_eq s "receipt"
    then some receipt
    else if str_eq s "chain"
    then some chain
    else if str_eq s "signed"
    then some signed
    else if str_eq s "bundle"
    then some bundle
    else if str_eq s "layered"
    then some layered
    else if str_eq s "decision"
    then some decision
    else if str_eq s "closure"
    then some closure
    else if str_eq s "external"
    then some external
    else none

-- The match on the status that each command ends with.
abbrev pub exit_code : VerificationStatus → ℕ
exit_code valid = 0
exit_code invalid = 1
