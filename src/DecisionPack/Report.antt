-- ===== src/DecisionPack/Report.antt =====
-- src/decision_pack.rs: the types of a pack and of its result, and the tests and checks on a member.
use Prim.Native.String.{◌++◌}
use mathlib.Core.List
use vertrule_verifier.Prelude.{
  ℕ, Bool, true, false, ◌&&◌, ◌||◌, not, String, Option, none, some, List, [], ◌∷◌, all, any,
  length, leb, ◌==◌, str_eq, if◌then◌else◌,
}
use vertrule_verifier.Prelude.Text.{as_bytes, chars}
use vertrule_verifier.SchemaProfile.{profile_version}
use vertrule_verifier.Result.{
  VerificationStatus, VerificationResult, invalid, is_valid, invalid_result,
}
use vertrule_verifier.Support.{DecisionVerdict, allow, deny, conditional, no_match, join}

abbrev pub expected_format : String
expected_format = "vr-decision-pack/v1"

pub record DecisionPack : Type 0 where
  pub format : String
  pub decision_canonical : String
  pub depended_on : List String

pub data MemberStatus : Type 0 where
  verified committed missing failed : MemberStatus

-- `{:?}` of a status
abbrev member_debug : MemberStatus → String
member_debug verified = "Verified"
member_debug committed = "Committed"
member_debug missing = "Missing"
member_debug failed = "Failed"

-- `matches!(status, MemberStatus::Verified | MemberStatus::Committed)`
abbrev pub holds : MemberStatus → Bool
holds verified = true
holds committed = true
holds missing = false
holds failed = false

pub record SupportMemberCheck : Type 0 where
  pub member_kind : String
  pub reference : String
  pub status : MemberStatus
  pub detail : Option String

pub record DecisionPackVerificationResult : Type 0 where
  pub status : VerificationStatus
  pub schema_version : String
  pub decision_result : VerificationResult
  pub verdict_kind : Option String
  pub member_checks : List SupportMemberCheck
  pub errors : List String

abbrev pub verdict_kind_label : DecisionVerdict → String
verdict_kind_label allow = "allow"
verdict_kind_label deny = "deny"
verdict_kind_label conditional = "conditional"
verdict_kind_label no_match = "no_match"

-- `c.is_ascii_hexdigit() && !c.is_ascii_uppercase()`
abbrev pub is_lower_digit : ℕ → Bool
is_lower_digit c =
    (leb b'0' c && leb c b'9' || leb b'a' c && leb c b'f' || leb b'A' c && leb c b'F')
    && not (leb b'A' c && leb c b'Z')

unfoldable pub is_lower_hex_64 : String → Bool
is_lower_hex_64 s = length (as_bytes s) == 64 && all is_lower_digit (chars s)

-- `char::is_whitespace`: the characters of the Unicode property White_Space
abbrev pub is_whitespace : ℕ → Bool
is_whitespace c =
    leb 9 c && leb c 13
    || c == 32
    || c == 133
    || c == 160
    || c == 5760
    || leb 8192 c && leb c 8202
    || c == 8232
    || c == 8233
    || c == 8239
    || c == 8287
    || c == 12288

-- `url.trim().is_empty()`
abbrev pub is_blank : String → Bool
is_blank url = all is_whitespace (chars url)

abbrev pub invalid_pack : String → DecisionPackVerificationResult
invalid_pack error = record {
  status = invalid;
  schema_version = profile_version;
  decision_result = invalid_result "pack-level error";
  verdict_kind = none;
  member_checks = [];
  errors = error ∷ [];
}

abbrev pub check : String → String → MemberStatus → Option String → SupportMemberCheck
check member_kind reference status detail = record {
  member_kind = member_kind;
  reference = reference;
  status = status;
  detail = detail;
}

-- `failed_hashes.iter().find(|(h, _)| h == event_hash)`: the detail
abbrev pub find_failed : String → List (String × String) → Option String
find_failed event_hash [] = none
find_failed event_hash ((h, detail) ∷ rest) =
    if str_eq h event_hash then some detail else find_failed event_hash rest

-- The part of `walk_member` that a depended-on receipt and a typed dependency share.
abbrev pub walk_receipt :
    String → String → List String → List (String × String) → SupportMemberCheck
walk_receipt kind event_hash verified_hashes failed_hashes =
    if any (λ h. str_eq h event_hash) verified_hashes
    then check kind event_hash verified none
    else elim (find_failed event_hash failed_hashes) [
      | some detail ↦
          check kind event_hash failed (some ("supplied receipt does not verify: " ++ detail))
      | none ↦ check kind event_hash missing (some "committed receipt not supplied in pack")
    ]

-- The vectors that the loop over the supplied receipts pushes to.
pub record SupplyState : Type 0 where
  pub verified_hashes : List String
  pub failed_hashes : List (String × String)
  pub errors : List String

-- The match of that loop.
abbrev pub note_supplied : VerificationResult → Option String → SupplyState → SupplyState
note_supplied result (some h) s =
    if is_valid result.status
    then record s { verified_hashes = List.◌++◌ s.verified_hashes (h ∷ []) }
    else record s { failed_hashes = List.◌++◌ s.failed_hashes ((h, join result.errors) ∷ []) }
note_supplied result none s = record s {
  errors =
      List.◌++◌ s.errors ("depended-on receipt has no readable event_hash and was ignored" ∷ []);
}

-- The vectors that the loop over the support set pushes to.
pub record MemberState : Type 0 where
  pub errors : List String
  pub member_checks : List SupportMemberCheck

abbrev pub member_error : SupportMemberCheck → String
member_error c =
    "support member "
    ++ c.member_kind
    ++ " \""
    ++ c.reference
    ++ "\" is OUT ("
    ++ member_debug c.status
    ++ ")"

abbrev pub note_member : SupportMemberCheck → MemberState → MemberState
note_member c s = record {
  errors = if holds c.status then s.errors else List.◌++◌ s.errors (member_error c ∷ []);
  member_checks = List.◌++◌ s.member_checks (c ∷ []);
}
