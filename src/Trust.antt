-- ===== src/Trust.antt =====
-- src/trust.rs: authority sets, trust policies and the trust decision on a signing key.
pub mod Decision
use Prim.Native.String.{◌++◌}
use vertrule_verifier.Prelude.{
  ℕ, Bool, true, false, ◌&&◌, not, String, Option, none, some, [], ltb, leb, str_eq, if◌then◌else◌,
}
use vertrule_verifier.Prelude.Text.{display}
use vertrule_verifier.Prelude.Map
use vertrule_verifier.Prelude.Map.{Map}
use vertrule_verifier.Signature.{KeyId}

pub record AuthorityKey : Type 0 where
  pub public_key_b64 : String
  pub valid_from_epoch : ℕ
  pub valid_until_epoch : Option ℕ

pub record Revocation : Type 0 where
  pub reason : String
  pub revoked_at_epoch : ℕ

pub record AuthoritySet : Type 0 where
  pub set_id : String
  pub keys : Map AuthorityKey
  pub revocations : Map Revocation

-- `AuthoritySet::new`
abbrev pub new : String → AuthoritySet
new set_id = record { set_id = set_id; keys = []; revocations = [] }

unfoldable pub add_key : AuthoritySet → String → AuthorityKey → AuthoritySet
add_key s key_id key = record s { keys = Map.insert s.keys key_id key }

unfoldable pub revoke : AuthoritySet → String → Revocation → AuthoritySet
revoke s key_id revocation = record s { revocations = Map.insert s.revocations key_id revocation }

pub record TrustPolicy : Type 0 where
  pub current_epoch : ℕ
  pub enforce_epoch : Bool
  pub enforce_revocation : Bool

-- `TrustPolicy::default()`
abbrev pub default_policy : TrustPolicy
default_policy = record { current_epoch = 1; enforce_epoch = true; enforce_revocation = true }

pub data TrustStatus : Type 0 where
  trusted untrusted revoked wrong_epoch : TrustStatus

-- `impl Display for TrustStatus`
abbrev pub status_to_string : TrustStatus → String
status_to_string trusted = "trusted"
status_to_string untrusted = "untrusted"
status_to_string revoked = "revoked"
status_to_string wrong_epoch = "wrong_epoch"

pub record TrustValidation : Type 0 where
  pub status : TrustStatus
  pub authority_set_id : String
  pub key_id : String
  pub evaluated_at_epoch : ℕ
  pub detail : Option String

-- The status of a decision and its detail.
abbrev Verdict : Type 0
Verdict = TrustStatus × Option String

-- `if let Some(claimed) = claimed_public_key_b64 { .. }`: whether the claim is rejected
abbrev key_mismatch : AuthorityKey → Option String → Bool
key_mismatch key none = false
key_mismatch key (some claimed) =
    not (str_eq key.public_key_b64 "") && not (str_eq claimed key.public_key_b64)

-- `if let Some(until) = authority_key.valid_until_epoch { .. }`: the epoch that is passed
abbrev passed : TrustPolicy → Option ℕ → Option ℕ
passed policy none = none
passed policy (some until) = if leb until policy.current_epoch then some until else none

-- The last part of `evaluate_trust`: the epoch bounds.
epoch_verdict : AuthorityKey → TrustPolicy → Verdict
epoch_verdict key policy =
    if not policy.enforce_epoch
    then (trusted, none)
    else if ltb policy.current_epoch key.valid_from_epoch
    then (
      wrong_epoch,
      some (
          "current epoch "
          ++ display policy.current_epoch
          ++ " is before key's valid_from_epoch "
          ++ display key.valid_from_epoch),
    )
    else elim (passed policy key.valid_until_epoch) [
      | some until ↦ (
        wrong_epoch,
        some (
            "current epoch "
            ++ display policy.current_epoch
            ++ " is at or past key's valid_until_epoch "
            ++ display until),
      )
      | none ↦ (trusted, none)
    ]

-- The part after the revocation check.
key_verdict : Option AuthorityKey → TrustPolicy → Option String → Verdict
unfolding epoch_verdict
key_verdict none policy claimed = (untrusted, some "key not found in authority set")
key_verdict (some key) policy claimed =
    if key_mismatch key claimed
    then (untrusted, some "claimed public_key_b64 does not match authority set entry")
    else epoch_verdict key policy

-- `authority_set.revocations.get(&kid)`, consulted if the policy enforces revocation
abbrev enforced : TrustPolicy → Option Revocation → Option Revocation
enforced policy found = if policy.enforce_revocation then found else none

-- `if let Some(revocation) = .. { return .. }`, and the verdict otherwise
abbrev verdict_after : Option Revocation → Verdict → Verdict
verdict_after (some r) rest =
    (revoked, some ("revoked at epoch " ++ display r.revoked_at_epoch ++ ": " ++ r.reason))
verdict_after none rest = rest

verdict : String → AuthoritySet → TrustPolicy → Option String → Verdict
unfolding key_verdict
verdict kid s policy claimed =
    verdict_after (enforced policy (Map.get s.revocations kid))
      (key_verdict (Map.get s.keys kid) policy claimed)

unfoldable pub evaluate_trust : KeyId → AuthoritySet → TrustPolicy → Option String → TrustValidation
unfolding verdict
evaluate_trust key_id s policy claimed =
    let kid = key_id.as_hex in
    let (status, detail) = verdict kid s policy claimed in
    record {
      status = status;
      authority_set_id = s.set_id;
      key_id = kid;
      evaluated_at_epoch = policy.current_epoch;
      detail = detail;
    }
