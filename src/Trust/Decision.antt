-- ===== src/Trust/Decision.antt =====
-- src/trust.rs: when a signing key is trusted.
use vertrule_verifier.Prelude.{
  ℕ, ◌≤◌, ◌<◌, ◌≡◌, ◌≢◌, ◌↔◌, ◌⊎◌, inl, inr, refl, ◌∙◌, subst, Bool, true, false, Bool-cases,
  String, Option, none, some, arith, eq_iff, if◌then◌else◌,
}
use Prim.Native.String.{◌++◌}
use text.Mathlib.TextPositions.{eq_refl}
use vertrule_verifier.Prelude.Text.{display}
use vertrule_verifier.Prelude.Map
use vertrule_verifier.Prelude.Map.{get-insert}
use vertrule_verifier.Signature.{KeyId}
use vertrule_verifier.Trust.{
  AuthorityKey, AuthoritySet, Revocation, Verdict, verdict_after, TrustPolicy, trusted, revoked,
  untrusted, key_mismatch, passed, epoch_verdict, key_verdict, enforced, evaluate_trust, revoke,
}

-- The policy's epoch lies within the key's bounds: from the first, before the second.
pub record InEpoch (key : AuthorityKey) (policy : TrustPolicy) : Type 0 where
  pub started : key.valid_from_epoch ≤ policy.current_epoch
  pub not_ended : (until : ℕ) → key.valid_until_epoch ≡ some until → policy.current_epoch < until

-- A claimed public key, if there is one, is that of the entry, or the entry holds none.
pub record MatchesClaim (key : AuthorityKey) (claimed : Option String) : Type 0 where
  pub agrees :
      (c : String) → claimed ≡ some c → (key.public_key_b64 ≡ "") ⊎ (c ≡ key.public_key_b64)

-- The conditions for trust in a key identifier.
pub record IsTrusted (kid : String) (s : AuthoritySet) (policy : TrustPolicy)
    (claimed : Option String) : Type 0 where
  pub not_revoked : policy.enforce_revocation ≡ true → Map.get s.revocations kid ≡ none
  pub key : AuthorityKey
  pub listed : Map.get s.keys kid ≡ some key
  pub claim : MatchesClaim key claimed
  pub epoch : policy.enforce_epoch ≡ true → InEpoch key policy

passed-none_iff :
    (policy : TrustPolicy) (o : Option ℕ)
    → (passed policy o ≡ none) ↔ ((until : ℕ) → o ≡ some until → policy.current_epoch < until)
passed-none_iff policy none = (λ h u e. cc, λ h. refl)
passed-none_iff policy (some until) = (λ h u e. ground arith, λ h. ground (arith, h until refl))

epoch_verdict-trusted_iff :
    (key : AuthorityKey) (policy : TrustPolicy)
    → ((epoch_verdict key policy).0 ≡ trusted) ↔ (policy.enforce_epoch ≡ true → InEpoch key policy)
unfolding epoch_verdict
epoch_verdict-trusted_iff key policy =
    let bound = passed-none_iff policy key.valid_until_epoch in
    (
      λ h e. record { started = ground arith; not_ended = bound.0 (ground arith) },
      λ h. elim (Bool-cases policy.enforce_epoch) [
        | inl e ↦
            let inside = h e in
            let open_ended = bound.1 inside.not_ended in
            let started = inside.started in ground arith
        | inr e ↦ ground arith
      ],
    )

mismatch_iff :
    (key : AuthorityKey) (claimed : Option String)
    → (key_mismatch key claimed ≡ false) ↔ MatchesClaim key claimed
mismatch_iff key none = (λ h. record { agrees = λ c e. cc }, λ h. refl)
mismatch_iff key (some c) =
    let empty = eq_iff key.public_key_b64 "" in
    let same = eq_iff c key.public_key_b64 in
    (
      λ h. record { agrees = λ d e. ground (arith, empty, same) },
      λ h. elim (h.agrees c refl) [ inl e ↦ ground (arith, empty) | inr e ↦ ground (arith, same) ],
    )

claim_step_iff :
    (b : Bool) (detail : Option String) (v : Verdict)
    → ((if b then (untrusted, detail) else v).0 ≡ trusted) ↔ ((b ≡ false) × (v.0 ≡ trusted))
claim_step_iff true detail v = (λ h. cc, λ h. cc)
claim_step_iff false detail v = (λ h. (refl, h), λ h. h.1)

key_verdict-trusted_iff :
    (found : Option AuthorityKey) (policy : TrustPolicy) (claimed : Option String)
    → ((key_verdict found policy claimed).0 ≡ trusted) ↔ (
        (key : AuthorityKey) × (found ≡ some key)
        × MatchesClaim key claimed
        × (policy.enforce_epoch ≡ true → InEpoch key policy))
unfolding key_verdict
key_verdict-trusted_iff none policy claimed = (λ h. cc, λ h. cc h.1)
key_verdict-trusted_iff (some key) policy claimed =
    let tested = claim_step_iff (key_mismatch key claimed) _ (epoch_verdict key policy) in
    let mismatch = mismatch_iff key claimed in
    let epoch = epoch_verdict-trusted_iff key policy in
    (
      λ h. let (m, v) = tested.0 h in (key, refl, mismatch.0 m, epoch.0 v),
      λ h.
          let same : h.0 ≡ key = cc h.1 in
          tested.1 (
            mismatch.1 (subst (λ k. MatchesClaim k claimed) same h.2),
            epoch.1 (subst (λ k. policy.enforce_epoch ≡ true → InEpoch k policy) same h.3),
          ),
    )

enforced-none_iff :
    (policy : TrustPolicy) (o : Option Revocation)
    → (enforced policy o ≡ none) ↔ (policy.enforce_revocation ≡ true → o ≡ none)
enforced-none_iff policy o = (
  λ h e. ground arith,
  λ h. elim (Bool-cases policy.enforce_revocation) [
    | inl e ↦ let absent = h e in ground arith
    | inr e ↦ ground arith
  ],
)

verdict_after-trusted_iff :
    (o : Option Revocation) (v : Verdict)
    → ((verdict_after o v).0 ≡ trusted) ↔ ((o ≡ none) × (v.0 ≡ trusted))
verdict_after-trusted_iff none v = (λ h. (refl, h), λ h. h.1)
verdict_after-trusted_iff (some r) v = (λ h. cc, λ h. cc)

-- A key is trusted exactly when it is not revoked (where the policy enforces revocation), is listed
-- in the authority set, matches the claimed public key unless its entry holds none, and the current
-- epoch lies within its bounds (where the policy enforces the epoch).
pub evaluate_trust-trusted_iff :
    (k : KeyId) (s : AuthoritySet) (policy : TrustPolicy) (claimed : Option String)
    → ((evaluate_trust k s policy claimed).status ≡ trusted) ↔ IsTrusted k.as_hex s policy claimed
unfolding evaluate_trust
evaluate_trust-trusted_iff k s policy claimed =
    let kid = k.as_hex in
    let step =
      verdict_after-trusted_iff (enforced policy (Map.get s.revocations kid))
        (key_verdict (Map.get s.keys kid) policy claimed) in
    let allowed = enforced-none_iff policy (Map.get s.revocations kid) in
    let listed = key_verdict-trusted_iff (Map.get s.keys kid) policy claimed in
    (
      λ h.
          let (p, q) = step.0 h in
          let (key, found, claim, epoch) = listed.0 q in
          record {
            not_revoked = allowed.0 p;
            key = key;
            listed = found;
            claim = claim;
            epoch = epoch;
          },
      λ h. step.1 (allowed.1 h.not_revoked, listed.1 (h.key, h.listed, h.claim, h.epoch)),
    )

-- A policy that enforces revocation reports a key as revoked right after its revocation, whatever
-- the set and the claim, and the detail names the epoch and the reason.
pub evaluate_trust-revoke :
    (k : KeyId) (s : AuthoritySet) (r : Revocation) (policy : TrustPolicy) (claimed : Option String)
    → policy.enforce_revocation ≡ true
    → ((evaluate_trust k (revoke s k.as_hex r) policy claimed).status ≡ revoked)
      × ((evaluate_trust k (revoke s k.as_hex r) policy claimed).detail
          ≡ some ("revoked at epoch " ++ display r.revoked_at_epoch ++ ": " ++ r.reason))
unfolding evaluate_trust revoke
evaluate_trust-revoke k s r policy claimed h =
    let now : Map.get (Map.insert s.revocations k.as_hex r) k.as_hex ≡ some r =
      simp (get-insert, eq_refl) in
    (rw (h, now), rw (h, now))

-- A revocation of one key changes the trust decision on no other key.
pub evaluate_trust-revoke_ne :
    (k : KeyId) (s : AuthoritySet) (other : String) (r : Revocation) (policy : TrustPolicy)
    (claimed : Option String)
    → other ≢ k.as_hex
    → evaluate_trust k (revoke s other r) policy claimed ≡ evaluate_trust k s policy claimed
unfolding evaluate_trust revoke
evaluate_trust-revoke_ne k s other r policy claimed h =
    let kept : Map.get (Map.insert s.revocations other r) k.as_hex
        ≡ Map.get s.revocations k.as_hex =
      get-insert s.revocations other k.as_hex r ∙ ground (arith, eq_iff other k.as_hex) in
    rw kept

-- A detail is absent exactly where the verdict is trust.
IsExplained : Verdict → Type 0
IsExplained v = (v.1 ≡ none) ↔ (v.0 ≡ trusted)

epoch_verdict-IsExplained :
    (key : AuthorityKey) (policy : TrustPolicy) → IsExplained (epoch_verdict key policy)
unfolding epoch_verdict IsExplained
epoch_verdict-IsExplained key policy = (λ h. ground arith, λ h. ground arith)

key_verdict-IsExplained :
    (found : Option AuthorityKey) (policy : TrustPolicy) (claimed : Option String)
    → IsExplained (key_verdict found policy claimed)
unfolding key_verdict IsExplained
key_verdict-IsExplained none policy claimed = (λ h. cc, λ h. cc)
key_verdict-IsExplained (some key) policy claimed =
    elim (key_mismatch key claimed)
      as (λ b. IsExplained (
        if b
        then (untrusted, some "claimed public_key_b64 does not match authority set entry")
        else epoch_verdict key policy)) [
          | true ↦ (λ h. cc, λ h. cc)
          | false ↦ epoch_verdict-IsExplained key policy
        ]

verdict_after-IsExplained :
    (o : Option Revocation) (v : Verdict) → IsExplained v → IsExplained (verdict_after o v)
unfolding IsExplained
verdict_after-IsExplained none v h = h
verdict_after-IsExplained (some r) v h = (λ e. cc, λ e. cc)

-- The decision gives a detail message exactly when the key is not trusted, and names the set, the key
-- and the epoch that it was made for.
pub evaluate_trust-detail :
    (k : KeyId) (s : AuthoritySet) (policy : TrustPolicy) (claimed : Option String)
    → (((evaluate_trust k s policy claimed).detail ≡ none)
        ↔ ((evaluate_trust k s policy claimed).status ≡ trusted))
      × ((evaluate_trust k s policy claimed).authority_set_id ≡ s.set_id)
      × ((evaluate_trust k s policy claimed).key_id ≡ k.as_hex)
      × ((evaluate_trust k s policy claimed).evaluated_at_epoch ≡ policy.current_epoch)
unfolding evaluate_trust IsExplained
evaluate_trust-detail k s policy claimed = (
  verdict_after-IsExplained (enforced policy (Map.get s.revocations k.as_hex)) _
      (key_verdict-IsExplained (Map.get s.keys k.as_hex) policy claimed),
  refl,
  refl,
  refl,
)
