-- ===== src/DecisionPack/Members.antt =====
-- src/decision_pack.rs: when a member of the support set holds, and what the walk over them collects.

use vertrule_verifier.Prelude.{
  ◌≡◌, ◌↔◌, refl, Bool, true, false, String, List, [], ◌∷◌, arith, all, All, append-ne-nil,
  all-append-true_iff, Bool-cases, Option-cases, inl, inr,
}
use vertrule_verifier.External.{External}
use vertrule_verifier.Support.{
  SupportMember, typed_receipt_dependency, depended_on_receipt, evidence_digest, cited_link,
  selector_value, Packs,
}
use vertrule_verifier.DecisionPack.{walk_member, walk_members}
use vertrule_verifier.DecisionPack.Report.{
  SupportMemberCheck, MemberState, holds, is_lower_hex_64, is_blank, find_failed, walk_receipt,
  note_member, member_error,
}
use vertrule_verifier.DecisionPack.Supply.{listed}

walk_receipt-holds_iff :
    (kind h : String) (verified : List String) (failed : List (String × String))
    → (holds (walk_receipt kind h verified failed).status ≡ true) ↔ (listed h verified ≡ true)
walk_receipt-holds_iff kind h verified failed = elim (Bool-cases (listed h verified)) [
  | inl p ↦ (λ q. p, λ q. rw p)
  | inr p ↦ elim (Option-cases (find_failed h failed)) [
    | inl f ↦ (λ q. ground (arith, p, f, q), λ q. cc (p, q))
    | inr (d, f) ↦ (λ q. ground (arith, p, f, q), λ q. cc (p, q))
  ]
]

module _ ⦃x : External⦄ ⦃p : Packs⦄ where
  open p use {Role}

  -- A member that holds, given the hashes that were verified: a dependency is among them, a digest
  -- is 64 lowercase hexadecimal digits, a link is not blank.
  unfoldable pub Holds : List String → SupportMember Role → Type 0
  Holds verified (typed_receipt_dependency event_hash role target_schema) =
      listed event_hash verified ≡ true
  Holds verified (depended_on_receipt event_hash) = listed event_hash verified ≡ true
  Holds verified (evidence_digest id digest) = is_lower_hex_64 digest ≡ true
  Holds verified (cited_link id url) = is_blank url ≡ false
  Holds verified (selector_value key) = Unit

  walk_member-Holds_iff :
      (member : SupportMember Role) (verified : List String) (failed : List (String × String))
      → (holds (walk_member member verified failed).status ≡ true) ↔ Holds verified member
  unfolding walk_member Holds
  walk_member-Holds_iff (typed_receipt_dependency event_hash role target) verified failed =
      walk_receipt-holds_iff "typed_receipt_dependency" event_hash verified failed
  walk_member-Holds_iff (depended_on_receipt event_hash) verified failed =
      walk_receipt-holds_iff "depended_on_receipt" event_hash verified failed
  walk_member-Holds_iff (evidence_digest id digest) verified failed =
      (λ q. ground (arith, q), λ q. rw q)
  walk_member-Holds_iff (cited_link id url) verified failed = (λ q. ground (arith, q), λ q. rw q)
  walk_member-Holds_iff (selector_value key) verified failed = (λ q. tt, λ q. refl)

  note_member-nil_iff :
      (c : SupportMemberCheck) (s : MemberState)
      → ((note_member c s).errors ≡ []) ↔ ((s.errors ≡ []) × (holds c.status ≡ true))
  note_member-nil_iff c s = elim (Bool-cases (holds c.status)) [
    | inl q ↦ (λ h. (ground (arith, h, q), q), λ h. ground (arith, h, q))
    | inr q ↦ (
      λ h. absurd (append-ne-nil s.errors (member_error c) (ground (arith, h, q))),
      λ h. cc (h.1, q),
    )
  ]

  abbrev pub all_hold : List SupportMemberCheck → Bool
  all_hold checks = all (λ c. holds c.status) checks

  module _ (verified : List String) (failed : List (String × String)) where
    pub walk_members-nil_iff :
        (members : List (SupportMember Role)) (s : MemberState)
        → ((walk_members members verified failed s).errors ≡ [])
          ↔ ((s.errors ≡ []) × All (Holds verified) members)
    unfolding walk_members
    walk_members-nil_iff [] s = (λ q. (q, tt), λ q. q.0)
    walk_members-nil_iff (member ∷ rest) s =
        let c = walk_member member verified failed in
        let here = note_member-nil_iff c s in
        let held = walk_member-Holds_iff member verified failed in
        let others = walk_members-nil_iff rest (note_member c s) in
        (
          λ q. let (a, b) = others.0 q in let (d, e) = here.0 a in (d, (held.0 e, b)),
          λ q. others.1 (here.1 (q.0, held.1 q.1.0), q.1.1),
        )

    pub walk_members-Holds_iff :
        (members : List (SupportMember Role)) (s : MemberState)
        → (all_hold (walk_members members verified failed s).member_checks ≡ true)
          ↔ ((all_hold s.member_checks ≡ true) × All (Holds verified) members)
    unfolding walk_members
    walk_members-Holds_iff [] s = (λ q. (q, tt), λ q. q.0)
    walk_members-Holds_iff (member ∷ rest) s =
        let c = walk_member member verified failed in
        let here = all-append-true_iff (λ d. holds d.status) s.member_checks c in
        let held = walk_member-Holds_iff member verified failed in
        let others = walk_members-Holds_iff rest (note_member c s) in
        (
          λ q. let (a, b) = others.0 q in let (d, e) = here.0 a in (d, (held.0 e, b)),
          λ q. others.1 (here.1 (q.0, held.1 q.1.0), q.1.1),
        )
