-- ===== src/DecisionPack/Verdict.antt =====
-- src/decision_pack.rs: when a pack is valid.
use vertrule_verifier.Prelude.{
  ◌≡◌, ◌↔◌, inl, inr, refl, sym, subst, true, String, List, [], Result, ok, err, str_eq, eq_iff,
  All, All_iff, is_empty, is_empty_iff, ok-injective, ok-holds_iff, ↔_trans,
}
use vertrule_verifier.Prelude.Text.{as_bytes, chars}
use vertrule_verifier.External.{External}
use vertrule_verifier.Result.{VerificationResult, valid, is_valid}
use vertrule_verifier.Result.Status.{is_valid_iff, chosen-valid_iff, tested-valid_iff}
use vertrule_verifier.Verify.{verify_receipt}
use vertrule_verifier.Support.{
  SupportMember, typed_receipt_dependency, depended_on_receipt, evidence_digest, cited_link,
  selector_value, DecisionReceiptPayload, Packs,
}
use vertrule_verifier.LayeredPack.Report.{root_errors}
use vertrule_verifier.LayeredPack.Verdict.{root_errors-nil}
use vertrule_verifier.DecisionPack.{
  index_supplied, walk_members, extract_decision_payload, decision_pack_result,
  verify_decision_pack,
}
use vertrule_verifier.DecisionPack.Report.{
  DecisionPack, SupplyState, MemberState, expected_format, invalid_pack,
}
use vertrule_verifier.DecisionPack.Payload.{
  IsDigest, HasInk, IsDecision, is_lower_hex_64_iff, is_blank_iff, extract_decision_payload-ok_iff,
}
use vertrule_verifier.DecisionPack.Supply.{
  listed, Replays, IsReadable, index_supplied-listed_iff, index_supplied-nil_iff,
}
use vertrule_verifier.DecisionPack.Members.{
  Holds, all_hold, walk_members-nil_iff, walk_members-Holds_iff,
}

module _ ⦃x : External⦄ ⦃p : Packs⦄ where
  open p use {Role}

  -- A member that holds, given the supplied receipts: a dependency, typed or not, is replayed by
  -- one of them, a digest is 64 lowercase hexadecimal digits, and a link is not blank.
  unfoldable pub IsHeld : List String → SupportMember Role → Type 0
  IsHeld supplied (typed_receipt_dependency event_hash role target) = Replays supplied event_hash
  IsHeld supplied (depended_on_receipt event_hash) = Replays supplied event_hash
  IsHeld supplied (evidence_digest id digest) = IsDigest digest
  IsHeld supplied (cited_link id url) = HasInk (chars url)
  IsHeld supplied (selector_value key) = Unit

  Holds-IsHeld_iff :
      (supplied verified : List String)
      → ((h : String) → (listed h verified ≡ true) ↔ Replays supplied h)
      → (member : SupportMember Role) → Holds verified member ↔ IsHeld supplied member
  unfolding Holds IsHeld
  Holds-IsHeld_iff supplied verified f (typed_receipt_dependency event_hash role target) =
      f event_hash
  Holds-IsHeld_iff supplied verified f (depended_on_receipt event_hash) = f event_hash
  Holds-IsHeld_iff supplied verified f (evidence_digest id digest) = is_lower_hex_64_iff digest
  Holds-IsHeld_iff supplied verified f (cited_link id url) = is_blank_iff url
  Holds-IsHeld_iff supplied verified f (selector_value key) = (λ h. h, λ h. h)

  module _ (pack : DecisionPack) (decision : VerificationResult) where
    decision_pack_result-valid_iff :
        (payload : Result String (DecisionReceiptPayload Role))
        → ((decision_pack_result pack decision payload).status ≡ valid) ↔ (
            (decision.status ≡ valid)
            × All IsReadable pack.depended_on
            × ((b : DecisionReceiptPayload Role) × (payload ≡ ok b)
                × All (IsHeld pack.depended_on) b.support_set))
    decision_pack_result-valid_iff (err e) = (λ h. cc, λ h. cc h.2.1)
    decision_pack_result-valid_iff (ok b) =
        let raws = pack.depended_on in
        let s : SupplyState = record {
          verified_hashes = [];
          failed_hashes = [];
          errors = root_errors "decision envelope: " decision;
        } in
        let supply = index_supplied raws s in
        let start : MemberState = record { errors = supply.errors; member_checks = [] } in
        let verified = supply.verified_hashes in
        let failed = supply.failed_hashes in
        let final = walk_members b.support_set verified failed start in
        let replayed : (h : String) → (listed h verified ≡ true) ↔ Replays raws h = λ h.
          let each = index_supplied-listed_iff h raws s in
          (λ q. elim (each.0 q) [ inl a ↦ cc a | inr a ↦ a ], λ q. each.1 (inr q)) in
        let same = All_iff (Holds-IsHeld_iff raws verified replayed) b.support_set in
        let quiet = is_empty_iff final.errors in
        let noted = walk_members-nil_iff verified failed b.support_set start in
        let held = walk_members-Holds_iff verified failed b.support_set start in
        let readable = index_supplied-nil_iff raws s in
        let chosen =
          chosen-valid_iff (is_valid decision.status) (is_empty final.errors)
            (all_hold final.member_checks) in
        (
          λ h.
              let (a, q, r) = chosen.0 h in
              let (errors, holding) = noted.0 (quiet.0 q) in
              (
                (is_valid_iff decision.status).0 a,
                (readable.0 errors).1,
                (b, refl, same.0 holding),
              ),
          λ h.
              let holding =
                same.1
                  (subst (λ c. All (IsHeld raws) c.support_set) (sym (ok-injective h.2.1)) h.2.2) in
              let clear = root_errors-nil "decision envelope: " decision h.0 in
              chosen.1 (
                (is_valid_iff decision.status).1 h.0,
                quiet.1 (noted.1 (readable.1 (clear, h.1), holding)),
                held.1 (refl, holding),
              ),
        )

  -- What makes a decision pack valid.
  pub record IsValidPack (pack : DecisionPack) : Type 0 where
    pub has_format : pack.format ≡ expected_format
    pub decision_valid : (verify_receipt (as_bytes pack.decision_canonical)).status ≡ valid
    pub readable : All IsReadable pack.depended_on
    pub payload : DecisionReceiptPayload Role
    pub is_decision : IsDecision pack.decision_canonical payload
    pub all_held : All (IsHeld pack.depended_on) payload.support_set

  -- When a pack that parses is valid.
  pack-valid_iff :
      (pack : DecisionPack) → ((verify_decision_pack (ok pack)).status ≡ valid) ↔ IsValidPack pack
  unfolding verify_decision_pack
  pack-valid_iff pack =
      let decision = verify_receipt (as_bytes pack.decision_canonical) in
      let payload = extract_decision_payload pack.decision_canonical in
      let format = eq_iff pack.format expected_format in
      let inner = decision_pack_result-valid_iff pack decision payload in
      let is_decision = extract_decision_payload-ok_iff pack.decision_canonical in
      let tested =
        tested-valid_iff (λ r. r.status) (str_eq pack.format expected_format) (invalid_pack _)
          (decision_pack_result pack decision payload) refl in
      (
        λ h.
            let (q, r) = tested.0 h in
            let (a, readable, (b, c, d)) = inner.0 r in
            record {
              has_format = format.0 q;
              decision_valid = a;
              readable = readable;
              payload = b;
              is_decision = (is_decision b).0 c;
              all_held = d;
            },
        λ v.
            let extracted = (is_decision v.payload).1 v.is_decision in
            tested.1 (
              format.1 v.has_format,
              inner.1 (v.decision_valid, v.readable, (v.payload, extracted, v.all_held)),
            ),
      )

  -- A decision pack is reported valid exactly when it parses, has the expected format, its decision
  -- receipt is reported valid and is JSON with a payload of the decision kind that is read as a
  -- decision, every supplied text is JSON with a text for its event hash, whether a member refers to
  -- it or not, and every member of the decision's support set holds: a dependency is the event hash
  -- of a supplied text that is reported valid, a digest is 64 characters from 0 to 9 and a to f, and
  -- a link has a character that is no white space. (A kind that is stated as no text counts as the
  -- empty one.)
  pub verify_decision_pack-valid_iff :
      (parsed : Result String DecisionPack)
      → ((verify_decision_pack parsed).status ≡ valid)
        ↔ ((pack : DecisionPack) × (parsed ≡ ok pack) × IsValidPack pack)
  unfolding verify_decision_pack
  verify_decision_pack-valid_iff (err e) = (λ h. cc, λ h. cc h.1)
  verify_decision_pack-valid_iff (ok pack) =
      ↔_trans (pack-valid_iff pack) (ok-holds_iff IsValidPack pack)
