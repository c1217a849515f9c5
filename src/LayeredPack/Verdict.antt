-- ===== src/LayeredPack/Verdict.antt =====
-- src/layered_pack.rs: when a pack is valid.
use vertrule_verifier.Prelude.{
  ◌≡◌, ◌↔◌, refl, sym, subst, String, List, [], Result, ok, err, str_eq, eq_iff, All, All_iff,
  is_empty_iff, is_empty, ok-injective, ok-holds_iff, ↔_trans,
}
use vertrule_verifier.Prelude.Text.{as_bytes}
use vertrule_verifier.External.{External}
use vertrule_verifier.Result.{VerificationResult, valid, is_valid}
use vertrule_verifier.Result.Status.{is_valid_iff, chosen-valid_iff, tested-valid_iff}
use vertrule_verifier.Verify.{verify_receipt}
use vertrule_verifier.Support.{SupportMember, typed_receipt_dependency, depended_on_receipt, Packs}
use vertrule_verifier.LayeredPack.{
  layered_result, walk_edges, index_all, extract_layered_payload, verify_layered_pack,
}
use vertrule_verifier.LayeredPack.Report.{
  LayeredPack, EdgeState, expected_format, root_errors, invalid_pack,
}
use vertrule_verifier.LayeredPack.Root.{IsLayeredRoot, extract_layered_payload-ok_iff}
use vertrule_verifier.LayeredPack.Supply.{Supplies, find_supplied-IsTarget_iff}
use vertrule_verifier.LayeredPack.Edges.{
  IsHeld, all_resolved, walk_edges-nil_iff, walk_edges-IsResolved_iff,
}

pub root_errors-nil :
    (label : String) (r : VerificationResult) → r.status ≡ valid → root_errors label r ≡ []
root_errors-nil label r h = rw h

module _ ⦃x : External⦄ ⦃p : Packs⦄ where
  open p use {Role}

  -- A member of the support set that is no obstacle: a typed dependency that the supplied texts
  -- hold, or a member that is no dependency. An untyped dependency always is one.
  unfoldable pub IsSupplied : List String → SupportMember Role → Type 0
  IsSupplied raws (typed_receipt_dependency event_hash role target_schema) =
      Supplies event_hash target_schema raws
  IsSupplied raws (depended_on_receipt event_hash) = ⊥
  IsSupplied raws _ = Unit

  IsHeld-IsSupplied_iff :
      (raws : List String) (member : SupportMember Role)
      → IsHeld (index_all raws) member ↔ IsSupplied raws member
  unfolding IsHeld IsSupplied
  IsHeld-IsSupplied_iff raws (typed_receipt_dependency event_hash role target_schema) =
      find_supplied-IsTarget_iff event_hash target_schema raws
  IsHeld-IsSupplied_iff raws (depended_on_receipt event_hash) = (λ q. q, λ q. q)
  IsHeld-IsSupplied_iff raws _ = (λ q. q, λ q. q)

  -- What makes a layered pack valid.
  pub record IsValidPack (pack : LayeredPack) : Type 0 where
    pub has_format : pack.format ≡ expected_format
    pub root_valid : (verify_receipt (as_bytes pack.root_canonical)).status ≡ valid
    pub kind : String
    pub support_set : List (SupportMember Role)
    pub is_layered : IsLayeredRoot pack.root_canonical kind support_set
    pub all_held : All (IsSupplied pack.receipts) support_set

  module _ (pack : LayeredPack) (root : VerificationResult) where
    layered_result-valid_iff :
        (payload : Result String (String × List (SupportMember Role)))
        → ((layered_result pack root payload).status ≡ valid) ↔ (
            (root.status ≡ valid)
            × ((kind : String) × (members : List (SupportMember Role)) × (payload
                  ≡ ok (kind, members))
                × All (IsHeld (index_all pack.receipts)) members))
    layered_result-valid_iff (err e) = (λ h. cc, λ h. cc h.1.2)
    layered_result-valid_iff (ok (kind, members)) =
        let supplied = index_all pack.receipts in
        let s : EdgeState = record {
          errors = root_errors "root envelope: " root;
          edge_checks = [];
        } in
        let final = walk_edges members supplied s in
        let root_is = is_valid_iff root.status in
        let quiet = is_empty_iff final.errors in
        let noted = walk_edges-nil_iff members supplied s in
        let resolved = walk_edges-IsResolved_iff members supplied s in
        let chosen =
          chosen-valid_iff (is_valid root.status) (is_empty final.errors)
            (all_resolved final.edge_checks) in
        (
          λ h.
              let (a, b, c) = chosen.0 h in
              (root_is.0 a, (kind, members, refl, (noted.0 (quiet.0 b)).1)),
          λ h.
              let held : All (IsHeld supplied) members =
                subst (λ q. All (IsHeld supplied) q.1) (sym (ok-injective h.1.2)) h.1.3 in
              let clear = root_errors-nil "root envelope: " root h.0 in
              chosen.1 (root_is.1 h.0, quiet.1 (noted.1 (clear, held)), resolved.1 (refl, held)),
        )

  -- When a pack that parses is valid.
  pack-valid_iff :
      (pack : LayeredPack) → ((verify_layered_pack (ok pack)).status ≡ valid) ↔ IsValidPack pack
  unfolding verify_layered_pack
  pack-valid_iff pack =
      let root = verify_receipt (as_bytes pack.root_canonical) in
      let payload = extract_layered_payload pack.root_canonical in
      let format = eq_iff pack.format expected_format in
      let inner = layered_result-valid_iff pack root payload in
      let is_root = extract_layered_payload-ok_iff pack.root_canonical in
      let held = All_iff (IsHeld-IsSupplied_iff pack.receipts) in
      let tested =
        tested-valid_iff (λ r. r.status) (str_eq pack.format expected_format) (invalid_pack _)
          (layered_result pack root payload) refl in
      (
        λ h.
            let (q, r) = tested.0 h in
            let (a, (kind, members, b, c)) = inner.0 r in
            record {
              has_format = format.0 q;
              root_valid = a;
              kind = kind;
              support_set = members;
              is_layered = (is_root kind members).0 b;
              all_held = (held members).0 c;
            },
        λ v.
            let extracted = (is_root v.kind v.support_set).1 v.is_layered in
            let members = (held v.support_set).1 v.all_held in
            tested.1 (
              format.1 v.has_format,
              inner.1 (v.root_valid, (v.kind, v.support_set, extracted, members)),
            ),
      )

  -- A layered pack is reported valid exactly when it parses, has the expected format, its root
  -- receipt is reported valid and is JSON with a payload of one of the two layered kinds and a
  -- support set that is read or absent, and for every member of it: no dependency is untyped, and
  -- for each typed one the first supplied text that is JSON with its event hash is reported valid
  -- and has a payload of the kind that the edge names. (A kind that is stated as no text counts as
  -- the empty one.)
  pub verify_layered_pack-valid_iff :
      (parsed : Result String LayeredPack)
      → ((verify_layered_pack parsed).status ≡ valid)
        ↔ ((pack : LayeredPack) × (parsed ≡ ok pack) × IsValidPack pack)
  unfolding verify_layered_pack
  verify_layered_pack-valid_iff (err e) = (λ h. cc, λ h. cc h.1)
  verify_layered_pack-valid_iff (ok pack) =
      ↔_trans (pack-valid_iff pack) (ok-holds_iff IsValidPack pack)
