-- ===== src/LayeredPack/Edges.antt =====
-- src/layered_pack.rs: when an edge is resolved, and what the loop over the support set collects.

use vertrule_verifier.Prelude.{
  ◌≡◌, ◌↔◌, refl, Bool, true, String, Option, none, some, List, [], ◌∷◌, arith, str_eq, eq_iff, all,
  All, append-ne-nil, all-append-true_iff, Bool-cases, inl, inr,
}
use vertrule_verifier.External.{External}
use vertrule_verifier.Result.{valid, is_valid}
use vertrule_verifier.Result.Status.{is_valid_iff}
use vertrule_verifier.Support.{SupportMember, typed_receipt_dependency, depended_on_receipt, Packs}
use vertrule_verifier.LayeredPack.{walk_edge, walk_edges}
use vertrule_verifier.LayeredPack.Report.{
  EdgeCheck, EdgeState, SuppliedReceipt, is_resolved, find_supplied, classify, note_edge,
  edge_error,
}

-- A receipt that stands for the target of an edge: it is valid, and of the kind that the edge names.
pub record IsTarget (found : Option SuppliedReceipt) (target_schema : String) : Type 0 where
  pub supplied : SuppliedReceipt
  pub is_found : found ≡ some supplied
  pub verifies : supplied.status ≡ valid
  pub has_kind : supplied.payload_kind ≡ target_schema

classify-resolved_iff :
    (found : Option SuppliedReceipt) (target : String)
    → (is_resolved (classify found target).0 ≡ true) ↔ IsTarget found target
unfolding classify
classify-resolved_iff none target = (λ h. cc, λ h. cc h.is_found)
classify-resolved_iff (some s) target =
    let verifies = is_valid_iff s.status in
    let kind = eq_iff s.payload_kind target in
    (
      λ h. record {
        supplied = s;
        is_found = refl;
        verifies = ground (arith, verifies);
        has_kind = ground (arith, kind);
      },
      λ h.
          let p : is_valid s.status ≡ true = verifies.1 (cc (h.is_found, h.verifies)) in
          let q : str_eq s.payload_kind target ≡ true = kind.1 (cc (h.is_found, h.has_kind)) in
          rw (p, q),
    )

-- What is pushed for one edge keeps the list of errors empty exactly when the edge is resolved.
IsResolved : Option EdgeCheck → Type 0
IsResolved none = Unit
IsResolved (some check) = is_resolved check.status ≡ true

note_edge-nil_iff :
    (check : Option EdgeCheck) (s : EdgeState)
    → ((note_edge check s).errors ≡ []) ↔ ((s.errors ≡ []) × IsResolved check)
unfolding IsResolved
note_edge-nil_iff none s = (λ h. (h, tt), λ h. h.0)
note_edge-nil_iff (some check) s = elim (Bool-cases (is_resolved check.status)) [
  | inl p ↦ (λ h. (ground (arith, h, p), p), λ h. ground (arith, h, p))
  | inr p ↦ (
    λ h. absurd (append-ne-nil s.errors (edge_error check) (ground (arith, h, p))),
    λ h. cc (h.1, p),
  )
]

abbrev pub all_resolved : List EdgeCheck → Bool
all_resolved checks = all (λ c. is_resolved c.status) checks

note_edge-IsResolved_iff :
    (check : Option EdgeCheck) (s : EdgeState)
    → (all_resolved (note_edge check s).edge_checks ≡ true)
      ↔ ((all_resolved s.edge_checks ≡ true) × IsResolved check)
unfolding IsResolved
note_edge-IsResolved_iff none s = (λ h. (h, tt), λ h. h.0)
note_edge-IsResolved_iff (some check) s =
    all-append-true_iff (λ c. is_resolved c.status) s.edge_checks check

module _ ⦃x : External⦄ ⦃p : Packs⦄ where
  open p use {Role}

  -- A member of the support set that is no obstacle: a typed dependency whose target is supplied,
  -- or a member that is no dependency. An untyped dependency always is one.
  unfoldable pub IsHeld : List SuppliedReceipt → SupportMember Role → Type 0
  IsHeld supplied (typed_receipt_dependency event_hash role target_schema) =
      IsTarget (find_supplied event_hash supplied) target_schema
  IsHeld supplied (depended_on_receipt event_hash) = ⊥
  IsHeld supplied _ = Unit

  walk_edge-IsResolved_iff :
      (member : SupportMember Role) (supplied : List SuppliedReceipt)
      → IsResolved (walk_edge member supplied) ↔ IsHeld supplied member
  unfolding walk_edge IsResolved IsHeld
  walk_edge-IsResolved_iff (typed_receipt_dependency event_hash role target_schema) supplied =
      classify-resolved_iff (find_supplied event_hash supplied) target_schema
  walk_edge-IsResolved_iff (depended_on_receipt event_hash) supplied = (λ h. cc, λ h. absurd h)
  walk_edge-IsResolved_iff _ supplied = (λ h. tt, λ h. tt)

  pub walk_edges-nil_iff :
      (members : List (SupportMember Role)) (supplied : List SuppliedReceipt) (s : EdgeState)
      → ((walk_edges members supplied s).errors ≡ [])
        ↔ ((s.errors ≡ []) × All (IsHeld supplied) members)
  unfolding walk_edges
  walk_edges-nil_iff [] supplied s = (λ h. (h, tt), λ h. h.0)
  walk_edges-nil_iff (member ∷ rest) supplied s =
      let check = walk_edge member supplied in
      let here = note_edge-nil_iff check s in
      let held = walk_edge-IsResolved_iff member supplied in
      let others = walk_edges-nil_iff rest supplied (note_edge check s) in
      (
        λ h. let (a, b) = others.0 h in let (c, d) = here.0 a in (c, (held.0 d, b)),
        λ h. others.1 (here.1 (h.0, held.1 h.1.0), h.1.1),
      )

  pub walk_edges-IsResolved_iff :
      (members : List (SupportMember Role)) (supplied : List SuppliedReceipt) (s : EdgeState)
      → (all_resolved (walk_edges members supplied s).edge_checks ≡ true)
        ↔ ((all_resolved s.edge_checks ≡ true) × All (IsHeld supplied) members)
  unfolding walk_edges
  walk_edges-IsResolved_iff [] supplied s = (λ h. (h, tt), λ h. h.0)
  walk_edges-IsResolved_iff (member ∷ rest) supplied s =
      let check = walk_edge member supplied in
      let here = note_edge-IsResolved_iff check s in
      let held = walk_edge-IsResolved_iff member supplied in
      let others = walk_edges-IsResolved_iff rest supplied (note_edge check s) in
      (
        λ h. let (a, b) = others.0 h in let (c, d) = here.0 a in (c, (held.0 d, b)),
        λ h. others.1 (here.1 (h.0, held.1 h.1.0), h.1.1),
      )
