-- ===== src/ClosureGraph/Ordered.antt =====
-- src/closure_bundle.rs: the set of reached nodes stays ascending, as a `BTreeSet` is.
use vertrule_verifier.Prelude.{
  ℕ, zero, suc, String, List, [], ◌∷◌, Bool-cases, Option-cases, inl, inr,
}
use vertrule_verifier.Prelude.Map
use vertrule_verifier.Prelude.Map.{Map}
use vertrule_verifier.Prelude.StringSet.{contains}
use vertrule_verifier.Prelude.StringSet.Ascending.{IsAscending, insert-IsAscending}
use vertrule_verifier.External.{External}
use vertrule_verifier.Support.{SupportMember, typed_receipt_dependency, depended_on_receipt, Packs}
use vertrule_verifier.LayeredPack.Report.{is_resolved}
use vertrule_verifier.ClosureGraph.{
  WalkState, Node, visit_member, visit_members, walk, typed_check, push_check, enter,
}

module _ ⦃x : External⦄ ⦃p : Packs⦄ where
  open p use {Role}

  abbrev IsOrdered : WalkState → Type 0
  IsOrdered s = IsAscending s.reachable

  module _ (index : Map Node) where
    module _ (step : String → WalkState → WalkState)
        (keeps : (h : String) (s : WalkState) → IsOrdered s → IsOrdered (step h s)) where
      visit_member-IsOrdered :
          (member : SupportMember Role) (s : WalkState)
          → IsOrdered s
          → IsOrdered (visit_member step index member s)
      unfolding visit_member
      visit_member-IsOrdered (typed_receipt_dependency h role target) s ordered =
          let edge = typed_check index h role target in
          elim (Bool-cases (contains s.on_stack h)) [
            | inl a ↦ rw (visit_member, a) ordered
            | inr a ↦ elim (Bool-cases (is_resolved edge.status)) [
              | inl b ↦ rw (visit_member, a, b) (keeps h (push_check edge s) ordered)
              | inr b ↦ rw (visit_member, a, b) ordered
            ]
          ]
      visit_member-IsOrdered (depended_on_receipt h) s ordered = ordered
      visit_member-IsOrdered _ s ordered = ordered

      visit_members-IsOrdered :
          (members : List (SupportMember Role)) (s : WalkState)
          → IsOrdered s
          → IsOrdered (visit_members step index members s)
      unfolding visit_members
      visit_members-IsOrdered [] s ordered = ordered
      visit_members-IsOrdered (member ∷ rest) s ordered =
          visit_members-IsOrdered rest (visit_member step index member s)
            (visit_member-IsOrdered member s ordered)

    pub walk-IsAscending :
        (fuel : ℕ) (h : String) (s : WalkState)
        → IsAscending s.reachable
        → IsAscending (walk fuel index h s).reachable
    unfolding walk
    walk-IsAscending zero h s ordered = ordered
    walk-IsAscending (suc fuel) h s ordered =
        let entered = insert-IsAscending s.reachable h ordered in
        elim (Bool-cases (contains s.reachable h)) [
          | inl a ↦ rw (walk, a) ordered
          | inr a ↦ elim (Option-cases (Map.get index h)) [
            | inl b ↦ rw (walk, a, b) entered
            | inr (node, b) ↦
                rw (walk, a, b)
                  (visit_members-IsOrdered (walk fuel index) (walk-IsAscending fuel)
                    node.support_set (enter h s) entered)
          ]
        ]
