-- ===== src/ClosureGraph/Fuel.antt =====
-- src/closure_bundle.rs: the fuel that the walk is given is enough.
use vertrule_verifier.Prelude.{
  ℕ, zero, suc, ◌+◌, ◌<◌, ◌≡◌, refl, sym, ap, ◌∙◌, String, List, [], ◌∷◌, arith, Bool-cases,
  Option-cases, inl, inr,
}
use vertrule_verifier.Prelude.Map
use vertrule_verifier.Prelude.Map.{Map}
use vertrule_verifier.Prelude.StringSet.{contains}
use vertrule_verifier.External.{External}
use vertrule_verifier.Support.{SupportMember, typed_receipt_dependency, depended_on_receipt, Packs}
use vertrule_verifier.LayeredPack.Report.{is_resolved}
use vertrule_verifier.ClosureGraph.{
  WalkState, Node, visit_member, visit_members, walk, initial_fuel, typed_check, push_check, enter,
  leave,
}
use vertrule_verifier.ClosureGraph.Extent.{
  IsWithin, unreached, unreached-le-length, unreached-within, unreached-insert,
  visit_member-IsWithin, walk-IsWithin,
}

module _ ⦃x : External⦄ ⦃p : Packs⦄ where
  open p use {Role}

  -- Two recursive calls that agree wherever fewer than `bound` nodes are left.
  module _ (index : Map Node) (bound : ℕ) (step also : String → WalkState → WalkState)
      (agree : (h : String) (s : WalkState)
        → unreached index s.reachable < bound
        → step h s ≡ also h s)
      (grows : (h : String) (s : WalkState) → IsWithin s.reachable (step h s).reachable) where
    visit_member-agree :
        (member : SupportMember Role) (s : WalkState)
        → unreached index s.reachable < bound
        → visit_member step index member s ≡ visit_member also index member s
    unfolding visit_member
    visit_member-agree (typed_receipt_dependency h role target) s few =
        let edge = typed_check index h role target in
        elim (Bool-cases (contains s.on_stack h)) [
          | inl a ↦ rw (visit_member, a)
          | inr a ↦ elim (Bool-cases (is_resolved edge.status)) [
            | inl b ↦ rw (visit_member, a, b) (agree h (push_check edge s) few)
            | inr b ↦ rw (visit_member, a, b)
          ]
        ]
    visit_member-agree (depended_on_receipt h) s few = refl
    visit_member-agree _ s few = refl

    visit_members-agree :
        (members : List (SupportMember Role)) (s : WalkState)
        → unreached index s.reachable < bound
        → visit_members step index members s ≡ visit_members also index members s
    unfolding visit_members
    visit_members-agree [] s few = refl
    visit_members-agree (member ∷ rest) s few =
        let next = visit_member step index member s in
        let fewer =
          unreached-within index s.reachable next.reachable
            (visit_member-IsWithin step index grows member s) in
        visit_members-agree rest next (omega (arith, few, fewer))
        ∙ ap (visit_members also index rest) (visit_member-agree member s few)

  -- With more fuel than nodes that are left, one more makes no difference.
  walk-suc :
      (fuel : ℕ) (index : Map Node) (h : String) (s : WalkState)
      → unreached index s.reachable < fuel
      → walk fuel index h s ≡ walk (suc fuel) index h s
  unfolding walk
  walk-suc zero index h s few = absurd (omega (arith, few))
  walk-suc (suc fuel) index h s few = elim (Bool-cases (contains s.reachable h)) [
    | inl a ↦ rw (walk, a)
    | inr a ↦ elim (Option-cases (Map.get index h)) [
      | inl b ↦ rw (walk, a, b)
      | inr (node, b) ↦
          let fewer = unreached-insert index s.reachable h node b a in
          rw (walk, a, b)
            (ap (leave h) (
              visit_members-agree index fuel (walk fuel index) (walk (suc fuel) index)
                (walk-suc fuel index) (walk-IsWithin fuel index) node.support_set (enter h s)
                (omega (arith, few, fewer))))
    ]
  ]

  -- The fuel of the model is enough: more of it changes nothing, from any state and node.
  pub walk-enough :
      (extra : ℕ) (index : Map Node) (h : String) (s : WalkState)
      → walk (extra + initial_fuel index) index h s ≡ walk (initial_fuel index) index h s
  walk-enough zero index h s = ap (λ n. walk n index h s) (omega arith)
  walk-enough (suc extra) index h s =
      let few = unreached-le-length index s.reachable in
      ap (λ n. walk n index h s) (omega arith)
      ∙ sym (walk-suc (extra + initial_fuel index) index h s (omega (arith, few)))
      ∙ walk-enough extra index h s
