-- ===== src/ClosureGraph/Reach.antt =====
-- src/closure_bundle.rs: every node that a walk reaches is reached over resolved edges.
use vertrule_verifier.Prelude.{
  ℕ, zero, suc, ◌≡◌, ◌⊎◌, refl, sym, subst, String, some, List, [], ◌∷◌, str_eq, eq_iff, Bool-cases,
  Option-cases, ||-true_iff, inl, inr, ◌∙◌,
}
use vertrule_verifier.Prelude.Map
use vertrule_verifier.Prelude.Map.{Map}
use vertrule_verifier.Prelude.StringSet.{contains, insert, contains-insert}
use vertrule_verifier.External.{External}
use vertrule_verifier.Support.{SupportMember, typed_receipt_dependency, depended_on_receipt, Packs}
use vertrule_verifier.LayeredPack.Report.{is_resolved}
use vertrule_verifier.ClosureGraph.{
  WalkState, Node, visit_member, visit_members, walk, initial_state, typed_check, push_check, enter,
}
use vertrule_verifier.ClosureGraph.Edges.{Has, Leads, HasEdge, Reaches, here, there}

-- What an insertion adds.
pub Has-insert : (r : List String) (h j : String) → Has (insert r h) j → (h ≡ j) ⊎ Has r j
Has-insert r h j q =
    elim ((||-true_iff (str_eq h j) (contains r j)).0 (sym (contains-insert r h j) ∙ q)) [
      | inl a ↦ inl ((eq_iff h j).0 a)
      | inr a ↦ inr a
    ]

module _ ⦃x : External⦄ ⦃p : Packs⦄ where
  open p use {Role}

  -- A property that holds of what is reached, kept by a recursive call at a node that has it.
  module _ (index : Map Node) (P : String → Type 0) where
    abbrev AllReached : WalkState → Type 0
    AllReached s = (j : String) → Has s.reachable j → P j

    module _ (step : String → WalkState → WalkState)
        (keeps : (h : String) (s : WalkState) → P h → AllReached s → AllReached (step h s)) where
      visit_member-AllReached :
          (member : SupportMember Role) (s : WalkState)
          → ((t : String) → Leads index member t → P t)
          → AllReached s
          → AllReached (visit_member step index member s)
      unfolding visit_member Leads
      visit_member-AllReached (typed_receipt_dependency h role target) s leads all =
          let edge = typed_check index h role target in
          elim (Bool-cases (contains s.on_stack h)) [
            | inl a ↦ rw (visit_member, a) all
            | inr a ↦ elim (Bool-cases (is_resolved edge.status)) [
              | inl b ↦
                  rw (visit_member, a, b) (keeps h (push_check edge s) (leads h (refl, b)) all)
              | inr b ↦ rw (visit_member, a, b) all
            ]
          ]
      visit_member-AllReached (depended_on_receipt h) s leads all = all
      visit_member-AllReached _ s leads all = all

      visit_members-AllReached :
          (members : List (SupportMember Role)) (s : WalkState)
          → ((t : String) → HasEdge index members t → P t)
          → AllReached s
          → AllReached (visit_members step index members s)
      unfolding visit_members HasEdge
      visit_members-AllReached [] s leads all = all
      visit_members-AllReached (member ∷ rest) s leads all =
          visit_members-AllReached rest (visit_member step index member s) (λ t e. leads t (inr e))
            (visit_member-AllReached member s (λ t e. leads t (inl e)) all)

    walk-AllReached :
        (fuel : ℕ)
        → ((h t : String) (node : Node)
            → P h
            → Map.get index h ≡ some node
            → HasEdge index node.support_set t
            → P t)
        → (h : String) (s : WalkState) → P h
        → AllReached s
        → AllReached (walk fuel index h s)
    unfolding walk
    walk-AllReached zero closed h s q all = all
    walk-AllReached (suc fuel) closed h s q all =
        let entered : AllReached (enter h s) =
          λ j r. elim (Has-insert s.reachable h j r) [ inl e ↦ subst P e q | inr e ↦ all j e ] in
        elim (Bool-cases (contains s.reachable h)) [
          | inl a ↦ rw (walk, a) all
          | inr a ↦ elim (Option-cases (Map.get index h)) [
            | inl b ↦ rw (walk, a, b) entered
            | inr (node, b) ↦
                rw (walk, a, b)
                  (visit_members-AllReached (walk fuel index) (walk-AllReached fuel closed)
                    node.support_set (enter h s) (λ t. closed h t node q b) entered)
          ]
        ]

  -- A walk from the root reaches only what resolved edges lead to.
  pub walk-Reaches :
      (fuel : ℕ) (index : Map Node) (root j : String)
      → Has (walk fuel index root initial_state).reachable j
      → Reaches index root j
  unfolding contains
  walk-Reaches fuel index root j =
      walk-AllReached index (Reaches index root) fuel
        (λ h t node q found edge. there h t node q found edge) root initial_state here (λ k r. cc) j
