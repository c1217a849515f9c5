-- ===== src/ClosureGraph/Settled.antt =====
-- src/closure_bundle.rs: what visiting the members of a node keeps: the reached nodes are on the
-- stack or done, and the stack is the same after as before.
use vertrule_verifier.Prelude.{
  ℕ, ◌≡◌, ◌⊎◌, ◌<◌, refl, subst, ◌∙◌, String, some, List, [], ◌∷◌, arith, Bool-cases, inl, inr,
}
use vertrule_verifier.Prelude.Map
use vertrule_verifier.Prelude.Map.{Map}
use vertrule_verifier.Prelude.StringSet.{contains}
use vertrule_verifier.External.{External}
use vertrule_verifier.Support.{SupportMember, typed_receipt_dependency, depended_on_receipt, Packs}
use vertrule_verifier.LayeredPack.Report.{is_resolved}
use vertrule_verifier.ClosureGraph.{
  WalkState, Node, visit_member, visit_members, typed_check, push_check,
}
use vertrule_verifier.ClosureGraph.Extent.{IsWithin, unreached, unreached-within}
use vertrule_verifier.ClosureGraph.Edges.{Has, Leads, HasEdge}

module _ ⦃x : External⦄ ⦃p : Packs⦄ where
  open p use {Role}

  module _ (index : Map Node) where
    -- Every resolved edge of a node leads to what is reached.
    abbrev pub IsDone : List String → String → Type 0
    IsDone r h =
        (node : Node)
        → Map.get index h ≡ some node
        → (t : String) → HasEdge index node.support_set t
        → Has r t

    -- The invariant of the walk: what is on the stack is reached, and what is reached is on the
    -- stack or done.
    pub record IsSettled (s : WalkState) : Type 0 where
      pub stacked : (j : String) → Has s.on_stack j → Has s.reachable j
      pub done : (j : String) → Has s.reachable j → Has s.on_stack j ⊎ IsDone s.reachable j

    -- What a part of the walk does to a settled state.
    pub record IsStep (s after : WalkState) : Type 0 where
      pub settled : IsSettled after
      pub grown : IsWithin s.reachable after.reachable
      pub same_stack : (j : String) → contains after.on_stack j ≡ contains s.on_stack j

    pub IsStep-none : (s : WalkState) → IsSettled s → IsStep s s
    IsStep-none s h = record { settled = h; grown = λ j q. q; same_stack = λ j. refl }

    pub IsStep-trans : {s t u : WalkState} → IsStep s t → IsStep t u → IsStep s u
    IsStep-trans h k = record {
      settled = k.settled;
      grown = λ j q. k.grown j (h.grown j q);
      same_stack = λ j. k.same_stack j ∙ h.same_stack j;
    }

    -- A recursive call that settles its node wherever fewer than `bound` nodes are left.
    module _ (bound : ℕ) (step : String → WalkState → WalkState)
        (settles : (h : String) (s : WalkState)
          → unreached index s.reachable < bound
          → IsSettled s
          → IsStep s (step h s) × Has (step h s).reachable h) where
      unfoldable pub Visited : WalkState → WalkState → (String → Type 0) → Type 0
      Visited s after leads = IsStep s after × ((t : String) → leads t → Has after.reachable t)

      pub visit_member-IsStep :
          (member : SupportMember Role) (s : WalkState)
          → unreached index s.reachable < bound
          → IsSettled s
          → Visited s (visit_member step index member s) (Leads index member)
      unfolding visit_member Visited Leads
      visit_member-IsStep (typed_receipt_dependency h role target) s few settled =
          let edge = typed_check index h role target in
          let checked = push_check edge s in
          let ready : IsSettled checked = record {
            stacked = settled.stacked;
            done = settled.done;
          } in
          let stay : IsStep s checked = record {
            settled = ready;
            grown = λ j q. q;
            same_stack = λ j. refl;
          } in
          elim (Bool-cases (contains s.on_stack h)) [
            | inl a ↦
                rw (visit_member, a)
                  (
                    record {
                      settled = record { stacked = settled.stacked; done = settled.done };
                      grown = λ j q. q;
                      same_stack = λ j. refl;
                    },
                    λ t q. subst (Has s.reachable) q.0 (settled.stacked h a),
                  )
            | inr a ↦ elim (Bool-cases (is_resolved edge.status)) [
              | inl b ↦
                  let (next, reached) = settles h checked few ready in
                  rw (visit_member, a, b)
                    (
                      IsStep-trans stay next,
                      λ t q. subst (Has (step h checked).reachable) q.0 reached,
                    )
              | inr b ↦ rw (visit_member, a, b) (stay, λ t q. cc q.1)
            ]
          ]
      visit_member-IsStep (depended_on_receipt h) s few settled = (
        record {
          settled = record { stacked = settled.stacked; done = settled.done };
          grown = λ j q. q;
          same_stack = λ j. refl;
        },
        λ t q. absurd q,
      )
      visit_member-IsStep _ s few settled = (IsStep-none s settled, λ t q. absurd q)

      pub visit_members-IsStep :
          (members : List (SupportMember Role)) (s : WalkState)
          → unreached index s.reachable < bound
          → IsSettled s
          → Visited s (visit_members step index members s) (HasEdge index members)
      unfolding visit_members Visited HasEdge
      visit_members-IsStep [] s few settled = (IsStep-none s settled, λ t q. absurd q)
      visit_members-IsStep (member ∷ rest) s few settled =
          let next = visit_member step index member s in
          let (first, leads) = visit_member-IsStep member s few settled in
          let fewer = unreached-within index s.reachable next.reachable first.grown in
          let (others, edges) =
            visit_members-IsStep rest next (omega (arith, few, fewer)) first.settled in
          (
            IsStep-trans first others,
            λ t q. elim q [ inl e ↦ others.grown t (leads t e) | inr e ↦ edges t e ],
          )
