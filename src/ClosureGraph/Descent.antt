-- ===== src/ClosureGraph/Descent.antt =====
-- src/closure_bundle.rs: where a walk reports no cycle and no edge that is not resolved, every node
-- that it reached is grounded.

use vertrule_verifier.Prelude.{
  ℕ, zero, suc, ◌≡◌, ◌⊎◌, ◌<◌, refl, sym, subst, ◌∙◌, String, some, List, [], ◌∷◌, arith, str_eq,
  eq_iff, Bool-cases, Option-cases, inl, inr, All, All-append_iff,
}
use vertrule_verifier.Prelude.Map
use vertrule_verifier.Prelude.Map.{Map}
use vertrule_verifier.Prelude.StringSet.{contains, contains-insert, contains-remove}
use vertrule_verifier.External.{External}
use vertrule_verifier.Support.{SupportMember, typed_receipt_dependency, depended_on_receipt, Packs}
use vertrule_verifier.LayeredPack.Report.{is_resolved}
use vertrule_verifier.ClosureGraph.{
  WalkState, Node, visit_member, visit_members, walk, initial_state, initial_fuel, typed_check,
  push_check, untyped_check, enter, leave,
}
use vertrule_verifier.ClosureGraph.Extent.{
  IsWithin-insert, unreached, unreached-insert, unreached-within, unreached-le-length,
}
use vertrule_verifier.ClosureGraph.Edges.{Has, Leads, HasEdge, Reaches}
use vertrule_verifier.ClosureGraph.Reach.{Has-insert}
use vertrule_verifier.ClosureGraph.Settled.{IsSettled, IsStep, Visited, visit_member-IsStep}
use vertrule_verifier.ClosureGraph.Depth.{enter-IsSettled, walk-IsStep, initial-IsSettled}
use vertrule_verifier.ClosureGraph.Closed.{walk-reachable_iff}
use vertrule_verifier.ClosureGraph.Grounded.{
  IsResolvedCheck, IsQuiet, IsSound, IsGrounded, grounded,
}

module _ ⦃x : External⦄ ⦃p : Packs⦄ where
  open p use {Role}

  module _ (index : Map Node) where
    -- What is reached is on the stack or grounded, while all is quiet.
    abbrev IsCovered : WalkState → Type 0
    IsCovered s =
        IsQuiet s → (j : String) → Has s.reachable j → Has s.on_stack j ⊎ IsGrounded index j

    -- A state that all is quiet after: it was quiet before, and what was visited is in order.
    abbrev Quiets : WalkState → WalkState → Type 0 → Type 0
    Quiets s after good = IsCovered after × (IsQuiet after → IsQuiet s × good)

    module _ (bound : ℕ) (step : String → WalkState → WalkState)
        (settles : (h : String) (s : WalkState)
          → unreached index s.reachable < bound
          → IsSettled index s
          → IsStep index s (step h s) × Has (step h s).reachable h)
        (quiets : (h : String) (s : WalkState)
          → unreached index s.reachable < bound
          → IsSettled index s
          → IsCovered s
          → Quiets s (step h s) (Unit {0})) where
      abbrev IsGood : SupportMember Role → Type 0
      IsGood member =
          IsSound index member × ((t : String) → Leads index member t → IsGrounded index t)

      visit_member-Quiets :
          (member : SupportMember Role) (s : WalkState)
          → unreached index s.reachable < bound
          → IsSettled index s
          → IsCovered s
          → Quiets s (visit_member step index member s) (IsGood member)
      unfolding visit_member Leads IsSound
      visit_member-Quiets (typed_receipt_dependency h role target) s few settled covered =
          let edge = typed_check index h role target in
          let checked = push_check edge s in
          let earlier : IsQuiet checked → IsQuiet s × IsResolvedCheck edge = λ q.
            let (old, new) = (All-append_iff IsResolvedCheck s.edge_checks edge).0 q.0 in
            ((old, q.1), new) in
          let ready : IsSettled index checked = record {
            stacked = settled.stacked;
            done = settled.done;
          } in
          elim (Bool-cases (contains s.on_stack h)) [
            | inl a ↦ rw (visit_member, a) (λ q. cc q.1, λ q. cc q.1)
            | inr a ↦ elim (Bool-cases (is_resolved edge.status)) [
              | inl b ↦
                  let (next, reached) = settles h checked few ready in
                  let (after, before) = quiets h checked few ready (λ q. covered (earlier q).0) in
                  rw (visit_member, a, b)
                    (
                      after,
                      λ q.
                          let now : IsGrounded index h = elim (after q h reached) [
                            | inl o ↦ cc (o, next.same_stack h, a)
                            | inr g ↦ g
                          ] in
                          (
                            (earlier (before q).0).0,
                            (refl, λ t leads. subst (IsGrounded index) leads.0 now),
                          ),
                    )
              | inr b ↦
                  rw (visit_member, a, b) (λ q. cc (b, (earlier q).1), λ q. cc (b, (earlier q).1))
            ]
          ]
      visit_member-Quiets (depended_on_receipt h) s few settled covered =
          let earlier : IsQuiet (push_check (untyped_check h) s) → ⊥ =
            λ q. cc ((All-append_iff IsResolvedCheck s.edge_checks (untyped_check h)).0 q.0).1 in
          (λ q. absurd (earlier q), λ q. absurd (earlier q))
      visit_member-Quiets _ s few settled covered = (covered, λ q. (q, (tt, λ t e. absurd e)))

      visit_members-Quiets :
          (members : List (SupportMember Role)) (s : WalkState)
          → unreached index s.reachable < bound
          → IsSettled index s
          → IsCovered s
          → Quiets s (visit_members step index members s) (
              All (IsSound index) members
              × ((t : String) → HasEdge index members t → IsGrounded index t))
      unfolding visit_members HasEdge Visited
      visit_members-Quiets [] s few settled covered = (covered, λ q. (q, (tt, λ t e. absurd e)))
      visit_members-Quiets (member ∷ rest) s few settled covered =
          let next = visit_member step index member s in
          let moved = (visit_member-IsStep index bound step settles member s few settled).0 in
          let fewer = unreached-within index s.reachable next.reachable moved.grown in
          let (mid, first) = visit_member-Quiets member s few settled covered in
          let (after, others) =
            visit_members-Quiets rest next (omega (arith, few, fewer)) moved.settled mid in
          (
            after,
            λ q.
                let (then_quiet, held) = others q in
                let (quiet, good) = first then_quiet in
                (
                  quiet,
                  ((good.0, held.0), λ t e. elim e [ inl a ↦ good.1 t a | inr a ↦ held.1 t a ]),
                ),
          )

    enter-IsCovered : (h : String) (s : WalkState) → IsCovered s → IsCovered (enter h s)
    enter-IsCovered h s covered q j r = elim (Has-insert s.reachable h j r) [
      | inl e ↦
          inl
            (contains-insert s.on_stack h j ∙ (let same = (eq_iff h j).1 e in ground (arith, same)))
      | inr e ↦ elim (covered q j e) [
        | inl o ↦ inl (IsWithin-insert s.on_stack h j o)
        | inr g ↦ inr g
      ]
    ]

    -- Leaving a node whose members are in order.
    leave-IsCovered :
        (h : String) (t : WalkState)
        → IsCovered t
        → (IsQuiet t → IsGrounded index h)
        → IsCovered (leave h t)
    leave-IsCovered h t covered good q j r = elim (covered q j r) [
      | inl o ↦
          let removed = contains-remove t.on_stack h j in
          elim (Bool-cases (str_eq h j)) [
            | inl e ↦ inr (subst (IsGrounded index) ((eq_iff h j).0 e) (good q))
            | inr e ↦ inl (ground (arith, removed, o, e))
          ]
      | inr g ↦ inr g
    ]

    node-IsGrounded :
        (h : String) (node : Node)
        → Map.get index h ≡ some node
        → All (IsSound index) node.support_set
          × ((t : String) → HasEdge index node.support_set t → IsGrounded index t)
        → IsGrounded index h
    node-IsGrounded h node found good =
        let same : (n : Node) → Map.get index h ≡ some n → node ≡ n = λ n p. cc (found, p) in
        grounded h
          (λ n p. subst (λ (m : Node). All (IsSound index) m.support_set) (same n p) good.0)
          (λ n t p e.
            good.1 t (subst (λ (m : Node). HasEdge index m.support_set t) (sym (same n p)) e))

    walk-Quiets :
        (fuel : ℕ) (h : String) (s : WalkState)
        → unreached index s.reachable < fuel
        → IsSettled index s
        → IsCovered s
        → Quiets s (walk fuel index h s) (Unit {0})
    unfolding walk
    walk-Quiets zero h s few settled covered = absurd (omega (arith, few))
    walk-Quiets (suc fuel) h s few settled covered =
        let entered = enter-IsSettled index h s settled in
        let before = enter-IsCovered h s covered in
        elim (Bool-cases (contains s.reachable h)) [
          | inl a ↦ rw (walk, a) (covered, λ q. (q, tt))
          | inr a ↦ elim (Option-cases (Map.get index h)) [
            | inl b ↦
                let good : IsGrounded index h =
                  grounded h (λ n found. cc (b, found)) (λ n t found e. cc (b, found)) in
                rw (walk, a, b) (leave-IsCovered h (enter h s) before (λ q. good), λ q. (q, tt))
            | inr (node, b) ↦
                let fewer = unreached-insert index s.reachable h node b a in
                let (after, held) =
                  visit_members-Quiets fuel (walk fuel index) (walk-IsStep index fuel)
                    (walk-Quiets fuel) node.support_set (enter h s) (omega (arith, few, fewer))
                    entered before in
                rw (walk, a, b)
                  (
                    leave-IsCovered h _ after (λ q. node-IsGrounded h node b (held q).1),
                    λ q. ((held q).0, tt),
                  )
          ]
        ]

  -- Where a walk from the root with the fuel of the model meets no cycle and only resolved edges,
  -- every node that resolved edges lead to from the root is grounded: its members and those of the
  -- nodes below it are no obstacle, and the descent from it ends.
  pub walk-IsGrounded :
      (index : Map Node) (root j : String)
      → IsQuiet (walk (initial_fuel index) index root initial_state)
      → Reaches index root j
      → IsGrounded index j
  unfolding contains
  walk-IsGrounded index root j quiet reaches =
      let few = unreached-le-length index [] in
      let settled = initial-IsSettled index in
      let (step, reached) =
        walk-IsStep index (initial_fuel index) root initial_state (omega (arith, few)) settled in
      let (covered, earlier) =
        walk-Quiets index (initial_fuel index) root initial_state (omega (arith, few)) settled
          (λ q k r. cc r) in
      elim (covered quiet j ((walk-reachable_iff index root j).1 reaches)) [
        | inl o ↦ cc (o, step.same_stack j)
        | inr g ↦ g
      ]
