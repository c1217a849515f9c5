-- ===== src/ClosureGraph/Depth.antt =====
-- src/closure_bundle.rs: a walk settles the node that it starts from.
use vertrule_verifier.Prelude.{
  ℕ, zero, suc, ◌≡◌, ◌<◌, sym, subst, ◌∙◌, ap, false, String, arith, str_eq, eq_iff, Bool-cases,
  Option-cases, inl, inr,
}
use vertrule_verifier.Prelude.Map
use vertrule_verifier.Prelude.Map.{Map}
use vertrule_verifier.Prelude.StringSet.{contains, insert, contains-insert, contains-remove}
use vertrule_verifier.External.{External}
use vertrule_verifier.Support.{Packs}
use vertrule_verifier.ClosureGraph.{WalkState, Node, walk, initial_state, enter, leave}
use vertrule_verifier.ClosureGraph.Extent.{IsWithin-insert, unreached, unreached-insert}
use vertrule_verifier.ClosureGraph.Edges.{Has, HasEdge}
use vertrule_verifier.ClosureGraph.Reach.{Has-insert}
use vertrule_verifier.ClosureGraph.Settled.{
  IsDone, IsSettled, IsStep, IsStep-none, Visited, visit_members-IsStep,
}

module _ ⦃x : External⦄ ⦃p : Packs⦄ where
  module _ (index : Map Node) where
    pub enter-IsSettled :
        (h : String) (s : WalkState) → IsSettled index s → IsSettled index (enter h s)
    enter-IsSettled h s settled =
        let grown = IsWithin-insert s.reachable h in
        let on : Has (insert s.on_stack h) h =
          contains-insert s.on_stack h h ∙ ground (arith, eq_iff h h) in
        record {
          stacked = λ j q. elim (Has-insert s.on_stack h j q) [
            | inl e ↦
                subst (Has (insert s.reachable h)) e
                  (contains-insert s.reachable h h ∙ ground (arith, eq_iff h h))
            | inr e ↦ grown j (settled.stacked j e)
          ];
          done = λ j q. elim (Has-insert s.reachable h j q) [
            | inl e ↦ inl (subst (Has (insert s.on_stack h)) e on)
            | inr e ↦ elim (settled.done j e) [
              | inl o ↦ inl (IsWithin-insert s.on_stack h j o)
              | inr d ↦ inr (λ node found t edge. grown t (d node found t edge))
            ]
          ];
        }

    -- Leaving a node that is done, from a state that entering it led to.
    pub leave-IsStep :
        (h : String) (s t : WalkState)
        → contains s.reachable h ≡ false
        → IsSettled index s
        → IsStep index (enter h s) t
        → IsDone index t.reachable h
        → IsStep index s (leave h t) × Has (leave h t).reachable h
    leave-IsStep h s t fresh before step done =
        let off : contains s.on_stack h ≡ false = elim (Bool-cases (contains s.on_stack h)) [
          | inl a ↦ cc (fresh, before.stacked h a)
          | inr a ↦ a
        ] in
        (
          record {
            settled = record {
              stacked = λ j q.
                  let removed = contains-remove t.on_stack h j in
                  step.settled.stacked j (ground (arith, q, removed));
              done = λ j q. elim (step.settled.done j q) [
                | inl o ↦
                    let removed = contains-remove t.on_stack h j in
                    elim (Bool-cases (str_eq h j)) [
                      | inl e ↦ inr (subst (IsDone index t.reachable) ((eq_iff h j).0 e) done)
                      | inr e ↦ inl (ground (arith, removed, o, e))
                    ]
                | inr d ↦ inr d
              ];
            };
            grown = λ j q. step.grown j (IsWithin-insert s.reachable h j q);
            same_stack = λ j.
                let removed = contains-remove t.on_stack h j in
                let same = step.same_stack j in
                let inserted = contains-insert s.on_stack h j in
                elim (Bool-cases (str_eq h j)) [
                  | inl e ↦
                      let gone : contains s.on_stack j ≡ false =
                        ap (contains s.on_stack) (sym ((eq_iff h j).0 e)) ∙ off in
                      ground (arith, removed, e, gone)
                  | inr e ↦ ground (arith, removed, e, same, inserted)
                ];
          },
          step.grown h (contains-insert s.reachable h h ∙ ground (arith, eq_iff h h)),
        )

    pub walk-IsStep :
        (fuel : ℕ) (h : String) (s : WalkState)
        → unreached index s.reachable < fuel
        → IsSettled index s
        → IsStep index s (walk fuel index h s) × Has (walk fuel index h s).reachable h
    unfolding walk Visited
    walk-IsStep zero h s few settled = absurd (omega (arith, few))
    walk-IsStep (suc fuel) h s few settled =
        let entered = enter-IsSettled h s settled in
        elim (Bool-cases (contains s.reachable h)) [
          | inl a ↦ rw (walk, a) (IsStep-none index s settled, a)
          | inr a ↦ elim (Option-cases (Map.get index h)) [
            | inl b ↦
                rw (walk, a, b)
                  (leave-IsStep h s (enter h s) a settled (IsStep-none index (enter h s) entered)
                    (λ node found t edge. cc (b, found)))
            | inr (node, b) ↦
                let fewer = unreached-insert index s.reachable h node b a in
                let (step, edges) =
                  visit_members-IsStep index fuel (walk fuel index) (walk-IsStep fuel)
                    node.support_set (enter h s) (omega (arith, few, fewer)) entered in
                rw (walk, a, b)
                  (leave-IsStep h s _ a settled step (λ n found t edge.
                    let same : n ≡ node = cc (b, found) in
                    edges t (subst (λ (m : Node). HasEdge index m.support_set t) same edge)))
          ]
        ]

    pub initial-IsSettled : IsSettled index initial_state
    unfolding contains
    initial-IsSettled = record { stacked = λ j q. cc; done = λ j q. cc }
