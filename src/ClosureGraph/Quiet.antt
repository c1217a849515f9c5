-- ===== src/ClosureGraph/Quiet.antt =====
-- src/closure_bundle.rs: a walk over a grounded graph reports no cycle and no edge that is not
-- resolved, so that the walk says exactly which roots are grounded.
use vertrule_verifier.Prelude.{
  ℕ, zero, suc, ◌≡◌, ◌↔◌, ◌<◌, refl, subst, String, some, List, [], ◌∷◌, arith, Bool-cases,
  Option-cases, inl, inr, All, All-append_iff,
}
use vertrule_verifier.Prelude.Map
use vertrule_verifier.Prelude.Map.{Map}
use vertrule_verifier.Prelude.StringSet.{contains}
use vertrule_verifier.External.{External}
use vertrule_verifier.Support.{SupportMember, typed_receipt_dependency, depended_on_receipt, Packs}
use vertrule_verifier.ClosureGraph.{
  WalkState, Node, visit_member, visit_members, walk, initial_state, initial_fuel, typed_check,
  push_check, enter,
}
use vertrule_verifier.ClosureGraph.Extent.{
  unreached, unreached-insert, unreached-within, unreached-le-length,
}
use vertrule_verifier.ClosureGraph.Edges.{Has, Leads, HasEdge, Reaches, here, there}
use vertrule_verifier.ClosureGraph.Reach.{Has-insert}
use vertrule_verifier.ClosureGraph.Settled.{IsSettled, IsStep, Visited, visit_member-IsStep}
use vertrule_verifier.ClosureGraph.Depth.{enter-IsSettled, walk-IsStep, initial-IsSettled}
use vertrule_verifier.ClosureGraph.Grounded.{
  IsResolvedCheck, IsQuiet, IsSound, IsGrounded, grounded,
}
use vertrule_verifier.ClosureGraph.Descent.{walk-IsGrounded}
use vertrule_verifier.ClosureGraph.Acyclic.{IsCyclic, IsGrounded-acyclic}

module _ ⦃x : External⦄ ⦃p : Packs⦄ where
  open p use {Role}

  module _ (index : Map Node) where
    -- Every node on the stack reaches the node.
    abbrev IsLed : WalkState → String → Type 0
    IsLed s h = (k : String) → Has s.on_stack k → Reaches index k h

    IsGrounded-IsSound :
        (h : String) (node : Node)
        → IsGrounded index h
        → Map.get index h ≡ some node
        → All (IsSound index) node.support_set
    IsGrounded-IsSound h node (grounded h' sound below) found = sound node found

    IsGrounded-below :
        (h t : String) (node : Node)
        → IsGrounded index h
        → Map.get index h ≡ some node
        → HasEdge index node.support_set t
        → IsGrounded index t
    IsGrounded-below h t node (grounded h' sound below) found edge = below node t found edge

    -- A recursive call that stays quiet at a grounded node that all of the stack reaches.
    module _ (bound : ℕ) (step : String → WalkState → WalkState)
        (settles : (h : String) (s : WalkState)
          → unreached index s.reachable < bound
          → IsSettled index s
          → IsStep index s (step h s) × Has (step h s).reachable h)
        (stays : (h : String) (s : WalkState)
          → unreached index s.reachable < bound
          → IsSettled index s
          → IsGrounded index h
          → IsLed s h
          → IsQuiet s
          → IsQuiet (step h s))
        (h : String) (node : Node) (found : Map.get index h ≡ some node)
        (good : IsGrounded index h) where
      visit_member-IsQuiet :
          (member : SupportMember Role) (s : WalkState)
          → unreached index s.reachable < bound
          → IsSettled index s
          → IsLed s h
          → IsSound index member
          → ((t : String) → Leads index member t → HasEdge index node.support_set t)
          → IsQuiet s
          → IsQuiet (visit_member step index member s)
      unfolding visit_member Leads IsSound
      visit_member-IsQuiet (typed_receipt_dependency t role target) s few settled led sound edges
            quiet =
          let check = typed_check index t role target in
          let checked = push_check check s in
          let edge = edges t (refl, sound) in
          let ready : IsSettled index checked = record {
            stacked = settled.stacked;
            done = settled.done;
          } in
          let now : IsQuiet checked =
            ((All-append_iff IsResolvedCheck s.edge_checks check).1 (quiet.0, sound), quiet.1) in
          elim (Bool-cases (contains s.on_stack t)) [
            | inl a ↦
                let cycle : IsCyclic index h = record {
                  node = node;
                  is_found = found;
                  target = t;
                  edge = edge;
                  returns = led t a;
                } in
                absurd (IsGrounded-acyclic index h good cycle)
            | inr a ↦
                rw (visit_member, a, sound)
                  (stays t checked few ready (IsGrounded-below h t node good found edge)
                    (λ k q. there h t node (led k q) found edge) now)
          ]
      visit_member-IsQuiet (depended_on_receipt t) s few settled led sound edges quiet =
          absurd sound
      visit_member-IsQuiet _ s few settled led sound edges quiet = quiet

      visit_members-IsQuiet :
          (members : List (SupportMember Role)) (s : WalkState)
          → unreached index s.reachable < bound
          → IsSettled index s
          → IsLed s h
          → All (IsSound index) members
          → ((t : String) → HasEdge index members t → HasEdge index node.support_set t)
          → IsQuiet s
          → IsQuiet (visit_members step index members s)
      unfolding visit_members HasEdge Visited
      visit_members-IsQuiet [] s few settled led sound edges quiet = quiet
      visit_members-IsQuiet (member ∷ rest) s few settled led sound edges quiet =
          let next = visit_member step index member s in
          let moved = (visit_member-IsStep index bound step settles member s few settled).0 in
          let fewer = unreached-within index s.reachable next.reachable moved.grown in
          let mid =
            visit_member-IsQuiet member s few settled led sound.0 (λ t q. edges t (inl q)) quiet in
          visit_members-IsQuiet rest next (omega (arith, few, fewer)) moved.settled
            (λ k q. led k (let same = moved.same_stack k in cc (same, q))) sound.1
            (λ t q. edges t (inr q)) mid

    enter-IsLed : (h : String) (s : WalkState) → IsLed s h → IsLed (enter h s) h
    enter-IsLed h s led k q = elim (Has-insert s.on_stack h k q) [
      | inl e ↦ subst (λ j. Reaches index j h) e here
      | inr o ↦ led k o
    ]

    walk-IsQuiet :
        (fuel : ℕ) (h : String) (s : WalkState)
        → unreached index s.reachable < fuel
        → IsSettled index s
        → IsGrounded index h
        → IsLed s h
        → IsQuiet s
        → IsQuiet (walk fuel index h s)
    unfolding walk
    walk-IsQuiet zero h s few settled good led quiet = quiet
    walk-IsQuiet (suc fuel) h s few settled good led quiet =
        elim (Bool-cases (contains s.reachable h)) [
          | inl a ↦ rw (walk, a) quiet
          | inr a ↦ elim (Option-cases (Map.get index h)) [
            | inl b ↦ rw (walk, a, b) quiet
            | inr (node, b) ↦
                let fewer = unreached-insert index s.reachable h node b a in
                let inner =
                  visit_members-IsQuiet fuel (walk fuel index) (walk-IsStep index fuel)
                    (walk-IsQuiet fuel) h node b good node.support_set (enter h s)
                    (omega (arith, few, fewer)) (enter-IsSettled index h s settled)
                    (enter-IsLed h s led) (IsGrounded-IsSound h node good b) (λ t q. q) quiet in
                rw (walk, a, b) inner
          ]
        ]

  -- A walk from the root with the fuel of the model reports no cycle and only resolved edges exactly
  -- when the root is grounded: no untyped dependency and no typed one that is not resolved is among
  -- the members of the root and of the nodes that its edges lead to, and no path of edges from it
  -- goes on for ever, as around a cycle.
  pub walk-IsQuiet_iff :
      (index : Map Node) (root : String)
      → IsQuiet (walk (initial_fuel index) index root initial_state) ↔ IsGrounded index root
  unfolding contains
  walk-IsQuiet_iff index root =
      let few = unreached-le-length index [] in
      (
        λ q. walk-IsGrounded index root root q here,
        λ good.
            walk-IsQuiet index (initial_fuel index) root initial_state (omega (arith, few))
              (initial-IsSettled index) good (λ k q. cc q) (tt, refl),
      )
