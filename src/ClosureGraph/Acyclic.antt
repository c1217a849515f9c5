-- ===== src/ClosureGraph/Acyclic.antt =====
-- src/closure_bundle.rs: a grounded node lies on no cycle of resolved edges.
use vertrule_verifier.Prelude.{◌≡◌, ◌⊎◌, refl, sym, subst, String, some, inl, inr}
use vertrule_verifier.Prelude.Map
use vertrule_verifier.Prelude.Map.{Map}
use vertrule_verifier.External.{External}
use vertrule_verifier.Support.{Packs}
use vertrule_verifier.ClosureGraph.{Node}
use vertrule_verifier.ClosureGraph.Edges.{HasEdge, Reaches, here, there}
use vertrule_verifier.ClosureGraph.Grounded.{IsGrounded, grounded}

module _ ⦃x : External⦄ ⦃p : Packs⦄ where
  -- A node has an edge to one that leads back to it.
  pub record IsCyclic (index : Map Node) (h : String) : Type 0 where
    pub node : Node
    pub is_found : Map.get index h ≡ some node
    pub target : String
    pub edge : HasEdge index node.support_set target
    pub returns : Reaches index target h

  module _ (index : Map Node) where
    -- The first edge of a path.
    first_edge :
        (t h : String)
        → Reaches index t h
        → (t ≡ h)
          ⊎ ((node : Node) × (u : String) × (Map.get index t ≡ some node)
              × HasEdge index node.support_set u
              × Reaches index u h)
    first_edge t h here = inl refl
    first_edge t h (there k h' node path found edge) = elim (first_edge t k path) [
      | inl e ↦ inr (node, h, subst (λ j. Map.get index j ≡ some node) (sym e) found, edge, here)
      | inr q ↦ inr (q.0, q.1, q.2, q.3, there k h node q.4 found edge)
    ]

    pub IsGrounded-acyclic : (h : String) → IsGrounded index h → ¬ IsCyclic index h
    IsGrounded-acyclic h (grounded h' sound below) cycle =
        elim (first_edge cycle.target h cycle.returns) [
          | inl e ↦
              IsGrounded-acyclic cycle.target
                (below cycle.node cycle.target cycle.is_found cycle.edge)
                (subst (IsCyclic index) (sym e) cycle)
          | inr q ↦
              let turned : IsCyclic index cycle.target = record {
                node = q.0;
                is_found = q.2;
                target = q.1;
                edge = q.3;
                returns = there h cycle.target cycle.node q.4 cycle.is_found cycle.edge;
              } in
              IsGrounded-acyclic cycle.target
                (below cycle.node cycle.target cycle.is_found cycle.edge) turned
        ]
