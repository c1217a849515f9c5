-- ===== src/ClosureGraph/Closed.antt =====
-- src/closure_bundle.rs: a walk reaches everything that resolved edges lead to from the root.
use vertrule_verifier.Prelude.{◌↔◌, String, List, [], arith, inl, inr}
use vertrule_verifier.Prelude.Map.{Map}
use vertrule_verifier.Prelude.StringSet.{contains}
use vertrule_verifier.External.{External}
use vertrule_verifier.Support.{Packs}
use vertrule_verifier.ClosureGraph.{Node, walk, initial_state, initial_fuel}
use vertrule_verifier.ClosureGraph.Extent.{unreached-le-length}
use vertrule_verifier.ClosureGraph.Edges.{Has, Reaches, here, there}
use vertrule_verifier.ClosureGraph.Reach.{walk-Reaches}
use vertrule_verifier.ClosureGraph.Settled.{IsDone}
use vertrule_verifier.ClosureGraph.Depth.{walk-IsStep, initial-IsSettled}

module _ ⦃x : External⦄ ⦃p : Packs⦄ where
  -- A set that has the root and is closed under edges has all that is reached over them.
  Reaches-Has :
      (index : Map Node) (root : String) (r : List String)
      → Has r root
      → ((h : String) → Has r h → IsDone index r h)
      → (k : String) → Reaches index root k
      → Has r k
  Reaches-Has index root r base done k here = base
  Reaches-Has index root r base done k (there h t node q found edge) =
      done h (Reaches-Has index root r base done h q) node found t edge

  -- A walk from the root with the fuel of the model reaches a node exactly when resolved edges lead
  -- to it from the root.
  pub walk-reachable_iff :
      (index : Map Node) (root j : String)
      → Has (walk (initial_fuel index) index root initial_state).reachable j ↔ Reaches index root j
  unfolding contains
  walk-reachable_iff index root j =
      let few = unreached-le-length index [] in
      let (step, reached) =
        walk-IsStep index (initial_fuel index) root initial_state (omega (arith, few))
          (initial-IsSettled index) in
      let final = walk (initial_fuel index) index root initial_state in
      let all_done : (h : String) → Has final.reachable h → IsDone index final.reachable h =
        λ h q. elim (step.settled.done h q) [ inl o ↦ cc (o, step.same_stack h) | inr d ↦ d ] in
      let go : (k : String) → Reaches index root k → Has final.reachable k =
        Reaches-Has index root final.reachable reached all_done in
      (walk-Reaches (initial_fuel index) index root j, go j)
