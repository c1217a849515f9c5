-- ===== src/ClosureGraph/Grounded.antt =====
-- src/closure_bundle.rs: the nodes below which every dependency is resolved and no path of edges goes
-- on for ever, and the states of a walk in which all is quiet.

use vertrule_verifier.Prelude.{◌≡◌, true, false, String, some, All}
use vertrule_verifier.Prelude.Map
use vertrule_verifier.Prelude.Map.{Map}
use vertrule_verifier.External.{External}
use vertrule_verifier.Support.{SupportMember, typed_receipt_dependency, depended_on_receipt, Packs}
use vertrule_verifier.LayeredPack.Report.{EdgeCheck, is_resolved}
use vertrule_verifier.ClosureGraph.{WalkState, Node, classify_edge}
use vertrule_verifier.ClosureGraph.Edges.{HasEdge}

abbrev pub IsResolvedCheck : EdgeCheck → Type 0
IsResolvedCheck c = is_resolved c.status ≡ true

-- The walk has met no cycle and no edge that is not resolved.
abbrev pub IsQuiet : WalkState → Type 0
IsQuiet s = All IsResolvedCheck s.edge_checks × (s.cycle_detected ≡ false)

module _ ⦃x : External⦄ ⦃p : Packs⦄ where
  open p use {Role}

  -- A member is no obstacle: it is no untyped dependency, and where it is a typed one its edge is
  -- resolved.
  unfoldable pub IsSound : Map Node → SupportMember Role → Type 0
  IsSound index (typed_receipt_dependency event_hash role target_schema) =
      is_resolved (classify_edge event_hash (Map.get index event_hash) target_schema).0 ≡ true
  IsSound index (depended_on_receipt event_hash) = ⊥
  IsSound index _ = Unit

  -- The members of a node are no obstacle, and so on for every node that its edges lead to. The
  -- descent ends, so no path of edges comes back to where it was.
  pub data IsGrounded (index : Map Node) : String → Type 0 where
    grounded :
        (h : String)
        → ((node : Node) → Map.get index h ≡ some node → All (IsSound index) node.support_set)
        → ((node : Node) (t : String)
            → Map.get index h ≡ some node
            → HasEdge index node.support_set t
            → IsGrounded index t)
        → IsGrounded index h
