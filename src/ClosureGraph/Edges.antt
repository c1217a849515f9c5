-- ===== src/ClosureGraph/Edges.antt =====
-- src/closure_bundle.rs: the edges of the graph and what can be reached over them, told without the
-- walk.
use vertrule_verifier.Prelude.{◌≡◌, ◌⊎◌, true, String, some, List, [], ◌∷◌}
use vertrule_verifier.Prelude.Map
use vertrule_verifier.Prelude.Map.{Map}
use vertrule_verifier.Prelude.StringSet.{contains}
use vertrule_verifier.External.{External}
use vertrule_verifier.Support.{SupportMember, typed_receipt_dependency, Packs}
use vertrule_verifier.LayeredPack.Report.{is_resolved}
use vertrule_verifier.ClosureGraph.{Node, classify_edge}

abbrev pub Has : List String → String → Type 0
Has r h = contains r h ≡ true

module _ ⦃x : External⦄ ⦃p : Packs⦄ where
  open p use {Role}

  -- A member is a typed dependency on the target, and the edge is resolved.
  unfoldable pub Leads : Map Node → SupportMember Role → String → Type 0
  Leads index (typed_receipt_dependency event_hash role target_schema) t =
      (event_hash ≡ t)
      × (is_resolved (classify_edge event_hash (Map.get index event_hash) target_schema).0 ≡ true)
  Leads index _ t = ⊥

  -- One of the members leads to the target.
  unfoldable pub HasEdge : Map Node → List (SupportMember Role) → String → Type 0
  unfolding Leads
  HasEdge index [] t = ⊥
  HasEdge index (member ∷ rest) t = Leads index member t ⊎ HasEdge index rest t

  -- The nodes that resolved edges lead to from the root, one after another.
  pub data Reaches (index : Map Node) (root : String) : String → Type 0 where
    here : Reaches index root root
    there :
        (h t : String) (node : Node)
        → Reaches index root h
        → Map.get index h ≡ some node
        → HasEdge index node.support_set t
        → Reaches index root t
