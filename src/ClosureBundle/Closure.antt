-- ===== src/ClosureBundle/Closure.antt =====
-- src/closure_bundle.rs: what a valid bundle says of the graph of its receipts.
use vertrule_verifier.Prelude.{All, ◌≡◌, ◌↔◌, ◌≢◌, String, some, Result, ok, []}
use vertrule_verifier.Prelude.Map.{Map}
use vertrule_verifier.Prelude.Text.{as_bytes}
use vertrule_verifier.Json
use vertrule_verifier.Verify.{verify_receipt}
use vertrule_verifier.ClosureBundle.Manifest.{IsCommitted}
use vertrule_verifier.ClosureBundle.Notes.{IsJson}
use vertrule_verifier.Prelude.StringSet
use vertrule_verifier.Json.{Value}
use vertrule_verifier.External.{External}
use vertrule_verifier.Result.{valid}
use vertrule_verifier.Support.{Packs, read_event_hash, read_payload_kind}
use vertrule_verifier.ClosureGraph.{Node, WalkState, walk, initial_fuel, initial_state}
use vertrule_verifier.ClosureGraph.Edges.{Has, Reaches}
use vertrule_verifier.ClosureGraph.Grounded.{IsGrounded}
use vertrule_verifier.ClosureBundle.{committed_digest, committed_closure, indexed}
use vertrule_verifier.ClosureBundle.Report.{ClosureBundle, expected_format}

module _ ⦃x : External⦄ ⦃p : Packs⦄ where
  open p use {pack_payload_kind}
  open x use {Number, from_str}

  -- The graph of the root and the supplied receipts.
  abbrev pub graph_of : ClosureBundle Number → Value Number → Map Node
  graph_of bundle root_value = (indexed bundle root_value []).index

  -- What a valid bundle promises, told without the walk: the root and the texts beside it are as they
  -- should be, the root is grounded in the graph of the receipts, and the manifest lists the closure.
  pub record IsTrueClosure (bundle : ClosureBundle Number) : Type 0 where
    pub has_format : bundle.format ≡ expected_format
    pub root_value : Value Number
    pub root_parsed : from_str bundle.root_canonical ≡ ok root_value
    pub root_valid : (verify_receipt (as_bytes bundle.root_canonical)).status ≡ valid
    pub is_pack : read_payload_kind root_value ≡ some pack_payload_kind
    pub manifest_committed : IsCommitted bundle.manifest (committed_digest root_value)
    pub all_json : All IsJson bundle.receipts
    pub root_hash : String
    pub reads_hash : read_event_hash root_value ≡ some root_hash
    pub is_grounded : IsGrounded (graph_of bundle root_value) root_hash
    pub lists :
        (j : String)
        → Has (committed_closure bundle.manifest) j
          ↔ (Reaches (graph_of bundle root_value) root_hash j × (root_hash ≢ j))

  module _ (bundle : ClosureBundle Number) (root_value : Value Number) (root_hash : String) where
    -- The walk from the root over the graph.
    abbrev final : WalkState
    final = let g = graph_of bundle root_value in walk (initial_fuel g) g root_hash initial_state
