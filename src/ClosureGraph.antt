-- ===== src/ClosureGraph.antt =====
-- src/closure_bundle.rs: the graph of the supplied receipts and the walk over its typed edges.
-- The recursion of `walk` has a fuel; `initial_fuel`, one more than the number of nodes, is given.
pub mod Extent
pub mod Fuel
pub mod Edges
pub mod Reach
pub mod Settled
pub mod Depth
pub mod Closed
pub mod Grounded
pub mod Descent
pub mod Acyclic
pub mod Quiet
pub mod Ordered
use Prim.Native.String.{◌++◌}
use mathlib.Core.List
use vertrule_verifier.Prelude.{
  ℕ, zero, suc, Bool, true, false, not, String, Option, none, some, List, [], ◌∷◌, Result, ok, err,
  length, str_eq, if◌then◌else◌,
}
use vertrule_verifier.Prelude.Text.{as_bytes}
use vertrule_verifier.Prelude.Map
use vertrule_verifier.Prelude.Map.{Map}
use vertrule_verifier.Prelude.StringSet
use vertrule_verifier.Json.{Value, unwrap_or_default}
use vertrule_verifier.External.{External}
use vertrule_verifier.SchemaProfile.{contains}
use vertrule_verifier.Result.{VerificationStatus, is_valid}
use vertrule_verifier.Verify.{verify_receipt}
use vertrule_verifier.Support.{
  SupportMember, typed_receipt_dependency, depended_on_receipt, Packs, join, read_event_hash,
  payload_at, read_payload_kind, role_label,
}
use vertrule_verifier.LayeredPack.Report.{
  EdgeStatus, EdgeCheck, resolved, missing, failed, schema_mismatch, untyped_edge, is_resolved,
}

-- The sets and vectors that `walk` writes to.
pub record WalkState : Type 0 where
  pub reachable : List String
  pub on_stack : List String
  pub edge_checks : List EdgeCheck
  pub cycle_detected : Bool

abbrev pub push_check : EdgeCheck → WalkState → WalkState
push_check check s = record s { edge_checks = List.◌++◌ s.edge_checks (check ∷ []) }

-- `reachable.insert(..)` and `on_stack.insert(..)`
abbrev pub enter : String → WalkState → WalkState
enter h s = record s {
  reachable = StringSet.insert s.reachable h;
  on_stack = StringSet.insert s.on_stack h;
}

-- `on_stack.remove(node_hash)`
abbrev pub leave : String → WalkState → WalkState
leave h s = record s { on_stack = StringSet.remove s.on_stack h }

module _ ⦃x : External⦄ ⦃p : Packs⦄ where
  open x use {Number}
  open p use {
    Role, provider_payload_kind, model_payload_kind, pack_payload_kind, support_set_from_value,
  }

  abbrev layered_kinds : List String
  layered_kinds = provider_payload_kind ∷ model_payload_kind ∷ pack_payload_kind ∷ []

  pub record Node : Type 0 where
    pub payload_kind : String
    pub support_set : List (SupportMember Role)
    pub verify_status : VerificationStatus
    pub verify_detail : String

  -- `map_or_else(Vec::new, |s| serde_json::from_value(s).unwrap_or_default())`
  abbrev support_set_of : Option (Value Number) → List (SupportMember Role)
  support_set_of none = []
  support_set_of (some v) = elim (support_set_from_value v) [ ok ms ↦ ms | err _ ↦ [] ]

  abbrev pub node_of : Value Number → String → Node
  node_of value raw =
      let result = verify_receipt (as_bytes raw) in
      record {
        payload_kind = unwrap_or_default (read_payload_kind value);
        support_set = support_set_of (payload_at value "support_set");
        verify_status = result.status;
        verify_detail = join result.errors;
      }

  unfoldable pub insert_node : Map Node → Value Number → String → Map Node
  insert_node index value raw = elim (read_event_hash value) [
    | none ↦ index
    | some event_hash ↦ Map.insert index event_hash (node_of value raw)
  ]

  unfoldable pub classify_edge : String → Option Node → String → EdgeStatus × Option String
  classify_edge event_hash none target_schema =
      (missing, some ("depended-on receipt \"" ++ event_hash ++ "\" not supplied in bundle"))
  classify_edge event_hash (some n) target_schema =
      if not (is_valid n.verify_status)
      then (failed, some ("supplied receipt does not verify: " ++ n.verify_detail))
      else if not (str_eq n.payload_kind target_schema)
      then (
        schema_mismatch,
        some (
            "edge target_schema \"" ++ target_schema ++ "\" != supplied payload_kind \""
            ++ n.payload_kind ++ "\""),
      )
      else if not (contains layered_kinds n.payload_kind)
      then (
        schema_mismatch,
        some (
            "depended-on receipt payload_kind \"" ++ n.payload_kind
            ++ "\" is not a layered-family kind"),
      )
      else (resolved, none)

  abbrev pub typed_check : Map Node → String → Role → String → EdgeCheck
  typed_check index event_hash role target_schema =
      let (status, detail) = classify_edge event_hash (Map.get index event_hash) target_schema in
      record {
        event_hash = event_hash;
        role = role_label role;
        target_schema = some target_schema;
        status = status;
        detail = detail;
      }

  abbrev pub untyped_check : String → EdgeCheck
  untyped_check event_hash = record {
    event_hash = event_hash;
    role = none;
    target_schema = none;
    status = untyped_edge;
    detail = some "untyped depended_on_receipt edge in a layered-family receipt";
  }

  -- One member in the loop of `walk`, whose recursive call is `step`.
  unfoldable pub visit_member :
      (String → WalkState → WalkState) → Map Node → SupportMember Role → WalkState → WalkState
  visit_member step index (typed_receipt_dependency event_hash role target_schema) s =
      let edge = typed_check index event_hash role target_schema in
      let checked = push_check edge s in
      elim (StringSet.contains checked.on_stack event_hash) [
        | true ↦ record checked { cycle_detected = true }
        | false ↦ elim (is_resolved edge.status) [
          | true ↦ step event_hash checked
          | false ↦ checked
        ]
      ]
  visit_member step index (depended_on_receipt event_hash) s =
      push_check (untyped_check event_hash) s
  visit_member step index _ s = s

  unfoldable pub visit_members :
      (String → WalkState → WalkState)
      → Map Node
      → List (SupportMember Role)
      → WalkState
      → WalkState
  unfolding visit_member
  visit_members step index [] s = s
  visit_members step index (member ∷ rest) s =
      visit_members step index rest (visit_member step index member s)

  -- `if let Some(node) = index.get(node_hash) { .. }`
  abbrev pub visit_node :
      (String → WalkState → WalkState) → Map Node → Option Node → WalkState → WalkState
  visit_node step index none s = s
  visit_node step index (some node) s = visit_members step index node.support_set s

  unfoldable pub walk : ℕ → Map Node → String → WalkState → WalkState
  unfolding visit_members
  walk zero index node_hash s = s
  walk (suc fuel) index node_hash s = elim (StringSet.contains s.reachable node_hash) [
    | true ↦ s
    | false ↦
        leave node_hash
          (visit_node (walk fuel index) index (Map.get index node_hash) (enter node_hash s))
  ]

  abbrev pub initial_fuel : Map Node → ℕ
  initial_fuel index = suc (length index)

abbrev pub initial_state : WalkState
initial_state = record { reachable = []; on_stack = []; edge_checks = []; cycle_detected = false }
