-- ===== src/Tests/Packs.antt =====
-- The theorems on packs and closure bundles, applied to concrete inputs: a pack of texts, of which
-- "root" and "copy" are JSON, and a graph in which "a" depends on "b".
use vertrule_verifier.Prelude.{
  ℕ, ◌+◌, ◌≡◌, refl, ◌↔◌, true, String, some, List, [], ◌∷◌, Result, ok, err, str_eq, if◌then◌else◌,
}
use vertrule_verifier.Prelude.Map
use vertrule_verifier.Prelude.Map.{Map}
use vertrule_verifier.Json.{Value, string, object, field, end, get_field}
use vertrule_verifier.External.{External}
use vertrule_verifier.Result.{valid}
use vertrule_verifier.Support.{
  SupportMember, typed_receipt_dependency, allow, Packs, read_event_hash,
}
use vertrule_verifier.ClosureGraph.{Node, node_of, walk, initial_fuel, initial_state}
use vertrule_verifier.ClosureGraph.Edges.{Has, Reaches}
use vertrule_verifier.ClosureGraph.Grounded.{IsQuiet, IsGrounded}
use vertrule_verifier.ClosureGraph.Quiet.{walk-IsQuiet_iff}
use vertrule_verifier.ClosureGraph.Fuel.{walk-enough}
use vertrule_verifier.ClosureGraph.Closed.{walk-reachable_iff}
use vertrule_verifier.ClosureBundle.{check_manifest_digest, indexed}
use vertrule_verifier.ClosureBundle.Report.{ClosureBundle}
use vertrule_verifier.ClosureBundle.Manifest.{IsCommitted, check_manifest_digest-ok_iff}
use vertrule_verifier.ClosureBundle.Notes.{indexed-last}
use vertrule_verifier.Tests.World.{toy}

abbrev hashed : Value ℕ
hashed = object (field "event_hash" (string "a") end)

abbrev parse_text : String → Result String (Value ℕ)
parse_text s =
    if str_eq s "root" then ok hashed else if str_eq s "copy" then ok hashed else err "no value"

abbrev packs_world : External
packs_world = record toy { from_str = parse_text }

abbrev edge : SupportMember String
edge = typed_receipt_dependency "b" "input" "provider"

abbrev toy_packs : Packs ⦃x = packs_world⦄
toy_packs = record {
  Role = String;
  role_to_value = λ r. ok (string r);
  provider_payload_kind = "provider";
  model_payload_kind = "model";
  pack_payload_kind = "pack";
  decision_payload_kind = "decision";
  support_set_from_value = λ v. ok (edge ∷ []);
  decision_from_value = λ v. ok (record { verdict = allow; support_set = edge ∷ [] });
  debug_str = λ s. s;
}

abbrev node : List (SupportMember String) → Node ⦃x = packs_world⦄ ⦃p = toy_packs⦄
node members = record {
  payload_kind = "provider";
  support_set = members;
  verify_status = valid;
  verify_detail = "";
}

-- "a" depends on "b", which depends on "a".
abbrev graph : Map (Node ⦃x = packs_world⦄ ⦃p = toy_packs⦄)
graph =
    ("a", node (edge ∷ []))
    ∷ ("b", node (typed_receipt_dependency "a" "input" "provider" ∷ []))
    ∷ []

walk-reachable_iff_example :
    Has
      (walk ⦃x = packs_world⦄ ⦃p = toy_packs⦄
        (initial_fuel ⦃x = packs_world⦄ ⦃p = toy_packs⦄ graph)
        graph
        "a"
        initial_state).reachable
      "b"
    ↔ Reaches ⦃x = packs_world⦄ ⦃p = toy_packs⦄ graph "a" "b"
walk-reachable_iff_example = walk-reachable_iff ⦃x = packs_world⦄ ⦃p = toy_packs⦄ graph "a" "b"

-- "a" and "b" depend on each other, so "a" is not grounded.
walk-IsQuiet_iff_example :
    IsQuiet (
      walk ⦃x = packs_world⦄ ⦃p = toy_packs⦄
        (initial_fuel ⦃x = packs_world⦄ ⦃p = toy_packs⦄ graph)
        graph
        "a"
        initial_state)
    ↔ IsGrounded ⦃x = packs_world⦄ ⦃p = toy_packs⦄ graph "a"
walk-IsQuiet_iff_example = walk-IsQuiet_iff ⦃x = packs_world⦄ ⦃p = toy_packs⦄ graph "a"

walk-enough_example :
    walk ⦃x = packs_world⦄ ⦃p = toy_packs⦄
      (2 + initial_fuel ⦃x = packs_world⦄ ⦃p = toy_packs⦄ graph)
      graph
      "a"
      initial_state
    ≡ walk ⦃x = packs_world⦄ ⦃p = toy_packs⦄
        (initial_fuel ⦃x = packs_world⦄ ⦃p = toy_packs⦄ graph)
        graph
        "a"
        initial_state
walk-enough_example = walk-enough ⦃x = packs_world⦄ ⦃p = toy_packs⦄ 2 graph "a" initial_state

abbrev bundle : ClosureBundle ℕ
bundle = record {
  format = "vr-layered-bundle/v1";
  root_canonical = "root";
  manifest = object (field "manifest_digest" (string "digest") end);
  receipts = "copy" ∷ [];
}

check_manifest_digest-ok_iff_example :
    ((check_manifest_digest ⦃x = packs_world⦄ bundle.manifest (some "digest")).0 ≡ true)
    ↔ IsCommitted ⦃x = packs_world⦄ bundle.manifest (some "digest")
check_manifest_digest-ok_iff_example =
    check_manifest_digest-ok_iff ⦃x = packs_world⦄ bundle.manifest (some "digest")

reads_a : read_event_hash ⦃x = packs_world⦄ hashed ≡ some "a"
unfolding get_field
reads_a = refl

indexed-last_example :
    Map.get (indexed ⦃x = packs_world⦄ ⦃p = toy_packs⦄ bundle hashed []).index "a"
    ≡ some (node_of ⦃x = packs_world⦄ ⦃p = toy_packs⦄ hashed "copy")
indexed-last_example =
    indexed-last ⦃x = packs_world⦄ ⦃p = toy_packs⦄ bundle hashed [] [] "copy" "a" hashed refl refl
      reads_a
