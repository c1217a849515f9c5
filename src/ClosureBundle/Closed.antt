-- ===== src/ClosureBundle/Closed.antt =====
-- src/closure_bundle.rs: what makes a bundle with a parsed root valid, part by part.
use mathlib.Core.List
use vertrule_verifier.Prelude.{
  ↔_trans, ×_iff, ◌≡◌, ap, ◌↔◌, refl, sym, subst, arith, Bool, true, false, String, Option, none,
  some, List, [], str_eq, eq_iff, All, append-nil_iff, Bool-cases, inl, inr,
}
use vertrule_verifier.Prelude.Text.{as_bytes}
use vertrule_verifier.Prelude.StringSet
use vertrule_verifier.Prelude.StringSet.{equal}
use vertrule_verifier.Json.{Value}
use vertrule_verifier.External.{External}
use vertrule_verifier.Result.{VerificationResult, valid}
use vertrule_verifier.Verify.{verify_receipt}
use vertrule_verifier.Support.{Packs, read_event_hash, read_payload_kind}
use vertrule_verifier.LayeredPack.Report.{root_errors}
use vertrule_verifier.LayeredPack.Verdict.{root_errors-nil}
use vertrule_verifier.ClosureGraph.{WalkState}
use vertrule_verifier.ClosureBundle.{
  check_manifest_digest, committed_digest, committed_closure, indexed, walked, kind_errors,
  hash_errors, cycle_errors, dependencies_of,
}
use vertrule_verifier.ClosureBundle.Report.{ClosureBundle, edge_errors, closure_errors}
use vertrule_verifier.ClosureBundle.Manifest.{
  IsCommitted, check_manifest_digest-ok_iff, check_manifest_digest-quiet_iff,
}
use vertrule_verifier.ClosureGraph.Grounded.{IsResolvedCheck}
use vertrule_verifier.ClosureBundle.Notes.{IsJson, edge_errors-nil_iff, equal_iff, insert_all-index}

hash_errors-nil_iff :
    ⦃x : External⦄ ⦃p : Packs⦄ (o : Option String)
    → (hash_errors o ≡ []) ↔ ((h : String) × (o ≡ some h))
hash_errors-nil_iff none = (λ h. cc, λ h. cc h.1)
hash_errors-nil_iff (some g) = (λ h. (g, refl), λ h. refl)

module _ ⦃x : External⦄ ⦃p : Packs⦄ where
  open x use {Number, from_str}
  open p use {pack_payload_kind}

  kind_errors-nil_iff : (k : Option String) → (kind_errors k ≡ []) ↔ (k ≡ some pack_payload_kind)
  kind_errors-nil_iff none = (λ h. cc, λ h. cc)
  kind_errors-nil_iff (some k) =
      let same = eq_iff k pack_payload_kind in
      elim (Bool-cases (str_eq k pack_payload_kind)) [
        | inl q ↦ (λ h. let e = same.0 q in cc e, λ h. rw q)
        | inr q ↦ (λ h. ground (arith, q, h), λ h. cc (q, same.1 (cc h)))
      ]

  -- The state after the walk from the root of the graph of the root and the supplied receipts.
  abbrev pub final_state : ClosureBundle Number → Value Number → WalkState
  final_state bundle root_value =
      walked (indexed bundle root_value []).index (read_event_hash root_value)

  -- What makes a closure bundle with this root valid.
  pub record IsClosed (bundle : ClosureBundle Number) (root_value : Value Number) : Type 0 where
    pub root_valid : (verify_receipt (as_bytes bundle.root_canonical)).status ≡ valid
    pub is_pack : read_payload_kind root_value ≡ some pack_payload_kind
    pub manifest_committed : IsCommitted bundle.manifest (committed_digest root_value)
    pub all_json : All IsJson bundle.receipts
    pub root_hash : String
    pub reads_hash : read_event_hash root_value ≡ some root_hash
    pub edges_resolved : All IsResolvedCheck (final_state bundle root_value).edge_checks
    pub acyclic : (final_state bundle root_value).cycle_detected ≡ false
    pub complete :
        committed_closure bundle.manifest
        ≡ StringSet.remove (final_state bundle root_value).reachable root_hash

  cycle_errors-nil : (b : Bool) → b ≡ false → cycle_errors b ≡ []
  cycle_errors-nil b h = rw h

  closure_errors-nil : (s t : List String) → s ≡ t → closure_errors s t ≡ []
  closure_errors-nil s t h = let same = (equal_iff s t).1 h in rw same

  module _ (bundle : ClosureBundle Number) (root_value : Value Number) (before : List String) where
    pub same_walk :
        walked (indexed bundle root_value before).index (read_event_hash root_value)
        ≡ final_state bundle root_value
    same_walk =
        ap (λ m. walked m (read_event_hash root_value)) (insert_all-index bundle.receipts _ _ refl)

  module _ (bundle : ClosureBundle Number) (root_value : Value Number) where
    abbrev pub root : VerificationResult
    root = verify_receipt (as_bytes bundle.root_canonical)

    abbrev hash : Option String
    hash = read_event_hash root_value

    abbrev pub manifest : Bool × List String
    manifest = check_manifest_digest bundle.manifest (committed_digest root_value)

    -- The errors before the walk, and those after it in a final state.
    abbrev pub before : List String
    before =
        List.◌++◌
          (List.◌++◌ (root_errors "root envelope: " root)
            (kind_errors (read_payload_kind root_value)))
          manifest.1

    abbrev pub later : WalkState → List String
    later s = List.◌++◌ (hash_errors hash) (
        List.◌++◌ (edge_errors s.edge_checks) (
          List.◌++◌ (cycle_errors s.cycle_detected) (
            closure_errors (committed_closure bundle.manifest) (dependencies_of s.reachable hash))))

    -- There is no error before the walk exactly when each part pushes none.
    before-nil_iff : (before ≡ []) ↔ (
        ((root_errors "root envelope: " root ≡ [])
          × (kind_errors (read_payload_kind root_value) ≡ []))
        × (manifest.1 ≡ []))
    before-nil_iff =
        let first = root_errors "root envelope: " root in
        let kind = kind_errors (read_payload_kind root_value) in
        ↔_trans (append-nil_iff (List.◌++◌ first kind) manifest.1)
          (×_iff (append-nil_iff first kind) ((λ h. h), (λ h. h)))

    later-nil_iff :
        (s : WalkState)
        → (later s ≡ []) ↔ (
            (hash_errors hash ≡ [])
            × ((edge_errors s.edge_checks ≡ [])
                × ((cycle_errors s.cycle_detected ≡ [])
                    × (closure_errors
                          (committed_closure bundle.manifest)
                          (dependencies_of s.reachable hash)
                        ≡ []))))
    later-nil_iff s = ↔_trans (append-nil_iff (hash_errors hash) _) (
        ×_iff ((λ h. h), (λ h. h))
          (↔_trans (append-nil_iff (edge_errors s.edge_checks) _)
            (×_iff ((λ h. h), (λ h. h)) (append-nil_iff (cycle_errors s.cycle_detected) _))))

    -- What the tests on a final state say of the closure.
    abbrev pub IsFinal : WalkState → String → Type 0
    IsFinal s root_hash =
        All IsResolvedCheck s.edge_checks
        × (s.cycle_detected ≡ false)
        × (committed_closure bundle.manifest ≡ StringSet.remove s.reachable root_hash)

    -- The tests pass in a final state with a known root, and its errors are none.
    pub later-IsFinal_iff :
        (s : WalkState)
        → ((equal (committed_closure bundle.manifest) (dependencies_of s.reachable hash) ≡ true)
            × (s.cycle_detected ≡ false)
            × (later s ≡ []))
          ↔ ((root_hash : String) × (hash ≡ some root_hash) × IsFinal s root_hash)
    later-IsFinal_iff s =
        let committed = committed_closure bundle.manifest in
        let dependencies = dependencies_of s.reachable hash in
        let same = equal_iff committed dependencies in
        let edges = edge_errors-nil_iff s.edge_checks in
        (
          λ h.
              let (k, (m, c)) = (later-nil_iff s).0 h.2 in
              let (root_hash, reads) = (hash_errors-nil_iff hash).0 k in
              (
                root_hash,
                reads,
                (
                  edges.0 m,
                  h.1,
                  subst (λ o. committed ≡ dependencies_of s.reachable o) reads (same.0 h.0),
                ),
              ),
          λ h.
              let (root_hash, reads, (resolved, acyclic, complete)) = h in
              let closed : committed ≡ dependencies =
                subst (λ o. committed ≡ dependencies_of s.reachable o) (sym reads) complete in
              (
                same.1 closed,
                acyclic,
                (later-nil_iff s).1 (
                  (hash_errors-nil_iff hash).1 (root_hash, reads),
                  (
                    edges.1 resolved,
                    (
                      cycle_errors-nil s.cycle_detected acyclic,
                      closure_errors-nil committed dependencies closed,
                    ),
                  ),
                ),
              ),
        )

    -- The tests before the walk pass, and their errors are none.
    pub start_iff : ((root.status ≡ valid) × (manifest.0 ≡ true) × (before ≡ [])) ↔ (
        (root.status ≡ valid)
        × (read_payload_kind root_value ≡ some pack_payload_kind)
        × IsCommitted bundle.manifest (committed_digest root_value))
    start_iff =
        let kind = kind_errors-nil_iff (read_payload_kind root_value) in
        let digest = check_manifest_digest-ok_iff bundle.manifest (committed_digest root_value) in
        let loud = check_manifest_digest-quiet_iff bundle.manifest (committed_digest root_value) in
        (
          λ h. let ((r, k), m) = before-nil_iff.0 h.2 in (h.0, kind.0 k, digest.0 h.1),
          λ h.
              let passed = digest.1 h.2 in
              let quiet = root_errors-nil "root envelope: " root h.0 in
              (h.0, passed, before-nil_iff.1 ((quiet, kind.1 h.1), loud.1 passed)),
        )

    pub IsClosed-IsFinal_iff : IsClosed bundle root_value ↔ (
        ((root.status ≡ valid)
          × (read_payload_kind root_value ≡ some pack_payload_kind)
          × IsCommitted bundle.manifest (committed_digest root_value))
        × All IsJson bundle.receipts
        × ((root_hash : String) × (hash ≡ some root_hash)
            × IsFinal (final_state bundle root_value) root_hash))
    IsClosed-IsFinal_iff = (
      λ c. (
        (c.root_valid, c.is_pack, c.manifest_committed),
        c.all_json,
        (c.root_hash, c.reads_hash, (c.edges_resolved, c.acyclic, c.complete)),
      ),
      λ h.
          let ((root_valid, is_pack, committed), json, final) = h in
          let (root_hash, reads, (resolved, acyclic, complete)) = final in
          record {
            root_valid = root_valid;
            is_pack = is_pack;
            manifest_committed = committed;
            all_json = json;
            root_hash = root_hash;
            reads_hash = reads;
            edges_resolved = resolved;
            acyclic = acyclic;
            complete = complete;
          },
    )
