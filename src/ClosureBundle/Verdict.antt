-- ===== src/ClosureBundle/Verdict.antt =====
-- src/closure_bundle.rs: when a bundle is valid.
use mathlib.Core.List
use vertrule_verifier.Prelude.{
  ↔_trans, ×_iff, ◌≡◌, ◌↔◌, refl, sym, subst, Bool, true, false, not, ◌&&◌, String, some, [],
  Result, ok, err, str_eq, eq_iff, is_empty, is_empty_iff, append-nil_iff, ok-injective,
  if◌then◌else◌,
}
use vertrule_verifier.Prelude.Text.{as_bytes}
use vertrule_verifier.Prelude.StringSet.{equal}
use vertrule_verifier.Json.{Value}
use vertrule_verifier.External.{External}
use vertrule_verifier.Result.{valid, invalid, is_valid}
use vertrule_verifier.Result.Status.{is_valid_iff, tested-valid_iff}
use vertrule_verifier.Verify.{verify_receipt}
use vertrule_verifier.Support.{Packs, read_event_hash}
use vertrule_verifier.ClosureGraph.{WalkState}
use vertrule_verifier.ClosureBundle.{
  committed_closure, indexed, walked, dependencies_of, bundle_result, rooted_result,
  verify_closure_bundle,
}
use vertrule_verifier.ClosureBundle.Report.{ClosureBundle, expected_format, invalid_bundle}
use vertrule_verifier.ClosureBundle.Notes.{insert_all-nil_iff}
use vertrule_verifier.ClosureBundle.Closed.{
  final_state, IsClosed, same_walk, root, manifest, before, later, IsFinal, later-IsFinal_iff,
  start_iff, IsClosed-IsFinal_iff,
}

chosen-valid_iff :
    (a b c d e : Bool)
    → ((if a && b && c && not d && e then valid else invalid) ≡ valid)
      ↔ ((a ≡ true) × (b ≡ true) × (c ≡ true) × (d ≡ false) × (e ≡ true))
chosen-valid_iff true true true false true = (λ h. (refl, refl, refl, refl, refl), λ h. refl)
chosen-valid_iff true true true false false = (λ h. cc, λ h. cc h.4)
chosen-valid_iff true true true true e = (λ h. cc, λ h. cc h.3)
chosen-valid_iff true true false d e = (λ h. cc, λ h. cc h.2)
chosen-valid_iff true false c d e = (λ h. cc, λ h. cc h.1)
chosen-valid_iff false b c d e = (λ h. cc, λ h. cc h.0)

module _ ⦃x : External⦄ ⦃p : Packs⦄ where
  open x use {Number, from_str}

  bundle_result-valid_iff :
      (bundle : ClosureBundle Number) (root_value : Value Number)
      → ((bundle_result bundle (verify_receipt (as_bytes bundle.root_canonical)) root_value).status
          ≡ valid)
        ↔ IsClosed bundle root_value
  bundle_result-valid_iff bundle root_value =
      let r = root bundle root_value in
      let m = manifest bundle root_value in
      let graph = indexed bundle root_value (before bundle root_value) in
      let s = walked graph.index (read_event_hash root_value) in
      let same = same_walk bundle root_value (before bundle root_value) in
      let complete =
        equal (committed_closure bundle.manifest)
          (dependencies_of s.reachable (read_event_hash root_value)) in
      let after = List.◌++◌ graph.errors (later bundle root_value s) in
      let chosen =
        chosen-valid_iff (is_valid r.status) m.0 complete s.cycle_detected (is_empty after) in
      let split = ↔_trans (is_empty_iff after) (
        ↔_trans (append-nil_iff graph.errors (later bundle root_value s)) (
          ×_iff
            (insert_all-nil_iff bundle.receipts
              (record { index = _; errors = before bundle root_value }))
            ((λ h. h), (λ h. h)))) in
      let final =
        subst
          (λ (t : WalkState).
            ((equal (committed_closure bundle.manifest)
                  (dependencies_of t.reachable (read_event_hash root_value))
                ≡ true)
              × (t.cycle_detected ≡ false)
              × (later bundle root_value t ≡ []))
            ↔ ((root_hash : String) × (read_event_hash root_value ≡ some root_hash)
                × IsFinal bundle root_value (final_state bundle root_value) root_hash))
          (sym same) (later-IsFinal_iff bundle root_value (final_state bundle root_value)) in
      let status = is_valid_iff r.status in
      (
        λ h.
            let (a, b, c, d, e) = chosen.0 h in
            let ((quiet, json), l) = split.0 e in
            (IsClosed-IsFinal_iff bundle root_value).1
              ((start_iff bundle root_value).0 (status.0 a, b, quiet), json, final.0 (c, d, l)),
        λ h.
            let (first, json, last) = (IsClosed-IsFinal_iff bundle root_value).0 h in
            let (a, b, quiet) = (start_iff bundle root_value).1 first in
            let (c, d, l) = final.1 last in
            chosen.1 (status.1 a, b, c, d, split.1 ((quiet, json), l)),
      )

  rooted_result-valid_iff :
      (bundle : ClosureBundle Number) (parsed : Result String (Value Number))
      → ((rooted_result bundle parsed).status ≡ valid)
        ↔ ((v : Value Number) × (parsed ≡ ok v) × IsClosed bundle v)
  rooted_result-valid_iff bundle (err e) = (λ h. cc, λ h. cc h.1)
  rooted_result-valid_iff bundle (ok v) =
      let inner = bundle_result-valid_iff bundle v in
      (
        λ h. (v, refl, inner.0 h),
        λ h. inner.1 (subst (IsClosed bundle) (sym (ok-injective h.1)) h.2),
      )

  -- What makes a closure bundle valid.
  pub record IsValidBundle (bundle : ClosureBundle Number) : Type 0 where
    pub has_format : bundle.format ≡ expected_format
    pub root_value : Value Number
    pub root_parsed : from_str bundle.root_canonical ≡ ok root_value
    pub is_closed : IsClosed bundle root_value

  -- A closure bundle is reported valid exactly when it parses, has the expected format, its root is
  -- a JSON value with a readable event hash that is reported valid and is a pack, the manifest is an
  -- object whose recomputed digest is the one that it states and that the root commits to and whose
  -- count, where both are there, is the length of its closure, every supplied receipt is JSON, the
  -- walk from the root meets no edge that is not resolved and no cycle, and the closure that the
  -- manifest lists is what the walk reaches apart from the root.
  pub verify_closure_bundle-valid_iff :
      (parsed : Result String (ClosureBundle Number))
      → ((verify_closure_bundle parsed).status ≡ valid)
        ↔ ((bundle : ClosureBundle Number) × (parsed ≡ ok bundle) × IsValidBundle bundle)
  unfolding verify_closure_bundle
  verify_closure_bundle-valid_iff (err e) = (λ h. cc, λ h. cc h.1)
  verify_closure_bundle-valid_iff (ok bundle) =
      let parsed = from_str bundle.root_canonical in
      let format = eq_iff bundle.format expected_format in
      let inner = rooted_result-valid_iff bundle parsed in
      let tested =
        tested-valid_iff (λ r. r.status) (str_eq bundle.format expected_format) (invalid_bundle _)
          (rooted_result bundle parsed) refl in
      (
        λ h.
            let (q, r) = tested.0 h in
            let (v, p, closed) = inner.0 r in
            (
              bundle,
              refl,
              record {
                has_format = format.0 q;
                root_value = v;
                root_parsed = p;
                is_closed = closed;
              },
            ),
        λ h.
            let v = subst IsValidBundle (sym (ok-injective h.1)) h.2 in
            tested.1 (format.1 v.has_format, inner.1 (v.root_value, v.root_parsed, v.is_closed)),
      )
