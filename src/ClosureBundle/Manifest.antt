-- ===== src/ClosureBundle/Manifest.antt =====
-- src/closure_bundle.rs: when the manifest of a bundle passes its checks.
use mathlib.Core.List
use vertrule_verifier.Prelude.{
  ℕ, ◌≡◌, ◌↔◌, refl, sym, subst, true, String, Option, none, some, [], arith, str_eq, eq_iff, ◌==◌,
  ==_iff, is_empty_iff, append-nil_iff, Bool-cases, inl, inr,
}
use vertrule_verifier.Json.{Value, Fields, object}
use vertrule_verifier.External.{External}
use vertrule_verifier.ClosureBundle.{
  recomputed_digest, stated_digest, dependency_count, listed_length, manifest_errors,
  check_manifest_digest,
}
use vertrule_verifier.ClosureBundle.Report.{digest_errors, root_digest_errors, count_errors}

digest_errors-nil_iff :
    (r s : Option String) → (digest_errors r s ≡ []) ↔ ((d : String) × (r ≡ some d) × (s ≡ some d))
digest_errors-nil_iff none s = (λ h. cc, λ h. cc h.1)
digest_errors-nil_iff (some r) none = (λ h. cc, λ h. cc h.2)
digest_errors-nil_iff (some r) (some s) =
    let same = eq_iff r s in
    elim (Bool-cases (str_eq r s)) [
      | inl p ↦ (λ h. let q = same.0 p in (r, refl, cc q), λ h. rw p)
      | inr p ↦ (λ h. ground (arith, p, h), λ h. cc (same.1 (cc (h.1, h.2))))
    ]

root_digest_errors-nil_iff :
    (d : String) (c : Option String) → (root_digest_errors (some d) c ≡ []) ↔ (c ≡ some d)
root_digest_errors-nil_iff d none = (λ h. cc, λ h. cc)
root_digest_errors-nil_iff d (some c) =
    let same = eq_iff d c in
    elim (Bool-cases (str_eq d c)) [
      | inl p ↦ (λ h. let q = same.0 p in cc q, λ h. rw p)
      | inr p ↦ (λ h. ground (arith, p, h), λ h. cc (same.1 (cc h)))
    ]

-- Two numbers that agree where both are there.
abbrev pub Agrees : Option ℕ → Option ℕ → Type 0
Agrees count listed = (c l : ℕ) → count ≡ some c → listed ≡ some l → c ≡ l

count_errors-nil_iff :
    (count listed : Option ℕ) → (count_errors count listed ≡ []) ↔ Agrees count listed
count_errors-nil_iff none listed = (λ h c l p q. cc p, λ h. refl)
count_errors-nil_iff (some c) none = (λ h d l p q. cc q, λ h. refl)
count_errors-nil_iff (some c) (some l) =
    let same = ==_iff c l in
    elim (Bool-cases (c == l)) [
      | inl p ↦ (λ h d m q r. let e = same.0 p in cc (e, q, r), λ h. rw p)
      | inr p ↦ (λ h. ground (arith, p, h), λ h. cc (same.1 (h c l refl refl)))
    ]

module _ ⦃x : External⦄ where
  open x use {Number}

  -- The manifest is an object whose digest, recomputed without it, is the one that it states and
  -- the one that the root commits to, and its count, where both are there, is the length of its list.
  pub record IsCommitted (manifest : Value Number) (committed : Option String) : Type 0 where
    pub obj : Fields Number
    pub is_object : manifest ≡ object obj
    pub digest : String
    pub recomputed : recomputed_digest obj ≡ some digest
    pub stated : stated_digest obj ≡ some digest
    pub committed_to : committed ≡ some digest
    pub counted : Agrees (dependency_count obj) (listed_length obj)

  object_errors-nil_iff :
      (obj : Fields Number) (committed : Option String)
      → (manifest_errors obj committed ≡ []) ↔ IsCommitted (object obj) committed
  unfolding manifest_errors
  object_errors-nil_iff obj committed =
      let recomputed = recomputed_digest obj in
      let first = digest_errors recomputed (stated_digest obj) in
      let second = root_digest_errors recomputed committed in
      let third = count_errors (dependency_count obj) (listed_length obj) in
      let outer = append-nil_iff first (List.◌++◌ second third) in
      let inner = append-nil_iff second third in
      let digests = digest_errors-nil_iff recomputed (stated_digest obj) in
      let counts = count_errors-nil_iff (dependency_count obj) (listed_length obj) in
      (
        λ h.
            let (a, b) = outer.0 h in
            let (c, e) = inner.0 b in
            let (d, p, q) = digests.0 a in
            record {
              obj = obj;
              is_object = refl;
              digest = d;
              recomputed = p;
              stated = q;
              committed_to =
                  (root_digest_errors-nil_iff d committed).0
                    (subst (λ r. root_digest_errors r committed ≡ []) p c);
              counted = counts.0 e;
            },
        λ h.
            let same : h.obj ≡ obj = cc h.is_object in
            let p = subst (λ o. recomputed_digest o ≡ some h.digest) same h.recomputed in
            let q = subst (λ o. stated_digest o ≡ some h.digest) same h.stated in
            let c =
              subst (λ r. root_digest_errors r committed ≡ []) (sym p)
                ((root_digest_errors-nil_iff h.digest committed).1 h.committed_to) in
            let e =
              counts.1
                (subst (λ o. Agrees (dependency_count o) (listed_length o)) same h.counted) in
            outer.1 (digests.1 (h.digest, p, q), inner.1 (c, e)),
      )

  -- The manifest passes its checks exactly when it is an object whose digest, recomputed over its
  -- other fields, is the one that it states and the one that the root commits to, and whose count,
  -- where it and the list of the closure are there, is the length of that list.
  pub check_manifest_digest-ok_iff :
      (manifest : Value Number) (committed : Option String)
      → ((check_manifest_digest manifest committed).0 ≡ true) ↔ IsCommitted manifest committed
  unfolding check_manifest_digest
  check_manifest_digest-ok_iff (object obj) committed =
      let quiet = is_empty_iff (manifest_errors obj committed) in
      let inner = object_errors-nil_iff obj committed in
      (λ h. inner.0 (quiet.0 h), λ h. quiet.1 (inner.1 h))
  check_manifest_digest-ok_iff v committed = (λ h. cc, λ h. cc h.is_object)

  -- It pushes no error exactly when it passes.
  pub check_manifest_digest-quiet_iff :
      (manifest : Value Number) (committed : Option String)
      → ((check_manifest_digest manifest committed).1 ≡ [])
        ↔ ((check_manifest_digest manifest committed).0 ≡ true)
  unfolding check_manifest_digest
  check_manifest_digest-quiet_iff (object obj) committed =
      let quiet = is_empty_iff (manifest_errors obj committed) in (quiet.1, quiet.0)
  check_manifest_digest-quiet_iff v committed = (λ h. cc, λ h. cc)
