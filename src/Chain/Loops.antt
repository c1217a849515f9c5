-- ===== src/Chain/Loops.antt =====
-- src/chain.rs: what each loop of `check_chain_detail` leaves in its accumulators.
use vertrule_verifier.Prelude.{
  ℕ, ◌+◌, ◌<◌, ◌≡◌, ◌↔◌, refl, sym, Bool, true, false, ◌&&◌, not, Option, none, some, List, [], ◌∷◌,
  map, leb, All, arith,
}
use vertrule_verifier.External.{External}
use vertrule_verifier.Error.{VerifyError}
use vertrule_verifier.Chain.{
  push_if, uniform_from, option_eq, fresh, PairState, pair_step, pairs_from,
}
use vertrule_verifier.Chain.Spec.{IsLinked, IsIncreasing, IsFresh, IsDistinct}

module _ ⦃x : External⦄ where
  open x use {
    Digest, ReceiptEnvelope, digest_eq, digest_eq_iff, event_hash, parent_id, logical_time,
  }

  push_if-nil_iff :
      (b : Bool) (e : VerifyError) (errors : List VerifyError)
      → (push_if b e errors ≡ []) ↔ ((b ≡ false) × (errors ≡ []))
  push_if-nil_iff true e [] = (λ h. cc, λ h. cc)
  push_if-nil_iff true e (f ∷ fs) = (λ h. cc, λ h. cc)
  push_if-nil_iff false e errors = (λ h. (refl, h), λ h. h.1)

  differs_iff : (a b : Digest) → (not (digest_eq a b) ≡ false) ↔ (a ≡ b)
  differs_iff a b = grind (arith, digest_eq_iff)

  pub uniform_from-nil_iff :
      (expected : Digest) (field : ReceiptEnvelope → Digest)
      (make_err : ℕ → Digest → Digest → VerifyError) (i : ℕ) (envs : List ReceiptEnvelope)
      (errors : List VerifyError) (u : Bool)
      → ((uniform_from expected field make_err i envs (errors, u)).0 ≡ [])
        ↔ ((errors ≡ []) × All (λ e. field e ≡ expected) envs)
  unfolding uniform_from
  uniform_from-nil_iff expected field make_err i [] errors u = (λ h. (h, tt), λ h. h.0)
  uniform_from-nil_iff expected field make_err i (env ∷ rest) errors u =
      let differs = not (digest_eq (field env) expected) in
      let e = make_err i expected (field env) in
      let ih =
        uniform_from-nil_iff expected field make_err (i + 1) rest (push_if differs e errors)
          (u && not differs) in
      let pushed = push_if-nil_iff differs e errors in
      let same = differs_iff (field env) expected in
      (
        λ h.
            let (p, all) = ih.0 h in
            let (d, none_before) = pushed.0 p in (none_before, (same.0 d, all)),
        λ h. ih.1 (pushed.1 (same.1 h.1.0, h.0), h.1.1),
      )

  pub uniform_from-true_iff :
      (expected : Digest) (field : ReceiptEnvelope → Digest)
      (make_err : ℕ → Digest → Digest → VerifyError) (i : ℕ) (envs : List ReceiptEnvelope)
      (errors : List VerifyError) (u : Bool)
      → ((uniform_from expected field make_err i envs (errors, u)).1 ≡ true)
        ↔ ((u ≡ true) × All (λ e. field e ≡ expected) envs)
  unfolding uniform_from
  uniform_from-true_iff expected field make_err i [] errors u = (λ h. (h, tt), λ h. h.0)
  uniform_from-true_iff expected field make_err i (env ∷ rest) errors u =
      let differs = not (digest_eq (field env) expected) in
      let e = make_err i expected (field env) in
      let ih =
        uniform_from-true_iff expected field make_err (i + 1) rest (push_if differs e errors)
          (u && not differs) in
      let same = differs_iff (field env) expected in
      (
        λ h.
            let (p, all) = ih.0 h in
            let q : (u ≡ true) × (differs ≡ false) = ground arith in (q.0, (same.0 q.1, all)),
        λ h. let d : differs ≡ false = same.1 h.1.0 in ih.1 (ground arith, h.1.1),
      )

  fresh_iff : (d : Digest) (seen : List Digest) → (fresh d seen ≡ true) ↔ IsFresh d seen
  unfolding fresh
  fresh_iff d [] = (λ h. tt, λ h. refl)
  fresh_iff d (h ∷ seen) = grind (arith, digest_eq_iff d h, fresh_iff d seen)

  parent_iff : (o : Option Digest) (d : Digest) → (option_eq o (some d) ≡ true) ↔ (o ≡ some d)
  parent_iff none d = (λ h. cc, λ h. cc)
  parent_iff (some c) d = grind (arith, digest_eq_iff c d)

  not_iff : (b : Bool) → (not b ≡ false) ↔ (b ≡ true)
  not_iff b = ground arith

  leb-false : (a b : ℕ) → b < a → leb a b ≡ false
  leb-false a b h = ground arith

  leb→lt : (a b : ℕ) → leb a b ≡ false → b < a
  leb→lt a b h = ground arith

  module _ (i : ℕ) (prev curr : ReceiptEnvelope) (s : PairState) where
    step-errors_iff : ((pair_step i prev curr s).errors ≡ []) ↔ (
        (s.errors ≡ [])
        × IsFresh (event_hash curr) s.seen_hashes
        × (parent_id curr ≡ some (event_hash prev))
        × (logical_time prev < logical_time curr))
    unfolding pair_step
    step-errors_iff =
        let repeated = fresh (event_hash curr) s.seen_hashes in
        let linked = option_eq (parent_id curr) (some (event_hash prev)) in
        let is_fresh = fresh_iff (event_hash curr) s.seen_hashes in
        let is_linked = parent_iff (parent_id curr) (event_hash prev) in
        (
          λ h.
              let (on_time, p) = (push_if-nil_iff _ _ _).0 h in
              let (l, q) = (push_if-nil_iff (not linked) _ _).0 p in
              let (f, before) = (push_if-nil_iff (not repeated) _ _).0 q in
              (
                before,
                is_fresh.0 ((not_iff repeated).0 f),
                is_linked.0 ((not_iff linked).0 l),
                leb→lt _ _ on_time,
              ),
          λ h. (push_if-nil_iff _ _ _).1 (
            leb-false _ _ h.3,
            (push_if-nil_iff (not linked) _ _).1 (
              (not_iff linked).1 (is_linked.1 h.2),
              (push_if-nil_iff (not repeated) _ _).1 ((not_iff repeated).1 (is_fresh.1 h.1), h.0),
            ),
          ),
        )

    step-linkage_iff : ((pair_step i prev curr s).linkage_ok ≡ true) ↔ (
        (s.linkage_ok ≡ true)
        × IsFresh (event_hash curr) s.seen_hashes
        × (parent_id curr ≡ some (event_hash prev)))
    unfolding pair_step
    step-linkage_iff = grind (
      arith,
      fresh_iff (event_hash curr) s.seen_hashes,
      parent_iff (parent_id curr) (event_hash prev),
    )

    step-ordering_iff :
        ((pair_step i prev curr s).ordering_ok ≡ true)
        ↔ ((s.ordering_ok ≡ true) × (logical_time prev < logical_time curr))
    unfolding pair_step
    step-ordering_iff = ground arith

  -- The digests from the second envelope on, each fresh among those seen before it.
  abbrev pub FreshFrom : List Digest → List ReceiptEnvelope → Type 0
  FreshFrom seen [] = Unit
  FreshFrom seen (curr ∷ rest) =
      IsFresh (event_hash curr) seen × FreshFrom (event_hash curr ∷ seen) rest

  pub pairs_from-errors_iff :
      (i : ℕ) (prev : ReceiptEnvelope) (rest : List ReceiptEnvelope) (s : PairState)
      → ((pairs_from i prev rest s).errors ≡ []) ↔ (
          (s.errors ≡ [])
          × FreshFrom s.seen_hashes rest
          × IsLinked prev rest
          × IsIncreasing prev rest)
  unfolding pairs_from
  pairs_from-errors_iff i prev [] s = (λ h. (h, tt, tt, tt), λ h. h.0)
  pairs_from-errors_iff i prev (curr ∷ rest) s =
      let ih = pairs_from-errors_iff (i + 1) curr rest (pair_step i prev curr s) in
      let step = step-errors_iff i prev curr s in
      (
        λ h.
            let (p, fresh_rest, linked, rising) = ih.0 h in
            let (none_before, is_fresh, is_linked, is_later) = step.0 p in
            (none_before, (is_fresh, fresh_rest), (is_linked, linked), (is_later, rising)),
        λ h. ih.1 (step.1 (h.0, h.1.0, h.2.0, h.3.0), h.1.1, h.2.1, h.3.1),
      )

  pub pairs_from-linkage_iff :
      (i : ℕ) (prev : ReceiptEnvelope) (rest : List ReceiptEnvelope) (s : PairState)
      → ((pairs_from i prev rest s).linkage_ok ≡ true)
        ↔ ((s.linkage_ok ≡ true) × FreshFrom s.seen_hashes rest × IsLinked prev rest)
  unfolding pairs_from
  pairs_from-linkage_iff i prev [] s = (λ h. (h, tt, tt), λ h. h.0)
  pairs_from-linkage_iff i prev (curr ∷ rest) s =
      let ih = pairs_from-linkage_iff (i + 1) curr rest (pair_step i prev curr s) in
      let step = step-linkage_iff i prev curr s in
      (
        λ h.
            let (p, fresh_rest, linked) = ih.0 h in
            let (before, is_fresh, is_linked) = step.0 p in
            (before, (is_fresh, fresh_rest), (is_linked, linked)),
        λ h. ih.1 (step.1 (h.0, h.1.0, h.2.0), h.1.1, h.2.1),
      )

  pub pairs_from-ordering_iff :
      (i : ℕ) (prev : ReceiptEnvelope) (rest : List ReceiptEnvelope) (s : PairState)
      → ((pairs_from i prev rest s).ordering_ok ≡ true)
        ↔ ((s.ordering_ok ≡ true) × IsIncreasing prev rest)
  unfolding pairs_from
  pairs_from-ordering_iff i prev [] s = (λ h. (h, tt), λ h. h.0)
  pairs_from-ordering_iff i prev (curr ∷ rest) s =
      let ih = pairs_from-ordering_iff (i + 1) curr rest (pair_step i prev curr s) in
      let step = step-ordering_iff i prev curr s in
      (
        λ h.
            let (p, rising) = ih.0 h in
            let (before, is_later) = step.0 p in (before, (is_later, rising)),
        λ h. ih.1 (step.1 (h.0, h.1.0), h.1.1),
      )

  all_trivial : (seen : List Digest) → All (λ d. IsFresh d []) seen
  all_trivial [] = tt
  all_trivial (d ∷ seen) = (tt, all_trivial seen)

  all-cons_iff :
      (c : Digest) (ds seen : List Digest)
      → All (λ d. IsFresh d (c ∷ ds)) seen ↔ (IsFresh c seen × All (λ d. IsFresh d ds) seen)
  all-cons_iff c ds [] = (λ h. (tt, tt), λ h. tt)
  all-cons_iff c ds (d ∷ seen) =
      let ih = all-cons_iff c ds seen in
      (
        λ h. let (others, rest) = ih.0 h.1 in ((λ e. h.0.0 (sym e), others), (h.0.1, rest)),
        λ h. ((λ e. h.0.0 (sym e), h.1.0), ih.1 (h.0.1, h.1.1)),
      )

  FreshFrom-iff :
      (seen : List Digest) (rest : List ReceiptEnvelope)
      → FreshFrom seen rest
        ↔ (All (λ d. IsFresh d (map event_hash rest)) seen × IsDistinct (map event_hash rest))
  FreshFrom-iff seen [] = (λ h. (all_trivial seen, tt), λ h. tt)
  FreshFrom-iff seen (curr ∷ rest) =
      let c = event_hash curr in
      let ds = map event_hash rest in
      let ih = FreshFrom-iff (c ∷ seen) rest in
      let zipped = all-cons_iff c ds seen in
      (
        λ h. let (p, distinct) = ih.0 h.1 in (zipped.1 (h.0, p.1), (p.0, distinct)),
        λ h. let (is_fresh, p) = zipped.0 h.0 in (is_fresh, ih.1 ((h.1.0, p), h.1.1)),
      )

  -- What the loop keeps of the hashes, from the first envelope on, is that no hash is repeated.
  pub FreshFrom-IsDistinct_iff :
      (first : ReceiptEnvelope) (rest : List ReceiptEnvelope)
      → FreshFrom (event_hash first ∷ []) rest ↔ IsDistinct (map event_hash (first ∷ rest))
  FreshFrom-IsDistinct_iff first rest =
      let both = FreshFrom-iff (event_hash first ∷ []) rest in
      (λ h. let (p, distinct) = both.0 h in (p.0, distinct), λ h. both.1 ((h.0, tt), h.1))
