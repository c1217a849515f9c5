-- ===== src/Chain/Validity.antt =====
-- src/chain.rs: the chain check decides the seven chain conditions, and its flags say which hold.
use vertrule_verifier.Prelude.{ℕ, ◌≡◌, ◌↔◌, refl, true, Option, none, some, List, [], ◌∷◌, ok}
use vertrule_verifier.External.{External}
use vertrule_verifier.Error.{
  VerifyError, context_inconsistent, policy_inconsistent, schema_inconsistent,
}
use vertrule_verifier.Chain.{
  check_chain_detail, check_uniform, first_error, is_root, root_errors, verify_chain,
}
use vertrule_verifier.Chain.Spec.{HasLinkage, IsChain, IsIncreasing, IsUniform}
use vertrule_verifier.Chain.Loops.{
  uniform_from-nil_iff, uniform_from-true_iff, pairs_from-errors_iff, pairs_from-linkage_iff,
  pairs_from-ordering_iff, FreshFrom-IsDistinct_iff,
}

module _ ⦃x : External⦄ where
  open x use {
    Digest, ReceiptEnvelope, parent_id, event_hash, context_digest, policy_digest, schema_digest,
  }

  root-nil_iff : (o : Option Digest) → (root_errors o ≡ []) ↔ (o ≡ none)
  root-nil_iff none = (λ h. refl, λ h. refl)
  root-nil_iff (some d) = (λ h. cc, λ h. cc)

  root-true_iff : (o : Option Digest) → (is_root o ≡ true) ↔ (o ≡ none)
  root-true_iff none = (λ h. refl, λ h. refl)
  root-true_iff (some d) = (λ h. cc, λ h. cc)

  first_error-ok_iff : (es : List VerifyError) → (first_error es ≡ ok tt) ↔ (es ≡ [])
  first_error-ok_iff [] = (λ h. refl, λ h. refl)
  first_error-ok_iff (e ∷ es) = (λ h. cc, λ h. cc)

  module _ (first : ReceiptEnvelope) (rest : List ReceiptEnvelope)
      (field : ReceiptEnvelope → Digest) (make_err : ℕ → Digest → Digest → VerifyError)
      (errors : List VerifyError) where
    check_uniform-nil_iff :
        ((check_uniform first rest field make_err errors).0 ≡ [])
        ↔ ((errors ≡ []) × IsUniform field first rest)
    unfolding check_uniform
    check_uniform-nil_iff = uniform_from-nil_iff (field first) field make_err 1 rest errors true

    check_uniform-true_iff :
        ((check_uniform first rest field make_err errors).1 ≡ true) ↔ IsUniform field first rest
    unfolding check_uniform
    check_uniform-true_iff =
        let loop = uniform_from-true_iff (field first) field make_err 1 rest errors true in
        (λ h. (loop.0 h).1, λ h. loop.1 (refl, h))

  -- The list of errors is empty exactly for a chain.
  pub errors-nil_iff :
      (envelopes : List ReceiptEnvelope)
      → ((check_chain_detail envelopes).errors ≡ []) ↔ IsChain envelopes
  unfolding check_chain_detail
  errors-nil_iff [] = (λ h. tt, λ h. refl)
  errors-nil_iff (first ∷ rest) =
      let distinct = FreshFrom-IsDistinct_iff first rest in
      let root = root-nil_iff (parent_id first) in
      let context = check_uniform-nil_iff first rest context_digest context_inconsistent in
      let policy = check_uniform-nil_iff first rest policy_digest policy_inconsistent in
      let schema = check_uniform-nil_iff first rest schema_digest schema_inconsistent in
      let pairs = pairs_from-errors_iff 1 first rest in
      (
        λ h.
            let (p, fresh, linked, rising) = (pairs _).0 h in
            let (q, same_schema) = (schema _).0 p in
            let (r, same_policy) = (policy _).0 q in
            let (t, same_context) = (context _).0 r in
            ((root.0 t, linked, distinct.0 fresh), rising, same_context, same_policy, same_schema),
        λ h.
            let q = (context _).1 (root.1 h.0.0, h.2) in
            let p = (schema _).1 ((policy _).1 (q, h.3), h.4) in
            (pairs _).1 (p, distinct.1 h.0.2, h.0.1, h.1),
      )

  -- `verify_chain` accepts a sequence of envelopes exactly when it is a chain: the first has no
  -- parent, each other's parent is the event hash before it, no event hash occurs twice, logical
  -- time rises strictly, and context, policy and schema digests are those of the first envelope.
  pub verify_chain-ok_iff :
      (envelopes : List ReceiptEnvelope) → (verify_chain envelopes ≡ ok tt) ↔ IsChain envelopes
  unfolding verify_chain
  verify_chain-ok_iff envelopes =
      let accepted = first_error-ok_iff (check_chain_detail envelopes).errors in
      let decided = errors-nil_iff envelopes in
      (λ h. decided.0 (accepted.0 h), λ h. accepted.1 (decided.1 h))

  -- Each flag of the detail of a chain with a first envelope tells its own condition: `linkage_ok`
  -- the parents and the distinct hashes, `ordering_ok` the rising times, and the three others the
  -- uniform context, policy and schema digests.
  pub flags_iff :
      (first : ReceiptEnvelope) (rest : List ReceiptEnvelope)
      → (((check_chain_detail (first ∷ rest)).linkage_ok ≡ true) ↔ HasLinkage first rest)
        × (((check_chain_detail (first ∷ rest)).ordering_ok ≡ true) ↔ IsIncreasing first rest)
        × (((check_chain_detail (first ∷ rest)).context_uniform ≡ true)
            ↔ IsUniform context_digest first rest)
        × (((check_chain_detail (first ∷ rest)).policy_stable ≡ true)
            ↔ IsUniform policy_digest first rest)
        × (((check_chain_detail (first ∷ rest)).schema_uniform ≡ true)
            ↔ IsUniform schema_digest first rest)
  unfolding check_chain_detail
  flags_iff first rest =
      let distinct = FreshFrom-IsDistinct_iff first rest in
      let linkage = pairs_from-linkage_iff 1 first rest in
      let ordering = pairs_from-ordering_iff 1 first rest in
      let root = root-true_iff (parent_id first) in
      (
        (
          λ h. let (p, fresh, linked) = (linkage _).0 h in (root.0 p, linked, distinct.0 fresh),
          λ h. (linkage _).1 (root.1 h.0, distinct.1 h.2, h.1),
        ),
        (λ h. ((ordering _).0 h).1, λ h. (ordering _).1 (refl, h)),
        check_uniform-true_iff first rest context_digest context_inconsistent _,
        check_uniform-true_iff first rest policy_digest policy_inconsistent _,
        check_uniform-true_iff first rest schema_digest schema_inconsistent _,
      )
