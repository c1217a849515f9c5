-- ===== src/Chain.antt =====
-- src/chain.rs: the invariants of a chain of envelopes, every violation collected.
pub mod Spec
mod Loops
pub mod Validity
use vertrule_verifier.Prelude.{
  ℕ, ◌+◌, Bool, true, false, ◌&&◌, ◌||◌, not, Option, none, some, List, [], ◌∷◌, ◌++◌, Result, ok,
  err, leb, if◌then◌else◌,
}
use vertrule_verifier.External.{External}
use vertrule_verifier.Error.{
  VerifyError, chain_linkage_broken, logical_time_not_monotonic, duplicate_event_hash,
  context_inconsistent, policy_inconsistent, schema_inconsistent,
}

module _ ⦃x : External⦄ where
  open x use {
    Digest, ReceiptEnvelope, digest_eq, parent_id, event_hash, logical_time, context_digest,
    policy_digest, schema_digest,
  }

  pub record ChainDetail : Type 0 where
    pub linkage_ok : Bool
    pub ordering_ok : Bool
    pub context_uniform : Bool
    pub policy_stable : Bool
    pub schema_uniform : Bool
    pub errors : List VerifyError

  -- `Vec::push` under a test that also clears a flag
  abbrev push_if : Bool → VerifyError → List VerifyError → List VerifyError
  push_if b e errors = if b then errors ++ e ∷ [] else errors

  -- The loop of `check_uniform` over the envelopes from `index` on.
  pub uniform_from :
      Digest
      → (ReceiptEnvelope → Digest)
      → (ℕ → Digest → Digest → VerifyError)
      → ℕ
      → List ReceiptEnvelope
      → List VerifyError × Bool
      → List VerifyError × Bool
  uniform_from expected field make_err index [] (errors, uniform) = (errors, uniform)
  uniform_from expected field make_err index (env ∷ rest) (errors, uniform) =
      let differs = not (digest_eq (field env) expected) in
      uniform_from expected field make_err (index + 1) rest
        (push_if differs (make_err index expected (field env)) errors, uniform && not differs)

  -- `check_uniform`: the errors with those it pushed, and its result. It is called on a chain that
  -- is not empty, given by its first envelope and the others.
  pub check_uniform :
      ReceiptEnvelope
      → List ReceiptEnvelope
      → (ReceiptEnvelope → Digest)
      → (ℕ → Digest → Digest → VerifyError)
      → List VerifyError
      → List VerifyError × Bool
  unfolding uniform_from
  check_uniform first rest field make_err errors =
      uniform_from (field first) field make_err 1 rest (errors, true)

  -- `Option<DigestBytes> ==`
  abbrev option_eq : Option Digest → Option Digest → Bool
  option_eq none none = true
  option_eq (some a) (some b) = digest_eq a b
  option_eq _ _ = false

  -- `!seen_hashes.contains(digest)`, of a set given by its members
  fresh : Digest → List Digest → Bool
  fresh d [] = true
  fresh d (h ∷ seen) = not (digest_eq d h) && fresh d seen

  -- The variables of the loop over adjacent envelopes.
  pub record PairState : Type 0 where
    pub errors : List VerifyError
    pub linkage_ok : Bool
    pub ordering_ok : Bool
    pub seen_hashes : List Digest

  -- One round of the loop, at `index`.
  pub pair_step : ℕ → ReceiptEnvelope → ReceiptEnvelope → PairState → PairState
  unfolding fresh
  pair_step index prev curr s =
      let repeated = not (fresh (event_hash curr) s.seen_hashes) in
      let expected_parent = some (event_hash prev) in
      let unlinked = not (option_eq (parent_id curr) expected_parent) in
      let late = leb (logical_time curr) (logical_time prev) in
      let with_duplicate =
        push_if repeated (duplicate_event_hash index (event_hash curr)) s.errors in
      let with_linkage =
        push_if unlinked (chain_linkage_broken index expected_parent (parent_id curr))
          with_duplicate in
      let with_time =
        push_if late (logical_time_not_monotonic index (logical_time prev) (logical_time curr))
          with_linkage in
      record {
        errors = with_time;
        linkage_ok = s.linkage_ok && not repeated && not unlinked;
        ordering_ok = s.ordering_ok && not late;
        seen_hashes = event_hash curr ∷ s.seen_hashes;
      }

  pub pairs_from : ℕ → ReceiptEnvelope → List ReceiptEnvelope → PairState → PairState
  unfolding pair_step
  pairs_from index prev [] s = s
  pairs_from index prev (curr ∷ rest) s =
      pairs_from (index + 1) curr rest (pair_step index prev curr s)

  -- `first.parent_id.is_some()`, and the error that it pushes
  abbrev root_errors : Option Digest → List VerifyError
  root_errors none = []
  root_errors (some d) = chain_linkage_broken 0 none (some d) ∷ []

  abbrev is_root : Option Digest → Bool
  is_root none = true
  is_root (some d) = false

  unfoldable pub check_chain_detail : List ReceiptEnvelope → ChainDetail
  unfolding check_uniform pairs_from
  check_chain_detail [] = record {
    linkage_ok = true;
    ordering_ok = true;
    context_uniform = true;
    policy_stable = true;
    schema_uniform = true;
    errors = [];
  }
  check_chain_detail (first ∷ rest) =
      let errors = root_errors (parent_id first) in
      let linkage = is_root (parent_id first) in
      let (after_context, context) =
        check_uniform first rest context_digest context_inconsistent errors in
      let (after_policy, policy) =
        check_uniform first rest policy_digest policy_inconsistent after_context in
      let (after_schema, schema) =
        check_uniform first rest schema_digest schema_inconsistent after_policy in
      let last = pairs_from 1 first rest (record {
        errors = after_schema;
        linkage_ok = linkage;
        ordering_ok = true;
        seen_hashes = event_hash first ∷ [];
      }) in
      record {
        linkage_ok = last.linkage_ok;
        ordering_ok = last.ordering_ok;
        context_uniform = context;
        policy_stable = policy;
        schema_uniform = schema;
        errors = last.errors;
      }

  abbrev first_error : List VerifyError → Result VerifyError (Unit {0})
  first_error [] = ok tt
  first_error (e ∷ es) = err e

  unfoldable pub verify_chain : List ReceiptEnvelope → Result VerifyError (Unit {0})
  verify_chain envelopes = first_error (check_chain_detail envelopes).errors
