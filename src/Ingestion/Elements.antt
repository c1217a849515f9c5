-- ===== src/Ingestion/Elements.antt =====
-- src/ingestion.rs: what the ingestion of a chain admits.
use vertrule_verifier.Prelude.{
  ℕ, ◌+◌, map_err, ◌≤◌, ◌≡◌, ◌↔◌, refl, sym, subst, List, [], ◌∷◌, ok, arith, length, >>-ok_iff,
  >>=-ok_iff, map_err-ok_iff, ↔_trans, ×_iff,
}
use vertrule_verifier.Json.{Value, Items, null, array, items}
use vertrule_verifier.External.{External}
use vertrule_verifier.Error.{limit_exceeded}
use vertrule_verifier.Limits.{VerifierLimits, check_chain_length}
use vertrule_verifier.Ingestion.{
  admit_value, ingest_element, ingest_elements, ingest_array, chain_of, ingest_chain_with_limits,
  element_error,
}
use vertrule_verifier.Ingestion.Admission.{
  AdmitsValue, IsEnvelopeValue, admit_value-ok_iff, convert-ok_iff,
}

chain_length-ok_iff :
    (n : ℕ) (l : VerifierLimits) → (check_chain_length n l ≡ ok tt) ↔ (n ≤ l.max_chain_length)
unfolding check_chain_length
chain_length-ok_iff n l = ground arith

module _ ⦃x : External⦄ where
  open x use {Number, ReceiptEnvelope}

  -- Element by element.
  abbrev pub AreEnvelopes : List (Value Number) → List ReceiptEnvelope → Type 0
  AreEnvelopes [] [] = Unit
  AreEnvelopes (v ∷ vs) (e ∷ es) = IsEnvelopeValue v e × AreEnvelopes vs es
  AreEnvelopes _ _ = ⊥

  ingest_elements-ok_iff :
      (i : ℕ) (vs : List (Value Number)) (es : List ReceiptEnvelope)
      → (ingest_elements i vs ≡ ok es) ↔ AreEnvelopes vs es
  unfolding ingest_elements
  ingest_elements-ok_iff i [] [] = (λ h. tt, λ h. refl)
  ingest_elements-ok_iff i [] (e ∷ es) = (λ h. cc, λ h. absurd h)
  ingest_elements-ok_iff i (v ∷ vs) [] = (
    λ h.
        let (d, p, q) = (>>=-ok_iff (ingest_element i v) _ []).0 h in
        let (ds, r, t) = (>>=-ok_iff (ingest_elements (i + 1) vs) _ []).0 q in cc t,
    λ h. absurd h,
  )
  ingest_elements-ok_iff i (v ∷ vs) (e ∷ es) = (
    λ h.
        let (d, p, q) = (>>=-ok_iff (ingest_element i v) _ (e ∷ es)).0 h in
        let (ds, r, t) = (>>=-ok_iff (ingest_elements (i + 1) vs) _ (e ∷ es)).0 q in
        let same : d ≡ e = cc t in
        let others : ds ≡ es = cc t in
        (
          subst (IsEnvelopeValue v) same ((convert-ok_iff (element_error i) v d).0 p),
          subst (AreEnvelopes vs) others ((ingest_elements-ok_iff (i + 1) vs ds).0 r),
        ),
    λ h. (>>=-ok_iff (ingest_element i v) _ (e ∷ es)).1 (
      e,
      (convert-ok_iff (element_error i) v e).1 h.0,
      (>>=-ok_iff (ingest_elements (i + 1) vs) _ (e ∷ es)).1
          (es, (ingest_elements-ok_iff (i + 1) vs es).1 h.1, refl),
    ),
  )

  ingest_array-ok_iff :
      (l : VerifierLimits) (vs : List (Value Number)) (es : List ReceiptEnvelope)
      → (ingest_array l vs ≡ ok es) ↔ ((length vs ≤ l.max_chain_length) × AreEnvelopes vs es)
  unfolding ingest_array
  ingest_array-ok_iff l [] [] = (λ h. (omega arith, tt), λ h. refl)
  ingest_array-ok_iff l [] (e ∷ es) = (λ h. cc, λ h. absurd h.1)
  ingest_array-ok_iff l (v ∷ vs) es =
      let n = length (v ∷ vs) in
      let bound =
        ↔_trans (map_err-ok_iff limit_exceeded (check_chain_length n l) tt)
          (chain_length-ok_iff n l) in
      ↔_trans (>>-ok_iff (map_err limit_exceeded (check_chain_length n l)) _ es)
        (×_iff bound (ingest_elements-ok_iff 0 (v ∷ vs) es))

  -- What the raw bytes of a chain are.
  abbrev pub IsAdmittedChain : List ℕ → VerifierLimits → List ReceiptEnvelope → Type 0
  IsAdmittedChain raw l es =
      (vs : Items Number) × AdmitsValue raw l (array vs)
      × (length (items vs) ≤ l.max_chain_length)
      × AreEnvelopes (items vs) es

  array_step-ok_iff :
      (l : VerifierLimits) (v : Value Number) (es : List ReceiptEnvelope)
      → (chain_of l v ≡ ok es) ↔ (
          (vs : Items Number) × (v ≡ array vs)
          × (length (items vs) ≤ l.max_chain_length)
          × AreEnvelopes (items vs) es)
  array_step-ok_iff l (array vs) es =
      let inner = ingest_array-ok_iff l (items vs) es in
      (
        λ h. let (p, q) = inner.0 h in (vs, refl, p, q),
        λ h.
            let same : vs ≡ h.0 = cc h.1 in
            inner.1 (
              subst (λ u. length (items u) ≤ l.max_chain_length) (sym same) h.2,
              subst (λ u. AreEnvelopes (items u) es) (sym same) h.3,
            ),
      )
  array_step-ok_iff l null es = (λ h. cc, λ h. cc h.1)
  array_step-ok_iff l v es = (λ h. cc, λ h. cc h.1)

  -- Ingestion returns a list of envelopes exactly when the bytes are at most `max_bytes`, are their
  -- own canonical form, and parse to an array within the structural limits, of at most
  -- `max_chain_length` elements, of which each is admitted as the envelope at its place in the list.
  pub ingest_chain-ok_iff :
      (raw : List ℕ) (l : VerifierLimits) (es : List ReceiptEnvelope)
      → (ingest_chain_with_limits raw l ≡ ok es) ↔ IsAdmittedChain raw l es
  unfolding ingest_chain_with_limits
  ingest_chain-ok_iff raw l es =
      let steps = >>=-ok_iff (admit_value raw l) (chain_of l) es in
      (
        λ h.
            let (v, p, q) = steps.0 h in
            let (vs, same, short, elements) = (array_step-ok_iff l v es).0 q in
            (
              vs,
              subst (AdmitsValue raw l) same ((admit_value-ok_iff raw l v).0 p),
              short,
              elements,
            ),
        λ h. steps.1 (
          array h.0,
          (admit_value-ok_iff raw l (array h.0)).1 h.1,
          (array_step-ok_iff l (array h.0) es).1 (h.0, refl, h.2, h.3),
        ),
      )
