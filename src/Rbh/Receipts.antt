-- ===== src/Rbh/Receipts.antt =====
-- src/rbh.rs: which external receipts are verified.
use vertrule_verifier.Prelude.{
  ◌≡◌, ◌↔◌, ◌⊎◌, refl, inl, inr, true, false, String, ℕ, List, Option, none, some, ok, map_err,
  str_eq, eq_iff, test-ok_iff, >>=-ok_iff, >>-ok_iff, map_err-ok_iff, ok_iff, Bool-cases, ↔_trans,
  ×_iff, arith,
}
use vertrule_verifier.External.{
  External, EventHashProfileId, constitutional_envelope_v1, runtime_port_event_preimage_v1,
}
use vertrule_verifier.Envelope.Checks.{HasEventHash}
use vertrule_verifier.Rbh.{
  EventHashLaw, envelope_minus, runtime_port_preimage, Metadata, starts_with,
  decode_step_schema_prefix, canonical_decode_step_schema, verify_envelope_version, law_of,
  resolve_profile, same_hash, verify_under, verify_event_hash, text_at, check_schema,
  verify_decode_step_schema, metadata_of, verify_external_receipt, parse_error, commitment_error,
  event_hash_mismatch, ReceiptVerifyError,
}

module _ ⦃x : External⦄ where
  open x use {
    ReceiptEnvelope, ReceiptType, Digest, envelope_from_slice, envelope_version, version_eq,
    version_eq_iff, v1, receipt_type, is_event, event_hash, event_hash_profile, payload,
    compute_event_hash, digest_eq, digest_eq_iff, to_hex,
  }

  -- The event hash is that of the envelope: it says so, or its type allows nothing else.
  abbrev pub HasEnvelopeLaw : Option EventHashProfileId → ReceiptType → Type 0
  HasEnvelopeLaw profile kind =
      (profile ≡ some constitutional_envelope_v1) ⊎ ((profile ≡ none) × (is_event kind ≡ false))

  -- A schema that is one of a decode step is the canonical one.
  abbrev pub IsCanonicalStep : Option String → Type 0
  IsCanonicalStep declared =
      (schema : String)
      → declared ≡ some schema
      → starts_with schema decode_step_schema_prefix ≡ true
      → schema ≡ canonical_decode_step_schema

  pub record IsVerified (e : ReceiptEnvelope) : Type 0 where
    pub is_v1 : envelope_version e ≡ v1
    pub law : HasEnvelopeLaw (event_hash_profile e) (receipt_type e)
    pub hash : HasEventHash e
    pub step : IsCanonicalStep (text_at (payload e) "schema")

  law_of-ok_iff :
      (profile : Option EventHashProfileId) (kind : ReceiptType)
      → (law_of profile kind ≡ ok envelope_minus) ↔ HasEnvelopeLaw profile kind
  law_of-ok_iff (some constitutional_envelope_v1) kind = (λ h. inl refl, λ h. refl)
  law_of-ok_iff (some runtime_port_event_preimage_v1) kind =
      (λ h. cc, elim [ inl q ↦ cc q | inr q ↦ cc (q.0) ])
  law_of-ok_iff none kind = elim (Bool-cases (is_event kind)) [
    | inl p ↦ rw p (λ h. cc, elim [ inl q ↦ cc q | inr q ↦ cc (q.1) ])
    | inr p ↦ rw p (λ h. inr (refl, refl), λ h. refl)
  ]

  verify_under-ok_iff :
      (e : ReceiptEnvelope) → (verify_under e envelope_minus ≡ ok tt) ↔ HasEventHash e
  verify_under-ok_iff e =
      let computed = compute_event_hash e in
      let steps = >>=-ok_iff (map_err commitment_error computed) (same_hash e) tt in
      let same = λ (d : Digest).
        ↔_trans
          (test-ok_iff (digest_eq d (event_hash e))
            (event_hash_mismatch (to_hex (event_hash e)) (to_hex d)))
          (digest_eq_iff d (event_hash e)) in
      (
        λ h.
            let (d, p, q) = steps.0 h in
            let equal : d ≡ event_hash e = (same d).0 q in
            cc ((map_err-ok_iff commitment_error computed d).0 p),
        λ h. steps.1 (
          event_hash e,
          (map_err-ok_iff commitment_error computed (event_hash e)).1 h,
          (same (event_hash e)).1 refl,
        ),
      )

  -- Only one law can be verified from the envelope.
  under_law :
      (e : ReceiptEnvelope) (l : EventHashLaw)
      → resolve_profile e ≡ ok l
      → verify_under e l ≡ ok tt
      → (resolve_profile e ≡ ok envelope_minus) × HasEventHash e
  under_law e envelope_minus p q = (p, (verify_under-ok_iff e).0 q)
  under_law e runtime_port_preimage p q = cc q

  verify_event_hash-ok_iff :
      (e : ReceiptEnvelope)
      → (verify_event_hash e ≡ ok tt)
        ↔ (HasEnvelopeLaw (event_hash_profile e) (receipt_type e) × HasEventHash e)
  unfolding verify_event_hash
  verify_event_hash-ok_iff e =
      let steps = >>=-ok_iff (resolve_profile e) (verify_under e) tt in
      let law = law_of-ok_iff (event_hash_profile e) (receipt_type e) in
      (
        λ h. let (l, p, q) = steps.0 h in (law.0 (under_law e l p q).0, (under_law e l p q).1),
        λ h. steps.1 (envelope_minus, law.1 h.0, (verify_under-ok_iff e).1 h.1),
      )

  check_schema-ok_iff :
      (declared : Option String) → (check_schema declared ≡ ok tt) ↔ IsCanonicalStep declared
  check_schema-ok_iff none = (λ h s q. cc q, λ h. refl)
  check_schema-ok_iff (some schema) =
      let same = eq_iff schema canonical_decode_step_schema in
      elim (Bool-cases (starts_with schema decode_step_schema_prefix)) [
        | inr p ↦ (λ h s q t. cc (p, q, t), λ h. rw p refl)
        | inl p ↦ elim (Bool-cases (str_eq schema canonical_decode_step_schema)) [
          | inl r ↦ (λ h s q t. cc (q, same.0 r), λ h. rw (p, r) refl)
          | inr r ↦ (λ h. ground (arith, p, r, h), λ h. cc (r, same.1 (h schema refl p)))
        ]
      ]

  module _ ⦃m : Metadata⦄ where
    open m use {VerifiedReceiptMetadata}

    -- An external receipt is verified, with the given metadata, exactly when it parses as an envelope
    -- of version 1 whose profile is the constitutional one, or that has no profile and is no event,
    -- whose event hash is the recomputed one, and whose payload, where it names a schema of a decode
    -- step, names the canonical one; and the metadata are those of that envelope.
    pub verify_external_receipt-ok_iff :
        (bytes : List ℕ) (meta : VerifiedReceiptMetadata)
        → (verify_external_receipt bytes ≡ ok meta) ↔ (
            (e : ReceiptEnvelope) × (envelope_from_slice bytes ≡ ok e)
            × IsVerified e
            × (metadata_of e ≡ meta))
    unfolding verify_external_receipt verify_envelope_version verify_decode_step_schema
    verify_external_receipt-ok_iff bytes meta =
        let parsed = map_err-ok_iff parse_error (envelope_from_slice bytes) in
        let version = λ (e : ReceiptEnvelope).
          ↔_trans (test-ok_iff {E = ReceiptVerifyError} (version_eq (envelope_version e) v1) _)
            (version_eq_iff (envelope_version e) v1) in
        let last = λ (e : ReceiptEnvelope). ok_iff {E = ReceiptVerifyError} (metadata_of e) meta in
        let steps = λ (e : ReceiptEnvelope).
          ↔_trans (>>-ok_iff (verify_envelope_version e) _ meta) (
            ×_iff (version e) (
              ↔_trans (>>-ok_iff (verify_event_hash e) _ meta) (
                ×_iff (verify_event_hash-ok_iff e) (
                  ↔_trans (>>-ok_iff (verify_decode_step_schema e) _ meta)
                    (×_iff (check_schema-ok_iff (text_at (payload e) "schema")) (last e)))))) in
        let whole = >>=-ok_iff (map_err parse_error (envelope_from_slice bytes)) _ meta in
        (
          λ h.
              let (e, p, q) = whole.0 h in
              let (v, ((l, c), (s, same))) = (steps e).0 q in
              (e, (parsed e).0 p, record { is_v1 = v; law = l; hash = c; step = s }, same),
          λ h.
              let (e, p, v, same) = h in
              whole.1 (e, (parsed e).1 p, (steps e).1 (v.is_v1, ((v.law, v.hash), (v.step, same)))),
        )
