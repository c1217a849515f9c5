-- ===== src/Rbh/Projection.antt =====
-- src/rbh.rs: which projections are accepted for the receipt that they cite.
use vertrule_verifier.Prelude.{
  ℕ, >>=-eq-ok, ◌≡◌, ◌≢◌, ◌↔◌, refl, true, String, List, [], ◌∷◌, Option, none, some, ok, map_err,
  str_eq, eq_iff, All, test-ok_iff, guard-ok_iff, >>=-ok_iff, >>-ok_iff, map_err-ok_iff, ok_iff,
  ↔_trans, ×_iff,
}
use vertrule_verifier.Json.{Value, get}
use vertrule_verifier.External.{External}
use vertrule_verifier.SchemaProfile.{is_some}
use vertrule_verifier.Rbh.{
  Metadata, ReceiptVerifyError, parse_error, text_or_empty, check_projection,
  assert_projection_bind, require_bindings, projection_source_fields, cited_schema,
  verify_external_receipt, verify_projection_source,
}

is_some_iff : {A : Type 0} (o : Option A) → (is_some o ≡ true) ↔ (o ≢ none)
is_some_iff none = (λ h. cc, λ h. absurd (h refl))
is_some_iff (some a) = (λ h e. cc, λ h. refl)

module _ ⦃x : External⦄ where
  open x use {Number, from_slice}

  -- The projection has a value at the field.
  abbrev pub Binds : Value Number → String → Type 0
  Binds projection field = get projection field ≢ none

  -- The texts are equal, where a value that is missing or no text counts as the empty text.
  abbrev pub Cites : Value Number → String → Option (Value Number) → Type 0
  Cites projection field cited = text_or_empty (get projection field) ≡ text_or_empty cited

  -- The projection agrees with the envelope that it cites.
  pub record IsProjectionOf (projection envelope : Value Number) : Type 0 where
    pub binds : All (Binds projection) projection_source_fields
    pub cites_type : Cites projection "source_receipt_type" (get envelope "receipt_type")
    pub cites_schema : Cites projection "source_schema_version" (cited_schema envelope)
    pub cites_hash : Cites projection "source_event_hash" (get envelope "event_hash")

  require_bindings-ok_iff :
      (projection : Value Number) (fields : List String)
      → (require_bindings projection fields ≡ ok tt) ↔ All (Binds projection) fields
  unfolding require_bindings
  require_bindings-ok_iff projection [] = (λ h. tt, λ h. refl)
  require_bindings-ok_iff projection (field ∷ rest) =
      ↔_trans
        (guard-ok_iff (is_some (get projection field)) (require_bindings projection rest) _ tt)
        (×_iff (is_some_iff (get projection field)) (require_bindings-ok_iff projection rest))

  assert_projection_bind-ok_iff :
      (projection : Value Number) (field : String) (cited : Option (Value Number))
      → (assert_projection_bind projection field cited ≡ ok tt) ↔ Cites projection field cited
  unfolding assert_projection_bind
  assert_projection_bind-ok_iff projection field cited =
      let stated = text_or_empty (get projection field) in
      ↔_trans (test-ok_iff {E = ReceiptVerifyError} (str_eq stated (text_or_empty cited)) _)
        (eq_iff stated (text_or_empty cited))

  check_projection-ok_iff :
      (projection envelope : Value Number)
      → (check_projection projection envelope ≡ ok tt) ↔ IsProjectionOf projection envelope
  unfolding check_projection
  check_projection-ok_iff p e =
      let bound = λ (field : String) (cited : Option (Value Number)).
        assert_projection_bind-ok_iff p field cited in
      let checks = ↔_trans (>>-ok_iff (require_bindings p projection_source_fields) _ tt) (
        ×_iff (require_bindings-ok_iff p projection_source_fields) (
          ↔_trans (>>-ok_iff (assert_projection_bind p "source_receipt_type" _) _ tt) (
            ×_iff (bound "source_receipt_type" (get e "receipt_type")) (
              ↔_trans (>>-ok_iff (assert_projection_bind p "source_schema_version" _) _ tt) (
                ×_iff (bound "source_schema_version" (cited_schema e))
                  (bound "source_event_hash" (get e "event_hash"))))))) in
      (
        λ h.
            let (binds, (kind, (schema, hash))) = checks.0 h in
            record { binds = binds; cites_type = kind; cites_schema = schema; cites_hash = hash },
        λ h. checks.1 (h.binds, (h.cites_type, (h.cites_schema, h.cites_hash))),
      )

  module _ ⦃m : Metadata⦄ where
    open m use {VerifiedReceiptMetadata}

    -- A projection is accepted, with the given metadata, exactly when the cited bytes are an external
    -- receipt that is verified with these metadata, both inputs are JSON, the projection has a value
    -- at each of the five fields, and its type, schema and event hash are, as texts, those of the
    -- cited envelope.
    pub verify_projection_source-ok_iff :
        (projection_bytes envelope_bytes : List ℕ) (meta : VerifiedReceiptMetadata)
        → (verify_projection_source projection_bytes envelope_bytes ≡ ok meta) ↔ (
            (verify_external_receipt envelope_bytes ≡ ok meta)
            × (envelope : Value Number) × (projection : Value Number) × (from_slice envelope_bytes
                ≡ ok envelope)
            × (from_slice projection_bytes ≡ ok projection)
            × IsProjectionOf projection envelope)
    unfolding verify_projection_source
    verify_projection_source-ok_iff projection_bytes envelope_bytes meta =
        let parsed = λ (bytes : List ℕ). map_err-ok_iff parse_error (from_slice bytes) in
        let receipt = verify_external_receipt envelope_bytes in
        let first = >>=-ok_iff receipt _ meta in
        let fourth = λ (found : VerifiedReceiptMetadata) (e p : Value Number).
          ↔_trans (>>-ok_iff (check_projection p e) (ok found) meta)
            (×_iff (check_projection-ok_iff p e) (ok_iff {E = ReceiptVerifyError} found meta)) in
        (
          λ h.
              let (found, r, h1) = first.0 h in
              let (e, q, h2) = >>=-eq-ok (map_err parse_error (from_slice envelope_bytes)) _ h1 in
              let (p, q', h3) =
                >>=-eq-ok (map_err parse_error (from_slice projection_bytes)) _ h2 in
              let (projects, same) = (fourth found e p).0 h3 in
              (
                cc (r, same),
                e,
                p,
                (parsed envelope_bytes e).0 q,
                (parsed projection_bytes p).0 q',
                projects,
              ),
          λ h.
              let (r, e, p, q, q', projects) = h in
              rw (r, q, q') ((fourth meta e p).1 (projects, refl)),
        )
