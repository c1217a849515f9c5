-- ===== src/Ingestion/Admission.antt =====
-- src/ingestion.rs: what ingestion admits, gate by gate.
use vertrule_verifier.Prelude.{
  ℕ, map_err, ◌>>◌, ◌≤◌, ◌≡◌, ◌↔◌, refl, subst, true, false, not, String, Option, none, some, List,
  [], ◌∷◌, ok, Result, All, arith, length, >>-ok_iff, >>=-ok_iff, map_err-ok_iff, guard-ok_iff,
  ↔_trans, ok-injective, ×_iff,
}
use vertrule_verifier.Json.{Value, Fields, number, object, get_field}
use vertrule_verifier.External.{External}
use vertrule_verifier.Error.{VerifyError, limit_exceeded, malformed_json}
use vertrule_verifier.Limits.{VerifierLimits, check_byte_limit, check_structure}
use vertrule_verifier.Limits.Structure.{IsWithin, check_structure-ok_iff}
use vertrule_verifier.Canon.{admit_canonical_bytes, admit_canonical_bytes-ok_iff}
use vertrule_verifier.SchemaProfile.{validate_envelope_schema}
use vertrule_verifier.SchemaProfile.Conformance.{Conforms, validate_envelope_schema-ok_iff}
use vertrule_verifier.Ingestion.{
  is_float_field, float_at, reject_floats, reject_structural_floats, structural_integer_fields,
  admit_value, ingest_envelope_with_limits,
}

byte_limit-ok_iff :
    (raw : List ℕ) (l : VerifierLimits)
    → (check_byte_limit raw l ≡ ok tt) ↔ (length raw ≤ l.max_bytes)
unfolding check_byte_limit
byte_limit-ok_iff raw l = ground arith

module _ ⦃x : External⦄ where
  open x use {
    Number, is_f64, is_u64, is_i64, ReceiptEnvelope, from_slice, to_canon_bytes_from_slice,
    envelope_from_value,
  }

  -- A number that is a float only.
  abbrev IsFloat : Number → Type 0
  IsFloat n = (is_f64 n ≡ true) × (is_u64 n ≡ false) × (is_i64 n ≡ false)

  -- No structural integer field of an object holds a float.
  unfoldable pub HasIntegers : Value Number → Type 0
  HasIntegers (object obj) =
      All (λ name. (n : Number) → get_field obj name ≡ some (number n) → ¬ IsFloat n)
        structural_integer_fields
  HasIntegers v = Unit

  -- The conditions on the raw bytes and on the value that they hold.
  abbrev pub AdmitsValue : List ℕ → VerifierLimits → Value Number → Type 0
  AdmitsValue raw l v =
      (length raw ≤ l.max_bytes)
      × (to_canon_bytes_from_slice raw ≡ ok raw)
      × (from_slice raw ≡ ok v)
      × IsWithin l v

  -- The conditions on a value that becomes an envelope.
  abbrev pub IsEnvelopeValue : Value Number → ReceiptEnvelope → Type 0
  IsEnvelopeValue v e = Conforms v × HasIntegers v × (envelope_from_value v ≡ ok e)

  is_float_field-cases :
      (o : Option (Value Number))
      → (not (is_float_field o) ≡ true) ↔ ((n : Number) → o ≡ some (number n) → ¬ IsFloat n)
  is_float_field-cases none = (λ h n e. cc, λ h. refl)
  is_float_field-cases (some (number m)) = (λ h n e f. ground arith, λ h. ground (arith, h m refl))
  is_float_field-cases (some v) = (λ h n e. cc, λ h. refl)

  float_at_iff :
      (obj : Fields Number) (name : String)
      → (not (float_at obj name) ≡ true)
        ↔ ((n : Number) → get_field obj name ≡ some (number n) → ¬ IsFloat n)
  float_at_iff obj name = is_float_field-cases (get_field obj name)

  reject_floats-ok_iff :
      (obj : Fields Number) (names : List String)
      → (reject_floats obj names ≡ ok tt)
        ↔ All (λ name. (n : Number) → get_field obj name ≡ some (number n) → ¬ IsFloat n) names
  unfolding reject_floats
  reject_floats-ok_iff obj [] = (λ h. tt, λ h. refl)
  reject_floats-ok_iff obj (name ∷ names) =
      ↔_trans (guard-ok_iff (not (float_at obj name)) _ _ tt)
        (×_iff (float_at_iff obj name) (reject_floats-ok_iff obj names))

  reject_structural_floats-ok_iff :
      (v : Value Number) → (reject_structural_floats v ≡ ok tt) ↔ HasIntegers v
  unfolding reject_structural_floats HasIntegers
  reject_structural_floats-ok_iff (object obj) = reject_floats-ok_iff obj structural_integer_fields
  reject_structural_floats-ok_iff v = (λ h. tt, λ h. refl)

  pub admit_value-ok_iff :
      (raw : List ℕ) (l : VerifierLimits) (v : Value Number)
      → (admit_value raw l ≡ ok v) ↔ AdmitsValue raw l v
  unfolding admit_value
  admit_value-ok_iff raw l v =
      let bytes =
        ↔_trans (map_err-ok_iff limit_exceeded (check_byte_limit raw l) tt)
          (byte_limit-ok_iff raw l) in
      let canonical = admit_canonical_bytes-ok_iff raw in
      let parsed = λ (w : Value Number). map_err-ok_iff malformed_json (from_slice raw) w in
      let within = λ (w : Value Number).
        ↔_trans (map_err-ok_iff limit_exceeded (check_structure w l) tt)
          (check_structure-ok_iff w l) in
      (
        λ h.
            let (p, q) = (>>-ok_iff (map_err limit_exceeded (check_byte_limit raw l)) _ v).0 h in
            let (r, t) = (>>-ok_iff (admit_canonical_bytes raw) _ v).0 q in
            let (w, parse, rest) = (>>=-ok_iff (map_err malformed_json (from_slice raw)) _ v).0 t in
            let (limits, same) =
              (>>-ok_iff (map_err limit_exceeded (check_structure w l)) _ v).0 rest in
            let e : w ≡ v = ok-injective same in
            (
              bytes.0 p,
              canonical.0 r,
              subst (λ u. from_slice raw ≡ ok u) e ((parsed w).0 parse),
              subst (IsWithin l) e ((within w).0 limits),
            ),
        λ h. (>>-ok_iff (map_err limit_exceeded (check_byte_limit raw l)) _ v).1 (
          bytes.1 h.0,
          (>>-ok_iff (admit_canonical_bytes raw) _ v).1 (
            canonical.1 h.1,
            (>>=-ok_iff (map_err malformed_json (from_slice raw)) _ v).1 (
              v,
              (parsed v).1 h.2,
              (>>-ok_iff (map_err limit_exceeded (check_structure v l)) _ v).1
                  ((within v).1 h.3, refl),
            ),
          ),
        ),
      )

  -- The steps from a value to an envelope, whatever the text of a failed conversion.
  abbrev pub convert : (String → VerifyError) → Value Number → Result VerifyError ReceiptEnvelope
  convert f v =
      validate_envelope_schema v
      >> (reject_structural_floats v >> map_err f (envelope_from_value v))

  module _ (f : String → VerifyError) (v : Value Number) (e : ReceiptEnvelope) where
    pub convert-ok_iff : (convert f v ≡ ok e) ↔ IsEnvelopeValue v e
    convert-ok_iff =
        let schema = validate_envelope_schema-ok_iff v in
        let integers = reject_structural_floats-ok_iff v in
        let typed = map_err-ok_iff f (envelope_from_value v) e in
        let outer = >>-ok_iff (validate_envelope_schema v) _ e in
        let inner = >>-ok_iff (reject_structural_floats v) _ e in
        (
          λ h.
              let (p, q) = outer.0 h in
              let (r, t) = inner.0 q in (schema.0 p, integers.0 r, typed.0 t),
          λ h. outer.1 (schema.1 h.0, inner.1 (integers.1 h.1, typed.1 h.2)),
        )

  -- What the raw bytes of an envelope are.
  abbrev pub IsAdmitted : List ℕ → VerifierLimits → ReceiptEnvelope → Type 0
  IsAdmitted raw l e = (v : Value Number) × AdmitsValue raw l v × IsEnvelopeValue v e

  -- Ingestion returns an envelope exactly when the bytes are at most `max_bytes`, are their own
  -- canonical form, and parse to a value within the structural limits that conforms to the profile,
  -- holds no float in an integer field, and converts to that envelope.
  pub ingest_envelope-ok_iff :
      (raw : List ℕ) (l : VerifierLimits) (e : ReceiptEnvelope)
      → (ingest_envelope_with_limits raw l ≡ ok e) ↔ IsAdmitted raw l e
  unfolding ingest_envelope_with_limits
  ingest_envelope-ok_iff raw l e =
      let steps = >>=-ok_iff (admit_value raw l) (convert malformed_json) e in
      (
        λ h.
            let (v, p, q) = steps.0 h in
            (v, (admit_value-ok_iff raw l v).0 p, (convert-ok_iff malformed_json v e).0 q),
        λ h. steps.1 (
          h.0,
          (admit_value-ok_iff raw l h.0).1 h.1,
          (convert-ok_iff malformed_json h.0 e).1 h.2,
        ),
      )
