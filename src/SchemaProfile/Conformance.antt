-- ===== src/SchemaProfile/Conformance.antt =====
-- src/schema_profile.rs: what the profile accepts, told without its loops.
use vertrule_verifier.Prelude.{
  String, ◌≡◌, ◌≢◌, ◌↔◌, subst, ◌⊎◌, refl, Bool, true, Option, none, some, List, [], ◌∷◌, ok, All,
  eq_iff, str_eq, >>-ok_iff, guard-ok_iff, ↔_trans, ×_iff, ⊎_iff, ||-true_iff,
}
use vertrule_verifier.Json.{Value, Fields, string, object, keys, get_field, as_str, ◌>>=◌}
use vertrule_verifier.External.{External}
use vertrule_verifier.Error.{VerifyError, unknown_receipt_type, unknown_boundary_origin}
use vertrule_verifier.SchemaProfile.{
  contains, is_known_field, is_known_receipt_type, is_known_boundary_origin, reject_unknown,
  require_fields, check_known, validate_object, validate_envelope_schema, is_some,
  required_envelope_fields, optional_envelope_fields, known_receipt_types, known_boundary_origins,
}

-- The value is among those listed.
unfoldable pub OneOf : List String → String → Type 0
OneOf [] value = ⊥
OneOf (x ∷ xs) value = (x ≡ value) ⊎ OneOf xs value

pub contains_iff : (xs : List String) (value : String) → (contains xs value ≡ true) ↔ OneOf xs value
unfolding contains OneOf
contains_iff [] value = (λ h. cc, λ h. absurd h)
contains_iff (x ∷ xs) value =
    ↔_trans (||-true_iff (str_eq x value) (contains xs value))
      (⊎_iff (eq_iff x value) (contains_iff xs value))

-- A required or an optional field of the envelope.
unfoldable pub IsKnownField : String → Type 0
IsKnownField k = OneOf required_envelope_fields k ⊎ OneOf optional_envelope_fields k

is_known_field_iff : (k : String) → (is_known_field k ≡ true) ↔ IsKnownField k
unfolding is_known_field IsKnownField
is_known_field_iff k =
    ↔_trans (||-true_iff _ _)
      (⊎_iff (contains_iff required_envelope_fields k) (contains_iff optional_envelope_fields k))

known_receipt_type_iff :
    (t : String) → (is_known_receipt_type t ≡ true) ↔ OneOf known_receipt_types t
unfolding is_known_receipt_type
known_receipt_type_iff t = contains_iff known_receipt_types t

known_boundary_origin_iff :
    (t : String) → (is_known_boundary_origin t ≡ true) ↔ OneOf known_boundary_origins t
unfolding is_known_boundary_origin
known_boundary_origin_iff t = contains_iff known_boundary_origins t

module _ ⦃x : External⦄ where
  open x use {Number}

  -- An object of the v1 profile: no unknown field, every required field, and a receipt type and a
  -- boundary origin that are known where they are texts.
  pub record IsProfile (obj : Fields Number) : Type 0 where
    pub known : All IsKnownField (keys obj)
    pub complete : All (λ name. get_field obj name ≢ none) required_envelope_fields
    pub receipt_type_known :
        (t : String) → get_field obj "receipt_type" ≡ some (string t) → OneOf known_receipt_types t
    pub boundary_origin_known :
        (t : String)
        → get_field obj "boundary_origin" ≡ some (string t)
        → OneOf known_boundary_origins t

  reject_unknown-ok_iff :
      (names : List String) → (reject_unknown names ≡ ok tt) ↔ All IsKnownField names
  unfolding reject_unknown
  reject_unknown-ok_iff [] = (λ h. tt, λ h. refl)
  reject_unknown-ok_iff (k ∷ names) =
      ↔_trans (guard-ok_iff (is_known_field k) _ _ tt)
        (×_iff (is_known_field_iff k) (reject_unknown-ok_iff names))

  is_some_iff : {A : Type 0} (o : Option A) → (is_some o ≡ true) ↔ (o ≢ none)
  is_some_iff none = (λ h. cc, λ h. absurd (h refl))
  is_some_iff (some a) = (λ h e. cc, λ h. refl)

  require_fields-ok_iff :
      (obj : Fields Number) (names : List String)
      → (require_fields obj names ≡ ok tt) ↔ All (λ name. get_field obj name ≢ none) names
  unfolding require_fields
  require_fields-ok_iff obj [] = (λ h. tt, λ h. refl)
  require_fields-ok_iff obj (name ∷ names) =
      ↔_trans (guard-ok_iff (is_some (get_field obj name)) _ _ tt)
        (×_iff (is_some_iff (get_field obj name)) (require_fields-ok_iff obj names))

  -- A discriminator is checked only where the field holds a text.
  check_known-ok_iff :
      (o : Option (Value Number)) (is_known : String → Bool) (unknown : String → VerifyError)
      → (check_known (o >>= as_str) is_known unknown ≡ ok tt)
        ↔ ((t : String) → o ≡ some (string t) → is_known t ≡ true)
  check_known-ok_iff none is_known unknown = (λ h t e. cc, λ h. refl)
  check_known-ok_iff (some (string s)) is_known unknown =
      let guarded = guard-ok_iff (is_known s) (ok tt) (unknown s) tt in
      (λ h t e. cc (e, (guarded.0 h).0), λ h. guarded.1 (h s refl, refl))
  check_known-ok_iff (some v) is_known unknown = (λ h t e. cc, λ h. refl)

  validate_object-ok_iff : (obj : Fields Number) → (validate_object obj ≡ ok tt) ↔ IsProfile obj
  unfolding validate_object
  validate_object-ok_iff obj =
      let unknown = reject_unknown-ok_iff (keys obj) in
      let missing = require_fields-ok_iff obj required_envelope_fields in
      let types =
        check_known-ok_iff (get_field obj "receipt_type") is_known_receipt_type
          unknown_receipt_type in
      let origins =
        check_known-ok_iff (get_field obj "boundary_origin") is_known_boundary_origin
          unknown_boundary_origin in
      (
        λ h.
            let (p, q) = (>>-ok_iff (reject_unknown (keys obj)) _ tt).0 h in
            let (r, t) = (>>-ok_iff (require_fields obj required_envelope_fields) _ tt).0 q in
            let (u, v) = (>>-ok_iff _ _ tt).0 t in
            record {
              known = unknown.0 p;
              complete = missing.0 r;
              receipt_type_known = λ s e. (known_receipt_type_iff s).0 (types.0 u s e);
              boundary_origin_known = λ s e. (known_boundary_origin_iff s).0 (origins.0 v s e);
            },
        λ h. (>>-ok_iff (reject_unknown (keys obj)) _ tt).1 (
          unknown.1 h.known,
          (>>-ok_iff (require_fields obj required_envelope_fields) _ tt).1 (
            missing.1 h.complete,
            (>>-ok_iff _ _ tt).1 (
              types.1 (λ s e. (known_receipt_type_iff s).1 (h.receipt_type_known s e)),
              origins.1 (λ s e. (known_boundary_origin_iff s).1 (h.boundary_origin_known s e)),
            ),
          ),
        ),
      )

  -- A JSON value conforms if it is an object of the profile.
  abbrev pub Conforms : Value Number → Type 0
  Conforms v = (obj : Fields Number) × (v ≡ object obj) × IsProfile obj

  -- The schema check accepts a value exactly when it is an object with no unknown key and every
  -- required key, whose receipt type and boundary origin, where they are texts, are known ones: a value of another type there is not looked at.
  pub validate_envelope_schema-ok_iff :
      (v : Value Number) → (validate_envelope_schema v ≡ ok tt) ↔ Conforms v
  unfolding validate_envelope_schema
  validate_envelope_schema-ok_iff (object obj) =
      let inner = validate_object-ok_iff obj in
      (λ h. (obj, refl, inner.0 h), λ h. inner.1 (subst IsProfile (cc h.1) h.2))
  validate_envelope_schema-ok_iff v = (λ h. cc, λ h. cc h.1)
