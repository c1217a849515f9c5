-- ===== src/Wasm/Canonical.antt =====
-- src/wasm.rs: what every binding returns, a canonical form or an error in place of it.
use Prim.Native.String.{◌++◌}
use vertrule_verifier.Prelude.{
  ℕ, ◌≡◌, ◌⊎◌, refl, sym, ap, ◌∙◌, String, Option, none, some, List, Result, ok, err, ◌>>=◌,
  map_err, Result-cases, Option-cases, inl, inr,
}
use vertrule_verifier.Prelude.Text.{as_bytes}
use vertrule_verifier.Json.{Value, string, array, object, cons, nil, field, end}
use vertrule_verifier.External.{External}
use vertrule_verifier.Error.{VerifyError, canon, to_string}
use vertrule_verifier.Canon.{typed_canon_string, typed_canon_bytes}
use vertrule_verifier.Verify.{verify_receipt, verify_receipt_chain, verify_signed_receipt}
use vertrule_verifier.Support.{Packs}
use vertrule_verifier.DecisionPack.{verify_decision_pack}
use vertrule_verifier.ClosureBundle.{verify_closure_bundle}
use vertrule_verifier.Bundle.{verify_bundle}
use vertrule_verifier.Formats.{Formats, canonical_string, canonical_bytes}
use vertrule_verifier.Wasm.{
  serialized_or_static, canonical_or_static, error_json, text_or_error, bytes_or_error,
  verify_receipt_json, verify_chain_json, verify_signed_receipt_json, verify_bundle_json,
  verify_decision_pack_json, verify_closure_bundle_json,
}

module _ ⦃x : External⦄ where
  open x use {
    Number, JcsError, jcs_display, json_to_string, to_canon_string_from_str,
    to_canon_bytes_from_slice, to_vec,
  }

  -- The form that a result is written in: its value, as JSON, canonicalized.
  module _ {J R : Type 0} (write : Value Number → Result String J)
      (canonicalize : J → Result JcsError R) where
    abbrev pub IsFormOf : Result String (Value Number) → R → Type 0
    IsFormOf written out =
        (value : Value Number) × (json : J) × (written ≡ ok value)
        × (write value ≡ ok json)
        × (canonicalize json ≡ ok out)

    -- The first of the three steps that fails, and the text of its error.
    abbrev pub FailsWith : Result String (Value Number) → String → Type 0
    FailsWith written text =
        (written ≡ err text)
        ⊎ ((value : Value Number) × (written ≡ ok value)
            × ((write value ≡ err text)
                ⊎ ((json : J) × (e : JcsError) × (write value ≡ ok json)
                    × (canonicalize json ≡ err e)
                    × (text ≡ jcs_display e))))

    abbrev form : Result String (Value Number) → Result VerifyError R
    form written = do
      value ← map_err canon written
      json ← map_err canon (write value)
      map_err (λ e. canon (jcs_display e)) (canonicalize json)

    form-cases :
        (written : Result String (Value Number))
        → ((out : R) × (form written ≡ ok out) × IsFormOf written out)
          ⊎ ((text : String) × (form written ≡ err (canon text)) × FailsWith written text)
    form-cases (err t) = inr (t, refl, inl refl)
    form-cases (ok value) = elim (Result-cases (write value)) [
      | inr (t, q) ↦ inr (t, rw q refl, inr (value, refl, inl q))
      | inl (json, q) ↦ elim (Result-cases (canonicalize json)) [
        | inr (e, r) ↦
            inr (jcs_display e, rw (q, r) refl, inr (value, refl, inr (json, e, q, r, refl)))
        | inl (out, r) ↦ inl (out, rw (q, r) refl, (value, json, refl, q, r))
      ]
    ]

  -- `{"errors":[message],"status":"INVALID"}`
  abbrev pub error_value : String → Value Number
  error_value message =
      object
        (field "errors" (array (cons (string message) nil)) (field "status" (string "INVALID") end))

  -- An error that is reported: the canonical form of its value, or the fixed text if it has none.
  abbrev pub IsErrorText : String → String → Type 0
  IsErrorText message out =
      IsFormOf json_to_string to_canon_string_from_str (ok (error_value message)) out
      ⊎ (((s : String)
            → ¬ IsFormOf json_to_string to_canon_string_from_str (ok (error_value message)) s)
          × (out ≡ "{\"errors\":[\"internal verifier error\"],\"status\":\"INVALID\"}"))

  -- The canonical form where there is one, and else the error that says which step failed.
  abbrev pub IsOutputOf : Result String (Value Number) → String → Type 0
  IsOutputOf written out =
      IsFormOf json_to_string to_canon_string_from_str written out
      ⊎ ((text : String) × FailsWith json_to_string to_canon_string_from_str written text
          × IsErrorText ("canonicalization error: " ++ to_string (canon text)) out)

  -- The object that the code writes as an error, and the text that it ends in.
  error_json-IsErrorText : (message : String) → IsErrorText message (error_json message)
  unfolding error_json
  error_json-IsErrorText message =
      let value = error_value message in
      elim (Result-cases (json_to_string value)) [
        | inr (t, q) ↦
            inr (λ s (v, json, same, wrote, made). cc (q, same, wrote), ap serialized_or_static q)
        | inl (json, q) ↦
            let made = ap serialized_or_static q in
            elim (Result-cases (to_canon_string_from_str json)) [
              | inr (e, r) ↦ inr (
                λ s (v, other, same, wrote, done).
                    let one : other ≡ json = cc (q, same, wrote) in cc (r, one, done),
                made ∙ ap canonical_or_static r,
              )
              | inl (out, r) ↦
                  inl (value, json, refl, q, r ∙ ap ok (sym (made ∙ ap canonical_or_static r)))
            ]
      ]

  text_or_error-IsOutputOf :
      (written : Result String (Value Number))
      → IsOutputOf written (text_or_error (canonical_string written))
  unfolding typed_canon_string
  text_or_error-IsOutputOf written =
      elim (form-cases json_to_string to_canon_string_from_str written) [
        | inl (out, made, f) ↦ rw made (inl f)
        | inr (t, made, f) ↦ rw made (inr (t, f, error_json-IsErrorText _))
      ]

  module _ (from_utf8 : List ℕ → Option String) where
    -- The same for the canonical bytes, which become a text if they are one.
    abbrev pub IsBytesOutputOf : Result String (Value Number) → String → Type 0
    IsBytesOutputOf written out =
        ((bytes : List ℕ) × IsFormOf to_vec to_canon_bytes_from_slice written bytes
          × ((from_utf8 bytes ≡ some out)
              ⊎ ((from_utf8 bytes ≡ none)
                  × IsErrorText "closure bundle result was not valid UTF-8" out)))
        ⊎ ((text : String) × FailsWith to_vec to_canon_bytes_from_slice written text
            × IsErrorText ("canonicalization error: " ++ to_string (canon text)) out)

    bytes_or_error-IsBytesOutputOf :
        (written : Result String (Value Number))
        → IsBytesOutputOf written (bytes_or_error from_utf8 (canonical_bytes written))
    unfolding typed_canon_bytes
    bytes_or_error-IsBytesOutputOf written =
        elim (form-cases to_vec to_canon_bytes_from_slice written) [
          | inr (t, made, f) ↦ rw made (inr (t, f, error_json-IsErrorText _))
          | inl (bytes, made, f) ↦ rw made (elim (Option-cases (from_utf8 bytes)) [
            | inl q ↦ rw q (inl (bytes, f, inr (q, error_json-IsErrorText _)))
            | inr (s, q) ↦ rw q (inl (bytes, f, inl q))
          ])
        ]

    module _ ⦃f : Formats⦄ ⦃p : Packs⦄ where
      open f use {
        signature_from_slice, bundle_from_slice, decision_from_slice, closure_from_slice,
        result_to_value, bundle_to_value, decision_to_value, closure_to_value,
      }

      -- Each binding returns the canonical form of the result of its verifier where there is one. Else
      -- one of the steps to it fails, and the binding returns the error with the text of that failure
      -- (or, for a closure bundle, that the bytes are no text): the canonical form of an object with
      -- the status `INVALID` and that message alone, or the fixed text if that has no canonical form.
      pub json_outputs :
          (s t : String)
          → IsOutputOf (result_to_value (verify_receipt (as_bytes s))) (verify_receipt_json s)
            × IsOutputOf (result_to_value (verify_receipt_chain (as_bytes s))) (verify_chain_json s)
            × IsOutputOf
                (result_to_value
                  (verify_signed_receipt signature_from_slice (as_bytes s) (as_bytes t)))
                (verify_signed_receipt_json s t)
            × IsOutputOf
                (bundle_to_value (verify_bundle (bundle_from_slice (as_bytes s))))
                (verify_bundle_json s)
            × IsOutputOf
                (decision_to_value (verify_decision_pack (decision_from_slice (as_bytes s))))
                (verify_decision_pack_json s)
            × IsBytesOutputOf
                (closure_to_value (verify_closure_bundle (closure_from_slice (as_bytes s))))
                (verify_closure_bundle_json from_utf8 s)
      unfolding verify_receipt_json verify_chain_json verify_signed_receipt_json verify_bundle_json
          verify_decision_pack_json verify_closure_bundle_json
      json_outputs s t = (
        text_or_error-IsOutputOf _,
        text_or_error-IsOutputOf _,
        text_or_error-IsOutputOf _,
        text_or_error-IsOutputOf _,
        text_or_error-IsOutputOf _,
        bytes_or_error-IsBytesOutputOf _,
      )
