-- ===== src/Bundle/Sidecars.antt =====
-- src/bundle.rs: when a sidecar has the digest that the payload of the envelope declares for it.

use vertrule_verifier.Prelude.{
  ◌≡◌, ◌↔◌, ◌⊎◌, ↔_trans, Result-cases, Option-cases, refl, sym, subst, true, String, Option, none,
  some, ok, err, ok-injective, eq_iff, All, inl, inr,
}
use vertrule_verifier.Json.{Value, null, string, get, as_str}
use vertrule_verifier.Support.Reads.{PayloadText, text_at_iff}
use vertrule_verifier.Identity.{digest_trusted_value, recompute_from_value}
use vertrule_verifier.External.{External}
use vertrule_verifier.Bundle.{
  SidecarDigestCheck, index, value_or_null, extract_payload_digests, digest_canonical_value,
  digest_or_empty, sidecar_check,
}

abbrev pub IsMatch : SidecarDigestCheck → Type 0
IsMatch c = c.matches ≡ true

module _ ⦃x : External⦄ where
  open x use {
    Number, JcsError, CanonicalDigest, DigestStrategy, from_str, to_canon_digest_with,
    blake3_untagged, hex_encode, digest_bytes,
  }

  -- The payload of a JSON text declares a digest under a key.
  abbrev pub Declares : String → String → String → Type 0
  Declares text key expected =
      (value : Value Number) × (from_str text ≡ ok value) × PayloadText value key expected

  -- The hexadecimal digits of the untagged BLAKE3 digest of a value's canonical form; a value that
  -- has no digest counts as one with the empty text.
  abbrev pub HasDigest : Value Number → String → Type 0
  HasDigest value expected =
      ((digest : CanonicalDigest) × (to_canon_digest_with value blake3_untagged ≡ ok digest)
        × (hex_encode (digest_bytes digest) ≡ expected))
      ⊎ ((e : JcsError) × (to_canon_digest_with value blake3_untagged ≡ err e) × (expected ≡ ""))

  index-some :
      (value v : Value Number) (key : String) → get value key ≡ some v → index value key ≡ v
  index-some value v key q = rw (index, q)

  index-none : (value : Value Number) (key : String) → get value key ≡ none → index value key ≡ null
  index-none value key q = rw (index, q)

  -- `value[key].as_str()`
  index_text_iff :
      (value : Value Number) (key s : String)
      → (as_str (index value key) ≡ some s) ↔ (get value key ≡ some (string s))
  index_text_iff value key s =
      let text = text_at_iff (get value key) s in
      elim (Option-cases (get value key)) [
        | inl q ↦ rw (index-none value key q) (λ h. cc h, λ h. cc (q, h))
        | inr (v, q) ↦ rw (index-some value v key q) (λ h. text.0 (cc (q, h)), λ h. cc (q, h))
      ]

  index_payload_iff :
      (value : Value Number) (key expected : String)
      → (as_str (index (index value "payload") key) ≡ some expected)
        ↔ PayloadText value key expected
  index_payload_iff value key expected = elim (Option-cases (get value "payload")) [
    | inl q ↦
        rw (index-none value "payload" q)
          (λ h. let r = (index_text_iff null key expected).0 h in cc r, λ h. cc (q, h.1))
    | inr (payload, q) ↦
        let text = index_text_iff payload key expected in
        rw (index-some value payload "payload" q)
          (λ h. (payload, q, text.0 h), λ (other, same, h). text.1 (cc (q, same, h)))
  ]

  -- A sidecar that is there has the digest that is declared under the key, where one is.
  abbrev pub IsBound : String → String → Option (Value Number) → Type 0
  IsBound text key sidecar =
      (expected : String) (value : Value Number)
      → Declares text key expected
      → sidecar ≡ some value
      → HasDigest value expected

  declared_at_iff :
      (text key expected : String)
      → (as_str (index (index (value_or_null (from_str text)) "payload") key) ≡ some expected)
        ↔ Declares text key expected
  declared_at_iff text key expected = elim (Result-cases (from_str text)) [
    | inl (value, parsed) ↦
        let stated = index_payload_iff value key expected in
        rw parsed (
          λ q. (value, refl, stated.0 q),
          λ (v, same, q).
              stated.1 (subst (λ w. PayloadText w key expected) (sym (ok-injective same)) q),
        )
    | inr (e, failed) ↦ rw failed (λ q. cc q, λ q. cc q.1)
  ]

  digest_computed_iff :
      (value : Value Number) (expected : String)
      → (digest_or_empty (digest_canonical_value value) ≡ expected) ↔ HasDigest value expected
  unfolding digest_canonical_value recompute_from_value digest_trusted_value
  digest_computed_iff value expected =
      elim (Result-cases (to_canon_digest_with value blake3_untagged)) [
        | inl (digest, made) ↦ rw made (
          λ q. inl (digest, refl, q),
          elim [ inl (d, same, q) ↦ cc (same, q) | inr (e, same, q) ↦ cc same ],
        )
        | inr (e, failed) ↦ rw failed (
          λ q. inr (e, refl, sym q),
          elim [ inl (d, same, q) ↦ cc same | inr (f, same, q) ↦ sym q ],
        )
      ]

  -- What the code tests: the text that it read, and the digest that it computed.
  abbrev Matches : Option String → Option (Value Number) → Type 0
  Matches declared sidecar =
      (expected : String) (value : Value Number)
      → declared ≡ some expected
      → sidecar ≡ some value
      → digest_or_empty (digest_canonical_value value) ≡ expected

  sidecar_check_iff :
      (name : String) (declared : Option String) (sidecar : Option (Value Number))
      → All IsMatch (sidecar_check name declared sidecar) ↔ Matches declared sidecar
  sidecar_check_iff name none sidecar = (λ h e v p q. cc p, λ h. tt)
  sidecar_check_iff name (some expected) none = (λ h e v p q. cc q, λ h. tt)
  sidecar_check_iff name (some expected) (some value) =
      let same = eq_iff (digest_or_empty (digest_canonical_value value)) expected in
      (
        λ h e v p q. let r = same.0 h.0 in cc (p, q, r),
        λ h. (same.1 (h expected value refl refl), tt),
      )

  Matches-IsBound_iff :
      (text key : String) (declared : Option String) (sidecar : Option (Value Number))
      → ((expected : String) → (declared ≡ some expected) ↔ Declares text key expected)
      → Matches declared sidecar ↔ IsBound text key sidecar
  Matches-IsBound_iff text key declared sidecar stated = (
    λ h e v d q. (digest_computed_iff v e).0 (h e v ((stated e).1 d) q),
    λ h e v d q. (digest_computed_iff v e).1 (h e v ((stated e).0 d) q),
  )

  -- The check of a sidecar against the digest under its key.
  pub trace_checked_iff :
      (text : String) (sidecar : Option (Value Number))
      → All IsMatch
          (sidecar_check "layer_trace" (extract_payload_digests text).layer_trace_digest sidecar)
        ↔ IsBound text "layer_trace_digest" sidecar
  unfolding extract_payload_digests
  trace_checked_iff text sidecar = ↔_trans (sidecar_check_iff "layer_trace" _ sidecar) (
      Matches-IsBound_iff text "layer_trace_digest" _ sidecar
        (declared_at_iff text "layer_trace_digest"))

  pub policy_checked_iff :
      (text : String) (sidecar : Option (Value Number))
      → All IsMatch (
          sidecar_check "selection_policy"
            (extract_payload_digests text).selection_policy_digest
            sidecar)
        ↔ IsBound text "selection_policy_digest" sidecar
  unfolding extract_payload_digests
  policy_checked_iff text sidecar = ↔_trans (sidecar_check_iff "selection_policy" _ sidecar) (
      Matches-IsBound_iff text "selection_policy_digest" _ sidecar
        (declared_at_iff text "selection_policy_digest"))
