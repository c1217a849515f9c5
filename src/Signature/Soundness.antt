-- ===== src/Signature/Soundness.antt =====
-- src/signature.rs: what a verified signature establishes.
use vertrule_verifier.Prelude.{
  ℕ, ◌≡◌, ◌↔◌, refl, sym, subst, Bool, true, String, List, Result, ok, err, map_err, length, str_eq,
  eq_iff, ◌==◌, ==_iff, guard-ok_iff, >>=-ok_iff, >>-ok_iff, map_err-ok_iff, ↔_trans, if◌then◌else◌,
  is_ok, ok-injective,
}
use vertrule_verifier.External.{External}
use vertrule_verifier.Error.{VerifyError}
use vertrule_verifier.Signature.{
  SignatureBundle, KeyId, expected_alg, expected_schema_version, expected_basis, expect,
  validate_metadata, decode_b64_fixed, decode_public_key, decode_signature, key_fingerprint,
  validate_key_id_matches, consistent, check_key_id_consistency, compute_receipt_digest,
  construct_canonical_message, verify_signature,
}

module _ ⦃x : External⦄ where
  open x use {Digest, ReceiptEnvelope, decode_b64, VerifyingKey, key_from_bytes, ed25519_verify}

  -- The metadata fields hold the three expected texts.
  abbrev pub HasMetadata : SignatureBundle → Type 0
  HasMetadata b =
      (b.alg ≡ expected_alg)
      × (b.schema_version ≡ expected_schema_version)
      × (b.basis ≡ expected_basis)

  -- The bundle's public key, decoded.
  abbrev pub HasKey : SignatureBundle → VerifyingKey → Type 0
  HasKey b key =
      (bytes : List ℕ) × (decode_b64 b.public_key_b64 ≡ ok bytes)
      × (length bytes ≡ 32)
      × (key_from_bytes bytes ≡ ok key)

  -- The bundle's signature, decoded.
  abbrev pub HasSignature : SignatureBundle → List ℕ → Type 0
  HasSignature b signature = (decode_b64 b.signature_b64 ≡ ok signature) × (length signature ≡ 64)

  -- The bundle signs the envelope: the key of the bundle, which its key identifier names, verifies
  -- the bundle's signature over the message that binds the receipt digest and the timestamp.
  abbrev pub Signs : SignatureBundle → ReceiptEnvelope → Type 0
  Signs b e =
      (key : VerifyingKey) × (digest : Digest) × (signature : List ℕ) × HasMetadata b
      × HasKey b key
      × (key_fingerprint key ≡ b.key_id.as_hex)
      × (compute_receipt_digest e ≡ ok digest)
      × HasSignature b signature
      × (ed25519_verify key (construct_canonical_message digest b.timestamp) signature ≡ true)

  guard_tt_iff : (b : Bool) (e : VerifyError) → ((if b then ok tt else err e) ≡ ok tt) ↔ (b ≡ true)
  guard_tt_iff b e =
      let guarded = guard-ok_iff b (ok tt) e tt in (λ h. (guarded.0 h).0, λ h. guarded.1 (h, refl))

  expect-ok_iff :
      (label expected actual : String)
      → (expect label expected actual ≡ ok tt) ↔ (actual ≡ expected)
  expect-ok_iff label expected actual =
      ↔_trans (guard_tt_iff (str_eq actual expected) _) (eq_iff actual expected)

  validate_metadata-ok_iff : (b : SignatureBundle) → (validate_metadata b ≡ ok tt) ↔ HasMetadata b
  unfolding validate_metadata
  validate_metadata-ok_iff b =
      let alg = expect-ok_iff "algorithm" expected_alg b.alg in
      let version = expect-ok_iff "schema version" expected_schema_version b.schema_version in
      let basis = expect-ok_iff "basis" expected_basis b.basis in
      let outer = >>-ok_iff (expect "algorithm" expected_alg b.alg) _ tt in
      let inner =
        >>-ok_iff (expect "schema version" expected_schema_version b.schema_version) _ tt in
      (
        λ h. let (p, q) = outer.0 h in let (r, t) = inner.0 q in (alg.0 p, version.0 r, basis.0 t),
        λ h. outer.1 (alg.1 h.0, inner.1 (version.1 h.1, basis.1 h.2)),
      )

  decode_b64_fixed-ok_iff :
      (n : ℕ) (b64 label : String) (bytes : List ℕ)
      → (decode_b64_fixed n b64 label ≡ ok bytes)
        ↔ ((decode_b64 b64 ≡ ok bytes) × (length bytes ≡ n))
  unfolding decode_b64_fixed
  decode_b64_fixed-ok_iff n b64 label bytes =
      let steps = >>=-ok_iff (map_err _ (decode_b64 b64)) _ bytes in
      (
        λ h.
            let (c, p, q) = steps.0 h in
            let (size, same) = (guard-ok_iff (length c == n) (ok c) _ bytes).0 q in
            let equal = ok-injective same in
            (
              subst (λ d. decode_b64 b64 ≡ ok d) equal ((map_err-ok_iff _ (decode_b64 b64) c).0 p),
              subst (λ d. length d ≡ n) equal ((==_iff (length c) n).0 size),
            ),
        λ h. steps.1 (
          bytes,
          (map_err-ok_iff _ (decode_b64 b64) bytes).1 h.0,
          (guard-ok_iff (length bytes == n) (ok bytes) _ bytes).1
              ((==_iff (length bytes) n).1 h.1, refl),
        ),
      )

  decode_public_key-ok_iff :
      (b : SignatureBundle) (key : VerifyingKey)
      → (decode_public_key b.public_key_b64 ≡ ok key) ↔ HasKey b key
  unfolding decode_public_key
  decode_public_key-ok_iff b key =
      let b64 = b.public_key_b64 in
      let steps = >>=-ok_iff (decode_b64_fixed 32 b64 "public key") _ key in
      (
        λ h.
            let (bytes, p, q) = steps.0 h in
            let (decoded, size) = (decode_b64_fixed-ok_iff 32 b64 "public key" bytes).0 p in
            (bytes, decoded, size, (map_err-ok_iff _ (key_from_bytes bytes) key).0 q),
        λ h. steps.1 (
          h.0,
          (decode_b64_fixed-ok_iff 32 b64 "public key" h.0).1 (h.1, h.2),
          (map_err-ok_iff _ (key_from_bytes h.0) key).1 h.3,
        ),
      )

  key_id_matches-ok_iff :
      (key : VerifyingKey) (k : KeyId)
      → (validate_key_id_matches key k ≡ ok tt) ↔ (key_fingerprint key ≡ k.as_hex)
  unfolding validate_key_id_matches
  key_id_matches-ok_iff key k =
      ↔_trans (guard_tt_iff (str_eq (key_fingerprint key) k.as_hex) _)
        (eq_iff (key_fingerprint key) k.as_hex)

  -- A signature verifies exactly when the metadata are the expected ones, the public key decodes to
  -- 32 bytes of a key whose fingerprint is the key identifier, the receipt digest can be computed,
  -- and the 64 decoded bytes are that key's signature of the digest and timestamp.
  pub verify_signature-ok_iff :
      (e : ReceiptEnvelope) (b : SignatureBundle) → (verify_signature e b ≡ ok tt) ↔ Signs b e
  unfolding verify_signature decode_signature
  verify_signature-ok_iff e b =
      let metadata = validate_metadata-ok_iff b in
      (
        λ h.
            let (p, after_metadata) = (>>-ok_iff (validate_metadata b) _ tt).0 h in
            let (key, q, after_key) =
              (>>=-ok_iff (decode_public_key b.public_key_b64) _ tt).0 after_metadata in
            let (r, after_key_id) =
              (>>-ok_iff (validate_key_id_matches key b.key_id) _ tt).0 after_key in
            let (digest, t, after_digest) =
              (>>=-ok_iff (compute_receipt_digest e) _ tt).0 after_key_id in
            let (signature, u, verified) =
              (>>=-ok_iff (decode_b64_fixed 64 b.signature_b64 "signature") _ tt).0 after_digest in
            (
              key,
              digest,
              signature,
              metadata.0 p,
              (decode_public_key-ok_iff b key).0 q,
              (key_id_matches-ok_iff key b.key_id).0 r,
              t,
              (decode_b64_fixed-ok_iff 64 b.signature_b64 "signature" signature).0 u,
              (guard_tt_iff _ _).0 verified,
            ),
        λ h. (>>-ok_iff (validate_metadata b) _ tt).1 (
          metadata.1 h.3,
          (>>=-ok_iff (decode_public_key b.public_key_b64) _ tt).1 (
            h.0,
            (decode_public_key-ok_iff b h.0).1 h.4,
            (>>-ok_iff (validate_key_id_matches h.0 b.key_id) _ tt).1 (
              (key_id_matches-ok_iff h.0 b.key_id).1 h.5,
              (>>=-ok_iff (compute_receipt_digest e) _ tt).1 (
                h.1,
                h.6,
                (>>=-ok_iff (decode_b64_fixed 64 b.signature_b64 "signature") _ tt).1 (
                  h.2,
                  (decode_b64_fixed-ok_iff 64 b.signature_b64 "signature" h.2).1 h.7,
                  (guard_tt_iff _ _).1 h.8,
                ),
              ),
            ),
          ),
        ),
      )

  is_ok_iff : (m : Result VerifyError (Unit {0})) → (is_ok m ≡ true) ↔ (m ≡ ok tt)
  is_ok_iff (ok tt) = (λ h. refl, λ h. refl)
  is_ok_iff (err e) = (λ h. cc, λ h. cc)

  consistent_iff :
      (m : Result VerifyError VerifyingKey) (k : KeyId)
      → (consistent m k ≡ true)
        ↔ ((key : VerifyingKey) × (m ≡ ok key) × (key_fingerprint key ≡ k.as_hex))
  consistent_iff (err e) k = (λ h. cc, λ h. cc h.1)
  consistent_iff (ok key) k =
      let matches =
        ↔_trans (is_ok_iff (validate_key_id_matches key k)) (key_id_matches-ok_iff key k) in
      (
        λ h. (key, refl, matches.0 h),
        λ h. matches.1 (subst (λ v. key_fingerprint v ≡ k.as_hex) (sym (ok-injective h.1)) h.2),
      )

  -- The consistency flag is true exactly when the public key decodes to a key whose fingerprint is
  -- the key identifier.
  pub check_key_id_consistency_iff :
      (b : SignatureBundle)
      → (check_key_id_consistency b ≡ true)
        ↔ ((key : VerifyingKey) × HasKey b key × (key_fingerprint key ≡ b.key_id.as_hex))
  unfolding check_key_id_consistency
  check_key_id_consistency_iff b =
      let result = consistent_iff (decode_public_key b.public_key_b64) b.key_id in
      (
        λ h. let (key, p, q) = result.0 h in (key, (decode_public_key-ok_iff b key).0 p, q),
        λ h. result.1 (h.0, (decode_public_key-ok_iff b h.0).1 h.1, h.2),
      )
