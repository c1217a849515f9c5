-- ===== src/Identity.antt =====
-- src/identity.rs and src/canonical_identity.rs: the sealed digests of the verifier.
use vertrule_verifier.Prelude.{ℕ, String, List, Result, ok, ◌>>=◌, map_err}
use vertrule_verifier.Json.{Value}
use vertrule_verifier.External.{External}
use vertrule_verifier.Error.{VerifyError, canon, malformed_json}

module _ ⦃x : External⦄ where
  open x use {
    Number, jcs_display, CanonicalDigest, DigestAlgorithm, DigestStrategy, digest_algorithm_of,
    algorithm_name, digest_bytes, blake3_untagged, to_canon_digest_with,
    parse_json_value_no_duplicates, blake3, hex_encode,
  }

  unfoldable pub digest_trusted_value :
      Value Number → DigestStrategy → Result VerifyError CanonicalDigest
  digest_trusted_value value strategy =
      map_err (λ e. canon (jcs_display e)) (to_canon_digest_with value strategy)

  unfoldable pub digest_untrusted_json :
      List ℕ → DigestStrategy → Result VerifyError CanonicalDigest
  digest_untrusted_json json strategy = do
    value ← map_err (λ e. malformed_json (jcs_display e)) (parse_json_value_no_duplicates json)
    map_err (λ e. canon (jcs_display e)) (to_canon_digest_with value strategy)

  pub record SidecarDigest : Type 0 where
    pub inner : CanonicalDigest

  unfoldable pub recompute_from_value : Value Number → Result VerifyError SidecarDigest
  recompute_from_value value = do
    inner ← digest_trusted_value value blake3_untagged
    let digest : SidecarDigest = record { inner = inner }
    ok digest

  abbrev pub sidecar_algorithm_name : SidecarDigest → String
  sidecar_algorithm_name d = algorithm_name (digest_algorithm_of d.inner)

  abbrev pub sidecar_algorithm : SidecarDigest → DigestAlgorithm
  sidecar_algorithm d = digest_algorithm_of d.inner

  abbrev pub sidecar_bytes : SidecarDigest → List ℕ
  sidecar_bytes d = digest_bytes d.inner

  abbrev pub sidecar_to_hex_string : SidecarDigest → String
  sidecar_to_hex_string d = hex_encode (digest_bytes d.inner)

  abbrev pub into_canonical_digest : SidecarDigest → CanonicalDigest
  into_canonical_digest d = d.inner

  pub record GenericByteDigest : Type 0 where
    pub bytes : List ℕ

  -- `GenericByteDigest::from_bytes`
  abbrev pub generic_from_bytes : List ℕ → GenericByteDigest
  generic_from_bytes input = record { bytes = blake3 input }

  abbrev pub generic_to_hex_string : GenericByteDigest → String
  generic_to_hex_string d = hex_encode d.bytes
