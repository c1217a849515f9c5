-- ===== src/Chain/Spec.antt =====
-- What src/chain.rs promises of a chain, told without its loops.
use vertrule_verifier.Prelude.{◌<◌, ◌≡◌, ◌≢◌, none, some, List, [], ◌∷◌, map, All}
use vertrule_verifier.External.{External}

module _ ⦃x : External⦄ where
  open x use {
    Digest, ReceiptEnvelope, parent_id, event_hash, logical_time, context_digest, policy_digest,
    schema_digest,
  }

  -- Each envelope's parent is the event hash of the one before it.
  abbrev pub IsLinked : ReceiptEnvelope → List ReceiptEnvelope → Type 0
  IsLinked prev [] = Unit
  IsLinked prev (curr ∷ rest) = (parent_id curr ≡ some (event_hash prev)) × IsLinked curr rest

  -- The logical time rises strictly from each envelope to the next.
  abbrev pub IsIncreasing : ReceiptEnvelope → List ReceiptEnvelope → Type 0
  IsIncreasing prev [] = Unit
  IsIncreasing prev (curr ∷ rest) = (logical_time prev < logical_time curr) × IsIncreasing curr rest

  abbrev pub IsFresh : Digest → List Digest → Type 0
  IsFresh d = All (λ h. d ≢ h)

  -- No digest occurs twice.
  abbrev pub IsDistinct : List Digest → Type 0
  IsDistinct [] = Unit
  IsDistinct (d ∷ ds) = IsFresh d ds × IsDistinct ds

  -- A digest field has one value, that of the first envelope.
  abbrev pub IsUniform :
      (ReceiptEnvelope → Digest) → ReceiptEnvelope → List ReceiptEnvelope → Type 0
  IsUniform field first = All (λ e. field e ≡ field first)

  -- The root has no parent, the others are linked, and no event hash is repeated.
  abbrev pub HasLinkage : ReceiptEnvelope → List ReceiptEnvelope → Type 0
  HasLinkage first rest =
      (parent_id first ≡ none) × IsLinked first rest × IsDistinct (map event_hash (first ∷ rest))

  -- The seven conditions in the header of src/chain.rs.
  abbrev pub IsChain : List ReceiptEnvelope → Type 0
  IsChain [] = Unit
  IsChain (first ∷ rest) =
      HasLinkage first rest
      × IsIncreasing first rest
      × IsUniform context_digest first rest
      × IsUniform policy_digest first rest
      × IsUniform schema_digest first rest
