-- ===== src/LayeredPack/Supply.antt =====
-- src/layered_pack.rs: which supplied text stands for the target of an edge.
use vertrule_verifier.Prelude.{
  ◌≡◌, ◌↔◌, ◌⊎◌, inl, inr, refl, subst, String, none, some, List, [], ◌∷◌, ok, str_eq, eq_iff,
  Bool-cases, Option-cases, Result-cases,
}
use vertrule_verifier.Prelude.Text.{as_bytes}
use vertrule_verifier.Json.{Value, string, get, unwrap_or_default}
use vertrule_verifier.External.{External}
use vertrule_verifier.Result.{valid}
use vertrule_verifier.Verify.{verify_receipt}
use vertrule_verifier.Support.{Packs, read_event_hash, read_payload_kind, join}
use vertrule_verifier.Support.Reads.{HasKind, StatesEventHash, text_at_iff, read_payload_kind_iff}
use vertrule_verifier.LayeredPack.{index_supplied, index_all, indexed}
use vertrule_verifier.LayeredPack.Report.{SuppliedReceipt, find_supplied}
use vertrule_verifier.LayeredPack.Edges.{IsTarget}

-- The first of the receipts that has the event hash is the one that is found.
find-first :
    (h : String) (s : SuppliedReceipt) (rest : List SuppliedReceipt)
    → s.event_hash ≡ h
    → find_supplied h (s ∷ rest) ≡ some s
find-first h s rest same = rw ((eq_iff s.event_hash h).1 same)

find-later :
    (h : String) (s : SuppliedReceipt) (rest : List SuppliedReceipt)
    → ¬ (s.event_hash ≡ h)
    → find_supplied h (s ∷ rest) ≡ find_supplied h rest
find-later h s rest other = elim (Bool-cases (str_eq s.event_hash h)) [
  | inl p ↦ absurd (other ((eq_iff s.event_hash h).0 p))
  | inr p ↦ rw p
]

module _ ⦃x : External⦄ ⦃p : Packs⦄ where
  open x use {Number, from_str}

  -- A text with the event hash, which is reported valid and has the kind.
  abbrev pub Stands : String → String → String → Type 0
  Stands h target raw =
      (value : Value Number) × (from_str raw ≡ ok value)
      × (get value "event_hash" ≡ some (string h))
      × ((verify_receipt (as_bytes raw)).status ≡ valid)
      × HasKind value target

  -- The first of the texts with the event hash is one that stands for the target.
  abbrev pub Supplies : String → String → List String → Type 0
  Supplies h target [] = ⊥
  Supplies h target (raw ∷ rest) =
      Stands h target raw ⊎ ((¬ StatesEventHash raw h) × Supplies h target rest)

  -- Where a text is no receipt with an event hash, the search goes on behind it.
  abbrev IsSkipped : String → Type 0
  IsSkipped raw = (h : String) → ¬ StatesEventHash raw h

  -- What is indexed of a text: its event hash, and whether it stands for a target.
  record IsIndexed (raw : String) (s : SuppliedReceipt) : Type 0 where
    value : Value Number
    parsed : from_str raw ≡ ok value
    hash : get value "event_hash" ≡ some (string s.event_hash)
    status : s.status ≡ (verify_receipt (as_bytes raw)).status
    kind : (target : String) → (s.payload_kind ≡ target) ↔ HasKind value target

  index_supplied-cases :
      (raw : String)
      → ((index_supplied raw ≡ none) × IsSkipped raw)
        ⊎ ((s : SuppliedReceipt) × (index_supplied raw ≡ some s) × IsIndexed raw s)
  unfolding index_supplied
  index_supplied-cases raw = elim (Result-cases (from_str raw)) [
    | inr (e, failed) ↦ inl (rw (index_supplied, failed), λ h q. cc (failed, q.1))
    | inl (value, parsed) ↦ elim (Option-cases (read_event_hash value)) [
      | inl unread ↦ inl (
        rw (index_supplied, parsed, indexed, unread),
        λ h (v, same, hash).
            let read = (text_at_iff (get v "event_hash") h).1 hash in
            let one : v ≡ value = cc (parsed, same) in cc (unread, one, read),
      )
      | inr (h, read) ↦
          let result = verify_receipt (as_bytes raw) in
          let s : SuppliedReceipt = record {
            event_hash = h;
            payload_kind = unwrap_or_default (read_payload_kind value);
            status = result.status;
            detail = join result.errors;
          } in
          inr (
            s,
            rw (index_supplied, parsed, indexed, read),
            record {
              value = value;
              parsed = parsed;
              hash = (text_at_iff (get value "event_hash") h).0 read;
              status = refl;
              kind = read_payload_kind_iff value;
            },
          )
    ]
  ]

  -- A receipt that is indexed has the event hash of its text, and stands for what its text stands for.
  hash_iff :
      (raw : String) (s : SuppliedReceipt) (h : String)
      → IsIndexed raw s
      → (s.event_hash ≡ h) ↔ StatesEventHash raw h
  hash_iff raw s h own = (
    λ q. (own.value, own.parsed, let hash = own.hash in cc (q, hash)),
    λ (v, parsed, hash).
        let one : v ≡ own.value = let read = own.parsed in cc (read, parsed) in
        let stated = own.hash in cc (one, stated, hash),
  )

  IsTarget-Stands_iff :
      (raw : String) (s : SuppliedReceipt) (h target : String)
      → IsIndexed raw s
      → s.event_hash ≡ h
      → IsTarget (some s) target ↔ Stands h target raw
  IsTarget-Stands_iff raw s h target own same = (
    λ t. (
      own.value,
      own.parsed,
      let hash = own.hash in cc (hash, same),
      let one : t.supplied ≡ s = let found = t.is_found in cc found in
          let verifies = t.verifies in let status = own.status in cc (one, verifies, status),
      (own.kind target).0 (
          let one : t.supplied ≡ s = let found = t.is_found in cc found in
          let kind = t.has_kind in cc (one, kind)),
    ),
    λ (v, parsed, hash, verifies, kind). record {
      supplied = s;
      is_found = refl;
      verifies = let status = own.status in cc (status, verifies);
      has_kind =
          (own.kind target).1
            (subst (λ w. HasKind w target) (let read = own.parsed in cc (read, parsed)) kind);
    },
  )

  nothing_iff : (h target : String) → IsTarget (find_supplied h (index_all [])) target ↔ ⊥
  unfolding index_all
  nothing_iff h target = (λ q. cc q.is_found, λ q. absurd q)

  index_all-skip :
      (raw : String) (rest : List String)
      → index_supplied raw ≡ none
      → index_all (raw ∷ rest) ≡ index_all rest
  unfolding index_all
  index_all-skip raw rest q = rw (index_all, q)

  index_all-keep :
      (raw : String) (rest : List String) (s : SuppliedReceipt)
      → index_supplied raw ≡ some s
      → index_all (raw ∷ rest) ≡ s ∷ index_all rest
  unfolding index_all
  index_all-keep raw rest s q = rw (index_all, q)

  -- The search in what is indexed finds a target exactly when the texts supply one.
  pub find_supplied-IsTarget_iff :
      (h target : String) (raws : List String)
      → IsTarget (find_supplied h (index_all raws)) target ↔ Supplies h target raws
  find_supplied-IsTarget_iff h target [] = nothing_iff h target
  find_supplied-IsTarget_iff h target (raw ∷ rest) =
      let others = find_supplied-IsTarget_iff h target rest in
      elim (index_supplied-cases raw) [
        | inl (unread, skipped) ↦ rw (index_all-skip raw rest unread) (
          λ t. inr (skipped h, others.0 t),
          elim [ inl q ↦ absurd (skipped h (q.0, q.1, q.2)) | inr q ↦ others.1 q.1 ],
        )
        | inr (s, read, own) ↦
            let hash = hash_iff raw s h own in
            rw (index_all-keep raw rest s read) (elim (Bool-cases (str_eq s.event_hash h)) [
              | inl q ↦
                  let same = (eq_iff s.event_hash h).0 q in
                  let stands = IsTarget-Stands_iff raw s h target own same in
                  rw (find-first h s (index_all rest) same) (
                    λ t. inl (stands.0 t),
                    elim [ inl t ↦ stands.1 t | inr t ↦ absurd (t.0 (hash.0 same)) ],
                  )
              | inr q ↦
                  let other : ¬ (s.event_hash ≡ h) = λ e. cc (q, (eq_iff s.event_hash h).1 e) in
                  rw (find-later h s (index_all rest) other) (
                    λ t. inr (λ r. other (hash.1 r), others.0 t),
                    elim [ inl t ↦ absurd (other (hash.1 (t.0, t.1, t.2))) | inr t ↦ others.1 t.1 ],
                  )
            ])
      ]
