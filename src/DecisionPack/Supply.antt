-- ===== src/DecisionPack/Supply.antt =====
-- src/decision_pack.rs: what the loop over the supplied receipts knows of them.
use mathlib.Core.List
use vertrule_verifier.Prelude.{
  ◌≡◌, ap, ◌↔◌, ◌⊎◌, inl, inr, refl, Bool, true, false, String, Option, none, some, Result-cases,
  List, [], ◌∷◌, str_eq, eq_iff, any, ||-true_iff, append-ne-nil, All, Bool-cases,
}
use vertrule_verifier.Prelude.Text.{as_bytes}
use vertrule_verifier.External.{External}
use vertrule_verifier.Result.{VerificationResult, valid, is_valid}
use vertrule_verifier.Result.Status.{is_valid_iff}
use vertrule_verifier.Verify.{verify_receipt}
use vertrule_verifier.Support.{Packs}
use vertrule_verifier.Support.Reads.{StatesEventHash, text_at_iff}
use vertrule_verifier.Json.{get}
use vertrule_verifier.DecisionPack.{extract_event_hash, index_supplied}
use vertrule_verifier.DecisionPack.Report.{SupplyState, note_supplied}

-- Whether a text is among others, as the code tests it.
abbrev pub listed : String → List String → Bool
listed h hashes = any (λ g. str_eq g h) hashes

listed-append_iff :
    (h : String) (hashes : List String) (g : String)
    → (listed h (List.◌++◌ hashes (g ∷ [])) ≡ true) ↔ ((listed h hashes ≡ true) ⊎ (g ≡ h))
listed-append_iff h [] g =
    let same = eq_iff g h in
    let here = ||-true_iff (str_eq g h) false in
    (
      λ q. elim (here.0 q) [ inl r ↦ inr (same.0 r) | inr r ↦ cc ],
      elim [ inl r ↦ cc | inr r ↦ here.1 (inl (same.1 r)) ],
    )
listed-append_iff h (f ∷ rest) g =
    let here = ||-true_iff (str_eq f h) (listed h (List.◌++◌ rest (g ∷ []))) in
    let first = ||-true_iff (str_eq f h) (listed h rest) in
    let others = listed-append_iff h rest g in
    (
      λ q. elim (here.0 q) [
        | inl r ↦ inl (first.1 (inl r))
        | inr r ↦ elim (others.0 r) [ inl s ↦ inl (first.1 (inr s)) | inr s ↦ inr s ]
      ],
      elim [
        | inl q ↦ elim (first.0 q) [
          | inl r ↦ here.1 (inl r)
          | inr r ↦ here.1 (inr (others.1 (inl r)))
        ]
        | inr q ↦ here.1 (inr (others.1 (inr q)))
      ],
    )

-- One round: a valid receipt with a hash is listed, and an unreadable hash is an error.
note_supplied-listed_iff :
    (h : String) (r : VerificationResult) (hash : Option String) (s : SupplyState)
    → (listed h (note_supplied r hash s).verified_hashes ≡ true)
      ↔ ((listed h s.verified_hashes ≡ true) ⊎ ((r.status ≡ valid) × (hash ≡ some h)))
note_supplied-listed_iff h r none s = (λ q. inl q, elim [ inl q ↦ q | inr q ↦ cc q.1 ])
note_supplied-listed_iff h r (some g) s =
    let verifies = is_valid_iff r.status in
    let appended = listed-append_iff h s.verified_hashes g in
    elim (Bool-cases (is_valid r.status)) [
      | inl p ↦ rw p (
        λ q. elim (appended.0 q) [ inl a ↦ inl a | inr a ↦ inr (verifies.0 p, ap some a) ],
        elim [ inl q ↦ appended.1 (inl q) | inr q ↦ appended.1 (inr (cc q.1)) ],
      )
      | inr p ↦ rw p (λ q. inl q, elim [ inl q ↦ q | inr q ↦ cc (p, verifies.1 q.0) ])
    ]

note_supplied-nil_iff :
    (r : VerificationResult) (hash : Option String) (s : SupplyState)
    → ((note_supplied r hash s).errors ≡ []) ↔ ((s.errors ≡ []) × ((h : String) × (hash ≡ some h)))
note_supplied-nil_iff r none s = (λ q. absurd (append-ne-nil s.errors _ q), λ q. cc q.1.1)
note_supplied-nil_iff r (some g) s = elim (Bool-cases (is_valid r.status)) [
  | inl p ↦ rw p (λ q. (q, (g, refl)), λ q. q.0)
  | inr p ↦ rw p (λ q. (q, (g, refl)), λ q. q.0)
]

module _ ⦃x : External⦄ ⦃p : Packs⦄ where
  open x use {from_str}

  -- One of the supplied receipts is reported valid and has the event hash.
  abbrev pub Replays : List String → String → Type 0
  Replays [] h = ⊥
  Replays (raw ∷ rest) h =
      (((verify_receipt (as_bytes raw)).status ≡ valid) × StatesEventHash raw h) ⊎ Replays rest h

  abbrev pub IsReadable : String → Type 0
  IsReadable raw = (h : String) × StatesEventHash raw h

  extract_event_hash_iff :
      (raw h : String) → (extract_event_hash raw ≡ some h) ↔ StatesEventHash raw h
  extract_event_hash_iff raw h = elim (Result-cases (from_str raw)) [
    | inr (e, failed) ↦ (λ q. cc (failed, q), λ q. cc (failed, q.1))
    | inl (value, parsed) ↦
        let text = text_at_iff (get value "event_hash") h in
        (
          λ q. (value, parsed, text.0 (cc (parsed, q))),
          λ (v, other, hash).
              let one : v ≡ value = cc (parsed, other) in
              let read = text.1 (cc (one, hash)) in rw (extract_event_hash, parsed) read,
        )
  ]

  pub index_supplied-listed_iff :
      (h : String) (raws : List String) (s : SupplyState)
      → (listed h (index_supplied raws s).verified_hashes ≡ true)
        ↔ ((listed h s.verified_hashes ≡ true) ⊎ Replays raws h)
  unfolding index_supplied
  index_supplied-listed_iff h [] s = (λ q. inl q, elim [ inl q ↦ q | inr q ↦ absurd q ])
  index_supplied-listed_iff h (raw ∷ rest) s =
      let r = verify_receipt (as_bytes raw) in
      let hash = extract_event_hash raw in
      let stated = extract_event_hash_iff raw h in
      let here = note_supplied-listed_iff h r hash s in
      let others = index_supplied-listed_iff h rest (note_supplied r hash s) in
      (
        λ q. elim (others.0 q) [
          | inl a ↦ elim (here.0 a) [ inl b ↦ inl b | inr (v, b) ↦ inr (inl (v, stated.0 b)) ]
          | inr a ↦ inr (inr a)
        ],
        elim [
          | inl q ↦ others.1 (inl (here.1 (inl q)))
          | inr q ↦ elim q [
            | inl (v, b) ↦ others.1 (inl (here.1 (inr (v, stated.1 b))))
            | inr b ↦ others.1 (inr b)
          ]
        ],
      )

  pub index_supplied-nil_iff :
      (raws : List String) (s : SupplyState)
      → ((index_supplied raws s).errors ≡ []) ↔ ((s.errors ≡ []) × All IsReadable raws)
  unfolding index_supplied
  index_supplied-nil_iff [] s = (λ q. (q, tt), λ q. q.0)
  index_supplied-nil_iff (raw ∷ rest) s =
      let r = verify_receipt (as_bytes raw) in
      let hash = extract_event_hash raw in
      let here = note_supplied-nil_iff r hash s in
      let others = index_supplied-nil_iff rest (note_supplied r hash s) in
      (
        λ q.
            let (a, b) = others.0 q in
            let (c, (h, d)) = here.0 a in (c, ((h, (extract_event_hash_iff raw h).0 d), b)),
        λ (c, ((h, d), b)). others.1 (here.1 (c, (h, (extract_event_hash_iff raw h).1 d)), b),
      )
