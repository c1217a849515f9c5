-- ===== src/Support/Reads.antt =====
-- src/layered_pack.rs, src/decision_pack.rs and src/bundle.rs: what a JSON text says, told by its
-- objects and their members alone, and that the readers of the code find just that.
use vertrule_verifier.Prelude.{
  ◌≡◌, ◌≢◌, ◌↔◌, ◌⊎◌, inl, inr, refl, sym, String, Option, none, some, ok, Option-cases,
}
use vertrule_verifier.Json.{
  Value, null, boolean, number, string, array, object, get, as_str, unwrap_or_default,
}
use vertrule_verifier.Json
use vertrule_verifier.External.{External}
use vertrule_verifier.Support.{payload_at, read_payload_kind}

as_str-some_iff : {N : Type 0} (v : Value N) (s : String) → (as_str v ≡ some s) ↔ (v ≡ string s)
as_str-some_iff (string t) s = (λ h. cc h, λ h. cc h)
as_str-some_iff v s = (λ h. cc h, λ h. cc h)

pub text_at_iff :
    {N : Type 0} (o : Option (Value N)) (s : String)
    → (Json.◌>>=◌ o as_str ≡ some s) ↔ (o ≡ some (string s))
text_at_iff none s = (λ h. cc h, λ h. cc h)
text_at_iff (some v) s = let text = as_str-some_iff v s in (λ h. cc (text.0 h), λ h. text.1 (cc h))

module _ ⦃x : External⦄ where
  open x use {Number, from_str}

  -- The payload of a value has a text under a key.
  abbrev pub PayloadText : Value Number → String → String → Type 0
  PayloadText value key s =
      (payload : Value Number) × (get value "payload" ≡ some payload)
      × (get payload key ≡ some (string s))

  -- The kind of the payload; the empty one where none is stated as a text.
  abbrev pub HasKind : Value Number → String → Type 0
  HasKind value kind =
      PayloadText value "payload_kind" kind
      ⊎ (((t : String) → ¬ PayloadText value "payload_kind" t) × (kind ≡ ""))

  -- A text is JSON with a text for its event hash.
  abbrev pub StatesEventHash : String → String → Type 0
  StatesEventHash raw h =
      (value : Value Number) × (from_str raw ≡ ok value)
      × (get value "event_hash" ≡ some (string h))

  payload_at_iff :
      (value : Value Number) (key s : String)
      → (Json.◌>>=◌ (payload_at value key) as_str ≡ some s) ↔ PayloadText value key s
  payload_at_iff value key s = elim (Option-cases (get value "payload")) [
    | inl p ↦ (λ h. cc (p, h), λ h. cc (p, h.1))
    | inr (payload, p) ↦
        let text = text_at_iff (get payload key) s in
        rw p (λ h. (payload, refl, text.0 h), λ h. text.1 (let q = h.1 in let r = h.2 in cc (q, r)))
  ]

  kind_of_iff :
      (o : Option String) (kind : String)
      → (unwrap_or_default o ≡ kind)
        ↔ ((o ≡ some kind) ⊎ (((t : String) → o ≢ some t) × (kind ≡ "")))
  kind_of_iff none kind = (λ h. inr (λ t q. cc q, sym h), elim [ inl q ↦ cc q | inr q ↦ sym q.1 ])
  kind_of_iff (some s) kind = (λ h. inl (cc h), elim [ inl q ↦ cc q | inr q ↦ absurd (q.0 s refl) ])

  pub read_payload_kind_iff :
      (value : Value Number) (kind : String)
      → (unwrap_or_default (read_payload_kind value) ≡ kind) ↔ HasKind value kind
  read_payload_kind_iff value kind =
      let read = λ (t : String). payload_at_iff value "payload_kind" t in
      let default = kind_of_iff (read_payload_kind value) kind in
      (
        λ h. elim (default.0 h) [
          | inl q ↦ inl ((read kind).0 q)
          | inr q ↦ inr (λ t p. q.0 t ((read t).1 p), q.1)
        ],
        elim [
          | inl q ↦ default.1 (inl ((read kind).1 q))
          | inr q ↦ default.1 (inr (λ t p. q.0 t ((read t).0 p), q.1))
        ],
      )

  -- The same, of a payload that was taken out already.
  pub kind_at_iff :
      (value payload : Value Number) (kind : String)
      → get value "payload" ≡ some payload
      → (unwrap_or_default (Json.◌>>=◌ (get payload "payload_kind") as_str) ≡ kind)
        ↔ HasKind value kind
  kind_at_iff value payload kind q =
      let read = read_payload_kind_iff value kind in
      let same : read_payload_kind value ≡ Json.◌>>=◌ (get payload "payload_kind") as_str = cc q in
      (λ h. read.0 (cc (same, h)), λ h. let r = read.1 h in cc (same, r))
