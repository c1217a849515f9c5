-- ===== src/LayeredPack/Root.antt =====
-- src/layered_pack.rs: which texts are a root of the layered family.
use vertrule_verifier.Prelude.{
  ◌≡◌, ◌↔◌, ◌⊎◌, inl, inr, refl, subst, sym, ap, true, String, Option, none, some, List, [], ok,
  ◌>>=◌, ok-injective, map_err, >>=-eq-ok, map_err-ok_iff, unless-ok_iff, Option-cases,
}
use vertrule_verifier.Json.{Value, get, as_str, unwrap_or_default}
use vertrule_verifier.Json
use vertrule_verifier.External.{External}
use vertrule_verifier.SchemaProfile.{contains}
use vertrule_verifier.SchemaProfile.Conformance.{OneOf, contains_iff}
use Prim.Native.String.{◌++◌}
use vertrule_verifier.Support.{SupportMember, Packs}
use vertrule_verifier.Support.Reads.{HasKind, kind_at_iff}
use vertrule_verifier.LayeredPack.{
  layered_kinds, support_set_of, extract_from, extract_layered_payload,
}

module _ ⦃x : External⦄ ⦃p : Packs⦄ where
  open x use {Number, from_str}
  open p use {Role, provider_payload_kind, model_payload_kind, support_set_from_value}

  -- What the payload states as its support set: nothing, or a value that is read as the members.
  abbrev pub Supports : Option (Value Number) → List (SupportMember Role) → Type 0
  Supports stated members =
      ((stated ≡ none) × (members ≡ []))
      ⊎ ((v : Value Number) × (stated ≡ some v) × (support_set_from_value v ≡ ok members))

  -- A text is JSON with a payload of one of the two layered kinds and a support set.
  pub record IsLayeredRoot (text kind : String) (members : List (SupportMember Role)) : Type 0 where
    pub value : Value Number
    pub payload : Value Number
    pub parsed : from_str text ≡ ok value
    pub has_payload : get value "payload" ≡ some payload
    pub has_kind : HasKind value kind
    pub in_family : (kind ≡ provider_payload_kind) ⊎ (kind ≡ model_payload_kind)
    pub supports : Supports (get payload "support_set") members

  in_family_iff :
      (kind : String)
      → (contains layered_kinds kind ≡ true)
        ↔ ((kind ≡ provider_payload_kind) ⊎ (kind ≡ model_payload_kind))
  unfolding OneOf
  in_family_iff kind =
      let among = contains_iff layered_kinds kind in
      (
        λ h. elim (among.0 h) [
          | inl q ↦ inl (sym q)
          | inr q ↦ elim q [ inl r ↦ inr (sym r) | inr r ↦ absurd r ]
        ],
        elim [ inl q ↦ among.1 (inl (sym q)) | inr q ↦ among.1 (inr (inl (sym q))) ],
      )

  support_set_of_iff :
      (stated : Option (Value Number)) (members : List (SupportMember Role))
      → (support_set_of stated ≡ ok members) ↔ Supports stated members
  support_set_of_iff none members =
      (λ h. inl (refl, sym (ok-injective h)), elim [ inl q ↦ ap ok (sym q.1) | inr q ↦ cc q.1 ])
  support_set_of_iff (some v) members =
      (λ h. inr (v, refl, h), elim [ inl q ↦ cc q.0 | inr (w, same, q) ↦ cc (same, q) ])

  extract_from-ok_iff :
      (payload : Value Number) (kind : String) (members : List (SupportMember Role))
      → (extract_from (some payload) ≡ ok (kind, members)) ↔ (
          (unwrap_or_default (Json.◌>>=◌ (get payload "payload_kind") as_str) ≡ kind)
          × ((kind ≡ provider_payload_kind) ⊎ (kind ≡ model_payload_kind))
          × Supports (get payload "support_set") members)
  unfolding extract_from
  extract_from-ok_iff payload kind members =
      let stated = unwrap_or_default (Json.◌>>=◌ (get payload "payload_kind") as_str) in
      let supports = support_set_of_iff (get payload "support_set") in
      let read =
        map_err (λ e. "malformed layered support_set: " ++ e)
          (support_set_of (get payload "support_set")) in
      let guarded =
        unless-ok_iff {A = String × List (SupportMember Role)} (contains layered_kinds stated) _
          (do support_set ← read; ok (stated, support_set)) (kind, members) in
      (
        λ h.
            let (family, rest) = guarded.0 h in
            let (ms, made, same) = >>=-eq-ok read _ rest in
            let one : stated ≡ kind = ap (λ q. q.0) (ok-injective same) in
            let all : ms ≡ members = ap (λ q. q.1) (ok-injective same) in
            (
              one,
              subst (λ k. (k ≡ provider_payload_kind) ⊎ (k ≡ model_payload_kind)) one
                  ((in_family_iff stated).0 family),
              subst (Supports (get payload "support_set")) all
                  ((supports ms).0 ((map_err-ok_iff _ _ ms).0 made)),
            ),
        λ (one, family, supported).
            let made =
              (map_err-ok_iff (λ e. "malformed layered support_set: " ++ e) _ members).1
                ((supports members).1 supported) in
            guarded.1 (
              (in_family_iff stated).1 (
                  subst (λ k. (k ≡ provider_payload_kind) ⊎ (k ≡ model_payload_kind)) (sym one)
                    family),
              cc (made, one),
            ),
      )

  -- The payload is extracted exactly from such a text.
  pub extract_layered_payload-ok_iff :
      (text kind : String) (members : List (SupportMember Role))
      → (extract_layered_payload text ≡ ok (kind, members)) ↔ IsLayeredRoot text kind members
  unfolding extract_layered_payload
  extract_layered_payload-ok_iff text kind members = (
    λ h.
        let (value, made, rest) = >>=-eq-ok (map_err _ (from_str text)) _ h in
        let parsed = (map_err-ok_iff _ (from_str text) value).0 made in
        elim (Option-cases (get value "payload")) [
          | inl q ↦ cc (q, rest)
          | inr (payload, q) ↦
              let (one, family, supported) =
                (extract_from-ok_iff payload kind members).0 (cc (q, rest)) in
              record {
                value = value;
                payload = payload;
                parsed = parsed;
                has_payload = q;
                has_kind = (kind_at_iff value payload kind q).0 one;
                in_family = family;
                supports = supported;
              }
        ],
    λ r.
        let one = (kind_at_iff r.value r.payload kind r.has_payload).1 r.has_kind in
        let made = (extract_from-ok_iff r.payload kind members).1 (one, r.in_family, r.supports) in
        rw (r.parsed, r.has_payload) made,
  )
