-- ===== src/DecisionPack/Payload.antt =====
-- src/decision_pack.rs: which texts have a decision as payload, and which digests and links are well
-- formed.
use vertrule_verifier.Prelude.{
  ℕ, ◌<◌, ◌≤◌, ◌≡◌, ◌↔◌, ◌⊎◌, inl, inr, subst, sym, true, false, String, some, List, [], ◌∷◌, ok,
  map_err, >>=-eq-ok, map_err-ok_iff, unless-ok_iff, str_eq, eq_iff, Option-cases, All, All_iff,
  all, all-true_iff, length, arith, ◌==◌, ==_iff, &&-true_iff, Bool-cases,
}
use vertrule_verifier.Prelude.Text.{chars, as_bytes, as_bytes-ascii}
use vertrule_verifier.Json.{Value, get, as_str, unwrap_or_default}
use vertrule_verifier.Json
use vertrule_verifier.External.{External}
use vertrule_verifier.Support.{DecisionReceiptPayload, Packs}
use vertrule_verifier.Support.Reads.{HasKind, kind_at_iff}
use vertrule_verifier.DecisionPack.{extract_from, extract_decision_payload}
use vertrule_verifier.DecisionPack.Report.{is_lower_digit, is_lower_hex_64, is_whitespace, is_blank}

-- 0 to 9, or a to f.
abbrev pub IsLowerDigit : ℕ → Type 0
IsLowerDigit c = ((b'0' ≤ c) × (c ≤ b'9')) ⊎ ((b'a' ≤ c) × (c ≤ b'f'))

-- 64 characters, all lowercase hexadecimal digits.
pub record IsDigest (digest : String) : Type 0 where
  pub digits : All IsLowerDigit (chars digest)
  pub count : length (chars digest) ≡ 64

is_lower_digit_iff : (c : ℕ) → (is_lower_digit c ≡ true) ↔ IsLowerDigit c
is_lower_digit_iff c = ground arith

lower_digits-ascii : (cs : List ℕ) → All IsLowerDigit cs → All (λ c. c < 128) cs
lower_digits-ascii [] h = tt
lower_digits-ascii (c ∷ cs) h =
    (elim h.0 [ inl q ↦ omega (arith, q) | inr q ↦ omega (arith, q) ], lower_digits-ascii cs h.1)

pub is_lower_hex_64_iff : (digest : String) → (is_lower_hex_64 digest ≡ true) ↔ IsDigest digest
unfolding is_lower_hex_64
is_lower_hex_64_iff digest =
    let n = length (as_bytes digest) in
    let both = &&-true_iff (n == 64) (all is_lower_digit (chars digest)) in
    let spelled = all-true_iff is_lower_digit (chars digest) in
    let each = All_iff is_lower_digit_iff (chars digest) in
    let bytes = λ (h : All IsLowerDigit (chars digest)).
      as_bytes-ascii digest (lower_digits-ascii (chars digest) h) in
    (
      λ h.
          let digits = each.0 (spelled.0 (both.0 h).1) in
          record {
            digits = digits;
            count = subst (λ bs. length bs ≡ 64) (bytes digits) ((==_iff n 64).0 (both.0 h).0);
          },
      λ h. both.1 (
        (==_iff n 64).1 (subst (λ bs. length bs ≡ 64) (sym (bytes h.digits)) h.count),
        spelled.1 (each.1 h.digits),
      ),
    )

-- One of the characters is no white space.
abbrev pub HasInk : List ℕ → Type 0
HasInk [] = ⊥
HasInk (c ∷ cs) = (is_whitespace c ≡ false) ⊎ HasInk cs

blank_iff : (cs : List ℕ) → (all is_whitespace cs ≡ false) ↔ HasInk cs
blank_iff [] = (λ h. cc h, λ h. absurd h)
blank_iff (c ∷ cs) =
    let rest = blank_iff cs in
    elim (Bool-cases (is_whitespace c)) [
      | inl q ↦ (
        λ h. inr (rest.0 (cc (q, h))),
        elim [ inl r ↦ cc (q, r) | inr r ↦ let s = rest.1 r in cc (q, s) ],
      )
      | inr q ↦ (λ h. inl q, λ h. cc q)
    ]

pub is_blank_iff : (url : String) → (is_blank url ≡ false) ↔ HasInk (chars url)
is_blank_iff url = blank_iff (chars url)

module _ ⦃x : External⦄ ⦃p : Packs⦄ where
  open x use {Number, from_str}
  open p use {Role, decision_payload_kind, decision_from_value}

  -- A text is JSON with a payload of the decision kind that is read as the decision.
  pub record IsDecision (text : String) (decision : DecisionReceiptPayload Role) : Type 0 where
    pub value : Value Number
    pub payload : Value Number
    pub parsed : from_str text ≡ ok value
    pub has_payload : get value "payload" ≡ some payload
    pub has_kind : HasKind value decision_payload_kind
    pub reads : decision_from_value payload ≡ ok decision

  extract_from-ok_iff :
      (payload : Value Number) (decision : DecisionReceiptPayload Role)
      → (extract_from (some payload) ≡ ok decision) ↔ (
          (unwrap_or_default (Json.◌>>=◌ (get payload "payload_kind") as_str)
            ≡ decision_payload_kind)
          × (decision_from_value payload ≡ ok decision))
  unfolding extract_from
  extract_from-ok_iff payload decision =
      let stated = unwrap_or_default (Json.◌>>=◌ (get payload "payload_kind") as_str) in
      let same = eq_iff stated decision_payload_kind in
      let guarded = unless-ok_iff (str_eq stated decision_payload_kind) _ _ decision in
      let read = map_err-ok_iff _ (decision_from_value payload) decision in
      (
        λ h. let (q, r) = guarded.0 h in (same.0 q, read.0 r),
        λ h. guarded.1 (same.1 h.0, read.1 h.1),
      )

  pub extract_decision_payload-ok_iff :
      (text : String) (decision : DecisionReceiptPayload Role)
      → (extract_decision_payload text ≡ ok decision) ↔ IsDecision text decision
  unfolding extract_decision_payload
  extract_decision_payload-ok_iff text decision = (
    λ h.
        let (value, made, rest) = >>=-eq-ok (map_err _ (from_str text)) _ h in
        let parsed = (map_err-ok_iff _ (from_str text) value).0 made in
        elim (Option-cases (get value "payload")) [
          | inl q ↦ cc (q, rest)
          | inr (payload, q) ↦
              let (one, reads) = (extract_from-ok_iff payload decision).0 (cc (q, rest)) in
              record {
                value = value;
                payload = payload;
                parsed = parsed;
                has_payload = q;
                has_kind = (kind_at_iff value payload decision_payload_kind q).0 one;
                reads = reads;
              }
        ],
    λ r.
        let one =
          (kind_at_iff r.value r.payload decision_payload_kind r.has_payload).1 r.has_kind in
        let made = (extract_from-ok_iff r.payload decision).1 (one, r.reads) in
        rw (r.parsed, r.has_payload) made,
  )
