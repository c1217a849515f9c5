-- ===== src/Support.antt =====
-- What the pack verifiers of src/layered_pack.rs, src/decision_pack.rs and src/closure_bundle.rs
-- share: the support set of a receipt (`vertrule_schemas::SupportMember`, whose variants and fields
-- are those that the code matches), and the crates' part of reading one, as one record of parameters.
pub mod Reads
use Prim.Native.String.{◌++◌}
use vertrule_verifier.Prelude.{String, Option, none, List, [], ◌∷◌, Result, ok, err}
use vertrule_verifier.Json.{Value, get, as_str}
use vertrule_verifier.Json
use vertrule_verifier.External.{External}

pub data SupportMember (Role : Type 0) : Type 0 where
  typed_receipt_dependency :
      (event_hash : String) (role : Role) (target_schema : String) → SupportMember Role
  depended_on_receipt : (event_hash : String) → SupportMember Role
  evidence_digest : (id digest : String) → SupportMember Role
  cited_link : (id url : String) → SupportMember Role
  selector_value : (key : String) → SupportMember Role

-- `vertrule_schemas::DecisionVerdict`, whose fields the code does not read
pub data DecisionVerdict : Type 0 where
  allow deny conditional no_match : DecisionVerdict

-- The fields of `vertrule_schemas::DecisionReceiptPayload` that the code reads.
pub record DecisionReceiptPayload (Role : Type 0) : Type 0 where
  pub verdict : DecisionVerdict
  pub support_set : List (SupportMember Role)

-- `errors.join("; ")`
abbrev pub join : List String → String
join [] = ""
join (e ∷ []) = e
join (e ∷ es) = e ++ "; " ++ join es

module _ ⦃x : External⦄ where
  open x use {Number}

  pub record Packs : Type 1 where
    -- vertrule_schemas: the role of an edge, and the payload kinds
    pub Role : Type 0
    pub role_to_value : Role → Result String (Value Number)
    pub provider_payload_kind : String
    pub model_payload_kind : String
    pub pack_payload_kind : String
    pub decision_payload_kind : String
    pub support_set_from_value : Value Number → Result String (List (SupportMember Role))
    pub decision_from_value : Value Number → Result String (DecisionReceiptPayload Role)
    -- `{:?}` of a text, which quotes and escapes it
    pub debug_str : String → String

  -- `value.get("event_hash").and_then(Value::as_str)`
  abbrev pub read_event_hash : Value Number → Option String
  read_event_hash value = Json.◌>>=◌ (get value "event_hash") as_str

  -- `value.get("payload").and_then(|p| p.get(key))`
  abbrev pub payload_at : Value Number → String → Option (Value Number)
  payload_at value key = Json.◌>>=◌ (get value "payload") (λ p. get p key)

  abbrev pub read_payload_kind : Value Number → Option String
  read_payload_kind value = Json.◌>>=◌ (payload_at value "payload_kind") as_str

  module _ ⦃p : Packs⦄ where
    open p use {Role, role_to_value}

    -- `serde_json::to_value(role).ok().and_then(|v| v.as_str().map(String::from))`
    abbrev pub role_label : Role → Option String
    role_label role = elim (role_to_value role) [ ok v ↦ as_str v | err _ ↦ none ]
