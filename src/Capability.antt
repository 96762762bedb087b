-- ===== src/Capability.antt =====
-- Action capabilities: manifest.go, with the discovery contract of discovery.go and the action
-- semantics of assessment.go.
use Prim.Native.String
use provider_sdk.Base.{
  Bool, Check, List, Option, Result, String, [], contains, err, false, is_empty, length, list_eq,
  ltb, nat_eq, none, not, ok, pass, reject, some, true, ◌!=◌, ◌==◌, ◌>>=◌, ◌>>◌, ◌||◌, ◌∷◌,
}
use provider_sdk.Json.{Value, obj, str}
use provider_sdk.Platform.{Encoder, Sha256, digest_of}
use provider_sdk.Selection.{selector_eq}
use provider_sdk.Text.{Text, bytes}
use provider_sdk.Json.Equality.{member_of}
use provider_sdk.Text.Patterns.{identity_pattern, operation_pattern}
use provider_sdk.Base.Int.{between, ℤ}

-- A schema of type `any`: what `json.Marshal` makes of it, if anything.
pub data Schema : Type 0 where
  unencodable : Schema
  encodes : Value → Schema

abbrev is_object_type : Option Value → Bool
is_object_type (some (str s)) = s == bytes "object"
is_object_type _ = false

-- `object["type"] != "object"` for the decoded object.
abbrev pub is_object_schema : Value → Bool
is_object_schema (obj ms) = is_object_type (member_of (bytes "type") ms)
is_object_schema _ = false

abbrev pub is_null : Value → Bool
is_null Value.null = true
is_null _ = false

-- `validateSchema`
unfoldable pub validate_schema : Schema → String → Check
validate_schema unencodable label = err (String.◌++◌ label " schema is invalid")
validate_schema (encodes v) label = do
  reject (is_null v) (String.◌++◌ label " schema is invalid")
  reject (not (is_object_schema v)) (String.◌++◌ label " schema must be a JSON object schema")

pub record ActionSemantics : Type 0 where
  pub protocol : Text
  pub effects : List Text

abbrev pub action_semantics_protocol : Text
action_semantics_protocol = bytes "misconfig.action-semantics/v1"

abbrev pub effect_read : Text
effect_read = bytes "read"

abbrev pub effect_write : Text
effect_write = bytes "write"

abbrev pub effect_unknown : Text
effect_unknown = bytes "unknown"

-- EffectDelete, EffectAccessChange, EffectDataExport, EffectCodeExecution, EffectAvailabilityChange
abbrev pub consequential_effects : List Text
consequential_effects =
    bytes "delete"
    ∷ bytes "access_change"
    ∷ bytes "data_export"
    ∷ bytes "code_execution"
    ∷ bytes "availability_change"
    ∷ []

abbrev pub action_effects : List Text
action_effects = effect_read ∷ effect_write ∷ effect_unknown ∷ consequential_effects

unfoldable pub check_effects : List Text → List Text → Check
check_effects seen [] = pass
check_effects seen (effect ∷ effects) = do
  reject (not (contains action_effects effect)) "action effect is unsupported"
  reject (contains seen effect) "action effect is duplicated"
  check_effects (effect ∷ seen) effects

-- `ActionSemantics.Validate`
unfoldable pub validate_semantics : ActionSemantics → Check
unfolding check_effects
validate_semantics s = do
  reject (s.protocol != action_semantics_protocol || is_empty s.effects || ltb 8 (length s.effects))
      "action semantics are missing or incompatible"
  check_effects [] s.effects

pub record ResourceDiscovery : Type 0 where
  pub protocol : Text
  pub maximum_page_size : ℤ
  pub maximum_age_seconds : ℤ

abbrev pub resource_discovery_protocol : Text
resource_discovery_protocol = bytes "misconfig.resource-discovery/v1"

-- `ResourceDiscovery.Validate`
unfoldable pub validate_discovery : ResourceDiscovery → Check
validate_discovery d =
    reject
      (d.protocol != resource_discovery_protocol
        || not (between 1 200 d.maximum_page_size)
        || not (between 1 300 d.maximum_age_seconds))
      "resource discovery contract is invalid"

pub record ActionCapability : Type 0 where
  pub ref : Text
  pub operation : Text
  pub maximum_ttl_seconds : ℤ
  pub reversible : Bool
  pub parameters_schema : Schema
  pub execution_schema : Schema
  pub verification_schema : Schema
  pub discovery : Option ResourceDiscovery
  pub semantics : Option ActionSemantics

abbrev pub optional {ℓ} : {A : Type ℓ} → (A → Check) → Option A → Check
optional check none = pass
optional check (some a) = check a

-- `ActionCapability.Validate`
unfoldable pub validate_capability : ActionCapability → Check
unfolding validate_semantics validate_discovery validate_schema
validate_capability a = do
  optional validate_semantics a.semantics
  optional validate_discovery a.discovery
  reject (not (identity_pattern a.ref) || not (operation_pattern a.operation))
      "action capability identity is invalid"
  reject (not (between 1 900 a.maximum_ttl_seconds)) "action capability authority ttl is invalid"
  validate_schema a.parameters_schema "action parameters"
  validate_schema a.execution_schema "action execution"
  validate_schema a.verification_schema "action verification"

-- `ActionCapabilityDigest`
unfoldable pub action_capability_digest :
    ⦃h : Sha256⦄ ⦃m : Encoder ActionCapability⦄ → ActionCapability → Result Text
unfolding validate_capability
action_capability_digest ⦃m⦄ action = do
  validate_capability action
  encoded ← m.marshal action
  ok (digest_of encoded)
