-- ===== src/Manifest.antt =====
-- manifest.go: the release manifest and its validation.
pub mod Signing
pub mod Entries
pub mod Transport
pub mod Published
use Prim.Native.String
use provider_sdk.Base.{
  Bool, Check, List, Option, [], all, contains, err, false, if◌then◌else◌, is_empty, is_present,
  leb, length, list_eq, ltb, nat_eq, none, not, pass, reject, some, ◌!=◌, ◌&&◌, ◌++◌, ◌==◌, ◌>>=◌,
  ◌>>◌, ◌||◌, ◌∷◌,
}
use provider_sdk.Authorization.{validate_authorization_features}
use provider_sdk.Capability.{ActionCapability, Schema, validate_capability, validate_schema}
use provider_sdk.Selection.{selector_eq}
use provider_sdk.Text.{Text, bytes, is_blank, trim_space}
use provider_sdk.Base.Int.{between, ℤ}
use provider_sdk.Text.Patterns.{
  digest_pattern, environment_pattern, executable_pattern, identity_pattern,
}

pub record Publisher : Type 0 where
  pub id : Text
  pub key_id : Text

pub record Compatibility : Type 0 where
  pub protocol : Text
  pub major : ℤ

pub record Credential : Type 0 where
  pub kind : Text
  pub maximum_ttl_seconds : ℤ
  pub revocation_semantics : Text
  pub payload_schema : Schema
  pub authorization_features : List Text
  pub lifetime_protocol : Text

pub record RendererArtifact : Type 0 where
  pub os : Text
  pub arch : Text
  pub digest : Text

pub record Renderer : Type 0 where
  pub protocol : Text
  pub executable : Text
  pub artifacts : List RendererArtifact
  pub sensitive_environment : List Text

pub record RuntimeArtifact : Type 0 where
  pub kind : Text
  pub reference : Text
  pub digest : Text

pub record Broker : Type 0 where
  pub protocol : Text
  pub transport : Text
  pub endpoint : Text
  pub runtime_artifacts : List RuntimeArtifact
  pub connection_verification : Text

pub record Manifest : Type 0 where
  pub protocol : Text
  pub publisher : Publisher
  pub compatibility : Compatibility
  pub release : Text
  pub provider : Text
  pub configuration_schema : Schema
  pub credential : Option Credential
  pub renderer : Option Renderer
  pub broker : Broker
  pub actions : List ActionCapability

abbrev pub manifest_protocol : Text
manifest_protocol = bytes "misconfig.provider-adapter/v2"

abbrev pub broker_protocol : Text
broker_protocol = bytes "misconfig.credential-broker/v2"

abbrev pub renderer_protocol : Text
renderer_protocol = bytes "misconfig.credential-renderer/v1"

abbrev pub inbound_https : Text
inbound_https = bytes "inbound-https"

abbrev pub outbound_pull : Text
outbound_pull = bytes "outbound-pull"

abbrev pub connection_verification_protocol : Text
connection_verification_protocol = bytes "misconfig.connection-verification/v1"

abbrev pub credential_lifetime_protocol : Text
credential_lifetime_protocol = bytes "misconfig.credential-lifetime/v1"

-- `Broker.TransportMode`
unfoldable pub transport_mode : Broker → Text
transport_mode b = if is_empty b.transport then inbound_https else b.transport

-- What `url.Parse` of net/url makes of an endpoint, as far as the sources look at it.
pub record Url : Type 0 where
  pub scheme : Text
  pub host : Text
  pub has_user : Bool
  pub raw_query : Text
  pub fragment : Text

pub record UrlParser : Type 0 where
  pub parse : Text → Option Url

-- `runtimeReferenceValid`: no rune above U+007F is refused, and such a rune has no byte below 0x80.
unfoldable pub runtime_reference_valid : Text → Bool
runtime_reference_valid value =
    let trimmed = trim_space value in
    not (is_empty trimmed || ltb 1024 (length trimmed))
    && all (λ b. not (leb b 0x20 || b == 0x7f)) trimmed

-- `ValidateCredentialLifetimeProtocol`
unfoldable pub validate_lifetime_protocol : Text → Check
validate_lifetime_protocol protocol =
    reject (not (is_empty protocol) && protocol != credential_lifetime_protocol)
      "credential lifetime protocol is incompatible"

-- The key `artifact.OS + "\x00" + artifact.Arch`
abbrev pub joined : Text → Text → Text
joined a b = a ++ (0 ∷ b)

unfoldable pub check_artifacts : List Text → List RendererArtifact → Check
check_artifacts seen [] = pass
check_artifacts seen (a ∷ artifacts) = do
  reject
      (not (executable_pattern a.os)
        || not (executable_pattern a.arch)
        || not (digest_pattern a.digest))
      "renderer artifact contract is invalid"
  reject (contains seen (joined a.os a.arch)) "renderer artifact platform is duplicated"
  check_artifacts (joined a.os a.arch ∷ seen) artifacts

unfoldable pub check_environment : List Text → List Text → Check
check_environment seen [] = pass
check_environment seen (name ∷ names) = do
  reject (not (environment_pattern name)) "renderer sensitive environment contract is invalid"
  reject (contains seen name) "renderer sensitive environment contract is duplicated"
  check_environment (name ∷ seen) names

unfoldable pub check_runtime_artifacts : List Text → List RuntimeArtifact → Check
unfolding runtime_reference_valid
check_runtime_artifacts seen [] = pass
check_runtime_artifacts seen (a ∷ artifacts) = do
  reject
      (not (identity_pattern a.kind)
        || not (runtime_reference_valid a.reference)
        || not (digest_pattern a.digest))
      "outbound runtime artifact contract is invalid"
  reject (contains seen (joined a.kind a.reference)) "outbound runtime artifact is duplicated"
  check_runtime_artifacts (joined a.kind a.reference ∷ seen) artifacts

unfoldable pub check_actions : List Text → List ActionCapability → Check
check_actions seen [] = pass
check_actions seen (action ∷ actions) = do
  validate_capability action
  reject (contains seen action.ref) "action capability is duplicated"
  check_actions (action.ref ∷ seen) actions

-- The part of `Manifest.Validate` under `m.Credential != nil`, the renderer being present too.
unfoldable pub check_credential : Credential → Renderer → Check
unfolding validate_lifetime_protocol check_artifacts check_environment
check_credential c r = do
  validate_lifetime_protocol c.lifetime_protocol
  validate_authorization_features c.authorization_features
  reject (not (identity_pattern c.kind)) "credential kind is invalid"
  reject (not (identity_pattern c.revocation_semantics)) "revocation semantics is invalid"
  reject (not (between 1 86400 c.maximum_ttl_seconds)) "maximum credential ttl is invalid"
  reject
      (r.protocol != renderer_protocol
        || not (executable_pattern r.executable)
        || is_empty r.artifacts)
      "renderer contract is invalid"
  check_artifacts [] r.artifacts
  check_environment [] r.sensitive_environment

-- The parity of credential and renderer, and the checks of both.
unfoldable pub check_issuance : Option Credential → Option Renderer → Check
unfolding check_credential
check_issuance none none = pass
check_issuance (some c) (some r) = check_credential c r
check_issuance none (some r) = err "credential and renderer contracts must be published together"
check_issuance (some c) none = err "credential and renderer contracts must be published together"

abbrev pub is_plain_https : Option Url → Bool
is_plain_https none = false
is_plain_https (some u) =
    u.scheme == bytes "https"
    && not (is_empty u.host)
    && not u.has_user
    && is_empty u.raw_query
    && is_empty u.fragment

module _ ⦃urls : UrlParser⦄ where
  unfoldable pub check_inbound : Broker → Check
  check_inbound b = do
    reject (not (is_plain_https (urls.parse b.endpoint)))
        "inbound broker endpoint must be an absolute https URL without credentials, query, or fragment"
    reject (not (is_empty b.runtime_artifacts))
        "inbound broker cannot publish outbound runtime artifacts"

unfoldable pub check_outbound : Broker → Check
unfolding check_runtime_artifacts
check_outbound b = do
  reject (not (is_blank b.endpoint) || is_empty b.runtime_artifacts)
      "outbound broker requires a signed runtime artifact and no inbound endpoint"
  check_runtime_artifacts [] b.runtime_artifacts

module _ ⦃urls : UrlParser⦄ where
  unfoldable pub check_broker : Broker → Check
  unfolding transport_mode check_inbound check_outbound
  check_broker b = do
    reject (b.protocol != broker_protocol) "broker protocol is invalid"
    reject
        (not (is_empty b.connection_verification)
          && b.connection_verification != connection_verification_protocol)
        "connection verification protocol is incompatible"
    reject (not (is_empty b.connection_verification) && transport_mode b != outbound_pull)
        "connection verification exchange requires outbound transport"
    if transport_mode b == inbound_https
        then check_inbound b
        else if transport_mode b == outbound_pull
        then check_outbound b
        else err "broker transport is invalid"

abbrev pub payload_schema_check : Option Credential → Check
payload_schema_check none = pass
payload_schema_check (some c) = validate_schema c.payload_schema "credential payload"

module _ ⦃urls : UrlParser⦄ where
  -- `Manifest.Validate`; the loops over a map of labels test their entries in a fixed order here.
  unfoldable pub validate_manifest : Manifest → Check
  unfolding check_issuance check_broker check_actions
  validate_manifest m = do
    reject
        (m.protocol != manifest_protocol
          || m.compatibility.protocol != manifest_protocol
          || not (between 2 2 m.compatibility.major))
        "provider adapter protocol is incompatible"
    reject (not (identity_pattern m.publisher.id)) "publisher id is invalid"
    reject (not (identity_pattern m.publisher.key_id)) "publisher key id is invalid"
    reject (not (identity_pattern m.release)) "release is invalid"
    reject (not (identity_pattern m.provider)) "provider is invalid"
    check_issuance m.credential m.renderer
    check_broker m.broker
    validate_schema m.configuration_schema "configuration"
    payload_schema_check m.credential
    check_actions [] m.actions
    reject (not (is_present m.credential) && is_empty m.actions)
        "provider release must publish credentials, actions, or both"

-- `SupportsCredentials`
unfoldable pub supports_credentials : Manifest → Bool
supports_credentials m = is_present m.credential && is_present m.renderer
