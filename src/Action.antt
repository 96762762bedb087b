-- ===== src/Action.antt =====
-- Typed actions: protocol.go. An action is bound by a digest to one capability, operation, resource,
-- environment and parameters, and an authority approves that digest for a short time.
pub mod Verified
pub mod Binding
use provider_sdk.Base.{
  Bool, Check, List, Result, String, [], any, err, if◌then◌else◌, is_empty, list_eq, nat_eq, none,
  not, ok, reject, relabel, some, ℕ, ◌!=◌, ◌*◌, ◌+◌, ◌>>=◌, ◌>>◌, ◌||◌, ◌∷◌,
}
use provider_sdk.Capability.{ActionCapability, action_capability_digest}
use provider_sdk.Json.{Value}
use provider_sdk.Platform.{Encoder, PlainJson, Sha256, digest_of, json_digest}
use provider_sdk.Requests.{Subject}
use provider_sdk.Selection.{selector_eq}
use provider_sdk.Text.{Text, is_blank}
use provider_sdk.Time.{is_after, is_before, is_zero_time, second, seconds}
use provider_sdk.Base.Int.{neg_part, ℤ}
use provider_sdk.Text.Patterns.{authorization_digest_pattern}

-- The struct that ActionDigest encodes.
pub record ActionIdentity : Type 0 where
  pub capability_digest : Text
  pub operation : Text
  pub resource : Text
  pub environment : Text
  pub parameters : Value

-- `len(parameters) == 0 || json.Unmarshal(parameters, &decoded) != nil`
unfoldable pub decode_parameters : ⦃p : PlainJson⦄ → Text → Result Value
decode_parameters ⦃p⦄ parameters =
    if is_empty parameters
    then err "typed action parameters are invalid"
    else elim (p.unmarshal parameters) [
      | none ↦ err "typed action parameters are invalid"
      | some v ↦ ok v
    ]

-- `ActionDigest`
unfoldable pub action_digest :
    ⦃h : Sha256⦄ ⦃p : PlainJson⦄ ⦃m : Encoder ActionIdentity⦄
    → Text
    → Text
    → Text
    → Text
    → Text
    → Result Text
unfolding decode_parameters
action_digest ⦃m⦄ capability_digest operation resource environment parameters = do
  reject
      (not (authorization_digest_pattern capability_digest)
        || is_blank operation
        || is_blank resource
        || is_blank environment)
      "typed action identity is incomplete"
  decoded ← decode_parameters parameters
  canonical ← m.marshal record {
    capability_digest = capability_digest;
    operation = operation;
    resource = resource;
    environment = environment;
    parameters = decoded;
  }
  ok (digest_of canonical)

pub record ActionAuthority : Type 0 where
  pub id : Text
  pub action_digest : Text
  pub capability_digest : Text
  pub approved_by : Text
  pub approved_at : ℕ
  pub expires_at : ℕ

-- `ActionAuthority.Validate`, with the maximum in seconds as its one caller has it; what a negative
-- maximum takes from `now` stands on the other side of the comparison
unfoldable pub validate_authority : ActionAuthority → ℕ → Text → Text → ℤ → Check
validate_authority a now action capability maximum_ttl_seconds =
    reject
      (is_blank a.id
        || is_blank a.approved_by
        || a.action_digest != action
        || a.capability_digest != capability
        || not (authorization_digest_pattern a.action_digest)
        || not (authorization_digest_pattern a.capability_digest)
        || is_zero_time a.approved_at
        || is_zero_time a.expires_at
        || is_before a.expires_at a.approved_at
        || not (is_after a.expires_at now)
        || is_after (a.expires_at + neg_part maximum_ttl_seconds * second)
            (now + seconds maximum_ttl_seconds + second))
      "action authority is invalid or expired"

pub record ExecuteActionRequest : Type 0 where
  pub request_id : Text
  pub connection_id : Text
  pub provider : Text
  pub release : Text
  pub account_ref : Text
  pub configuration : Text
  pub subject : Subject
  pub capability_ref : Text
  pub capability_digest : Text
  pub action_id : Text
  pub action_digest : Text
  pub operation : Text
  pub resource : Text
  pub environment : Text
  pub parameters : Text
  pub authority : ActionAuthority
  pub now : ℕ

-- The fields that the loops over the identities of a request visit.
abbrev pub identities : ExecuteActionRequest → List Text
identities r =
    r.request_id ∷ r.connection_id ∷ r.provider ∷ r.release ∷ r.account_ref ∷ r.subject.tenant_id
    ∷ r.subject.actor_id ∷ r.subject.device_id ∷ r.subject.session_id ∷ r.subject.profile_id
    ∷ r.capability_ref ∷ r.action_id ∷ r.operation ∷ r.resource ∷ r.environment ∷ []

module _ ⦃h : Sha256⦄ ⦃p : PlainJson⦄ ⦃m : Encoder ActionIdentity⦄
    ⦃k : Encoder ActionCapability⦄ where
  -- Both digests are computed before either error is looked at; they have no other effect.
  unfoldable pub check_binding :
      Text → Text → Text → Text → Text → Text → Text → ActionCapability → String → Check
  unfolding action_digest
  check_binding ref operation capability_digest given resource environment parameters capability
        message =
      do
        capability' ← relabel (action_capability_digest capability) message
        action' ←
            relabel (action_digest capability_digest operation resource environment parameters)
              message
        reject
            (ref != capability.ref
              || operation != capability.operation
              || capability_digest != capability'
              || given != action')
            message

  -- `len(b) == 0 || !json.Valid(b)`
  unfoldable pub is_not_json : Text → Bool
  is_not_json b = is_empty b || not (p.valid b)

  -- `ExecuteActionRequest.Validate`
  unfoldable pub validate_execute_request : ExecuteActionRequest → ActionCapability → Check
  unfolding check_binding is_not_json validate_authority
  validate_execute_request r capability = do
    reject (any is_blank (identities r)) "typed action request identity is incomplete"
    check_binding r.capability_ref r.operation r.capability_digest r.action_digest r.resource
        r.environment r.parameters capability "typed action capability binding is invalid"
    reject (is_not_json r.configuration || is_not_json r.parameters || is_zero_time r.now)
        "typed action request payload is invalid"
    reject (r.subject.account_ref != r.account_ref || r.subject.environment != r.environment)
        "typed action subject is outside the requested scope"
    validate_authority r.authority r.now r.action_digest r.capability_digest
        capability.maximum_ttl_seconds

pub record ActionExecution : Type 0 where
  pub provider_receipt : Text
  pub execution_identity : Text
  pub executed_at : ℕ
  pub output : Text
  pub output_digest : Text

-- `ActionExecution.Validate`
unfoldable pub validate_execution :
    ⦃h : Sha256⦄ ⦃p : PlainJson⦄ ⦃v : Encoder Value⦄ → ActionExecution → Check
unfolding json_digest
validate_execution e = do
  reject
      (is_blank e.provider_receipt || is_blank e.execution_identity || is_zero_time e.executed_at)
      "action execution identity is incomplete"
  digest ← relabel (json_digest e.output) "action execution output digest does not match"
  reject (digest != e.output_digest) "action execution output digest does not match"
