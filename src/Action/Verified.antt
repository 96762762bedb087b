-- ===== src/Action/Verified.antt =====
-- The second phase of a typed action, protocol.go: a verifier looks at what was executed.
use provider_sdk.Action.{
  ActionExecution, ActionIdentity, check_binding, is_not_json, validate_execution,
}
use provider_sdk.Base.{
  Check, List, [], any, list_eq, nat_eq, reject, relabel, ℕ, ◌!=◌, ◌&&◌, ◌>>=◌, ◌>>◌, ◌||◌, ◌∷◌,
}
use provider_sdk.Capability.{ActionCapability}
use provider_sdk.Json.{Value}
use provider_sdk.Platform.{Encoder, PlainJson, Sha256, json_digest}
use provider_sdk.Requests.{Subject}
use provider_sdk.Selection.{selector_eq}
use provider_sdk.Text.{Text, bytes, is_blank}
use provider_sdk.Time.{is_zero_time}

pub record VerifyActionRequest : Type 0 where
  pub request_id : Text
  pub connection_id : Text
  pub provider : Text
  pub release : Text
  pub account_ref : Text
  pub configuration : Text
  pub subject : Subject
  pub capability_ref : Text
  pub capability_digest : Text
  pub action_id : Text
  pub action_digest : Text
  pub operation : Text
  pub resource : Text
  pub environment : Text
  pub parameters : Text
  pub execution : ActionExecution
  pub now : ℕ

abbrev pub verified_identities : VerifyActionRequest → List Text
verified_identities r =
    r.request_id ∷ r.connection_id ∷ r.provider ∷ r.release ∷ r.account_ref ∷ r.subject.tenant_id
    ∷ r.subject.actor_id ∷ r.subject.device_id ∷ r.subject.session_id ∷ r.subject.profile_id
    ∷ r.capability_ref ∷ r.action_id ∷ r.operation ∷ r.resource ∷ r.environment ∷ []

module _ ⦃h : Sha256⦄ ⦃p : PlainJson⦄ ⦃m : Encoder ActionIdentity⦄ ⦃k : Encoder ActionCapability⦄
    ⦃v : Encoder Value⦄ where
  -- `VerifyActionRequest.Validate`
  unfoldable pub validate_verify_request : VerifyActionRequest → ActionCapability → Check
  unfolding check_binding is_not_json validate_execution
  validate_verify_request r capability = do
    reject (any is_blank (verified_identities r)) "typed action verification identity is incomplete"
    check_binding r.capability_ref r.operation r.capability_digest r.action_digest r.resource
        r.environment r.parameters capability "typed action verification binding is invalid"
    reject
        (is_not_json r.configuration
          || is_not_json r.parameters
          || is_zero_time r.now
          || r.subject.account_ref != r.account_ref
          || r.subject.environment != r.environment)
        "typed action verification payload is invalid"
    relabel (validate_execution r.execution) "typed action verification payload is invalid"

pub record ActionVerification : Type 0 where
  pub state : Text
  pub verified_at : ℕ
  pub verifier_release : Text
  pub evidence : Text
  pub evidence_digest : Text

-- `ActionVerification.Validate`
unfoldable pub validate_verification :
    ⦃h : Sha256⦄ ⦃p : PlainJson⦄ ⦃v : Encoder Value⦄ → ActionVerification → Check
unfolding json_digest
validate_verification v = do
  reject (v.state != bytes "verified" && v.state != bytes "failed")
      "action verification state is invalid"
  reject (is_zero_time v.verified_at || is_blank v.verifier_release)
      "action verification identity is incomplete"
  digest ← relabel (json_digest v.evidence) "action verification evidence digest does not match"
  reject (digest != v.evidence_digest) "action verification evidence digest does not match"
