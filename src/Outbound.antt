-- ===== src/Outbound.antt =====
-- outbound.go: the registration of an adapter that pulls its work, and the results that it returns.
pub mod Claimed
pub mod Discovered
pub mod Verified
pub mod Admission
pub mod Dispatched
pub mod Discovering
pub mod Connecting
pub mod Outcome
use provider_sdk.Base.{
  Check, List, [], contains, err, if◌then◌else◌, is_empty, list_eq, nat_eq, not, pass, reject,
  relabel, ℕ, ◌!=◌, ◌==◌, ◌>>=◌, ◌>>◌, ◌||◌, ◌∷◌,
}
use provider_sdk.Json.{Value}
use provider_sdk.Manifest.{Manifest, RuntimeArtifact, outbound_pull, transport_mode}
use provider_sdk.Platform.{Encoder, PlainJson, Sha256, json_digest}
use provider_sdk.Selection.{selector_eq}
use provider_sdk.Text.{Text, bytes, is_blank}
use provider_sdk.Time.{is_zero_time}
use provider_sdk.Text.Patterns.{authorization_digest_pattern, digest_pattern}

abbrev pub outbound_runtime_protocol : Text
outbound_runtime_protocol = bytes "misconfig.provider-runtime/v1"

abbrev pub outbound_phases : List Text
outbound_phases =
    bytes "issue_credential"
    ∷ bytes "execute_action"
    ∷ bytes "verify_action"
    ∷ bytes "discover_resources"
    ∷ bytes "verify_connection"
    ∷ []

pub record RuntimeRegistration : Type 0 where
  pub protocol : Text
  pub connection_id : Text
  pub provider : Text
  pub release : Text
  pub manifest_digest : Text
  pub runtime_artifact_digest : Text
  pub runtime_id : Text

-- The loop over the artifacts of the release.
unfoldable pub find_artifact : Text → List RuntimeArtifact → Check
find_artifact digest [] = err "outbound runtime artifact is not admitted by the signed release"
find_artifact digest (artifact ∷ artifacts) =
    let rest = find_artifact digest artifacts in if artifact.digest == digest then pass else rest

-- `RuntimeRegistration.Validate`
unfoldable pub validate_registration : RuntimeRegistration → Manifest → Text → Check
unfolding find_artifact
validate_registration r manifest digest = do
  reject
      (r.protocol != outbound_runtime_protocol
        || transport_mode manifest.broker != outbound_pull
        || r.provider != manifest.provider
        || r.release != manifest.release
        || r.manifest_digest != digest
        || is_blank r.connection_id
        || is_blank r.runtime_id
        || not (digest_pattern r.runtime_artifact_digest))
      "outbound runtime registration identity is invalid"
  find_artifact r.runtime_artifact_digest manifest.broker.runtime_artifacts

pub record DispatchResult : Type 0 where
  pub protocol : Text
  pub dispatch_id : Text
  pub connection_id : Text
  pub runtime_id : Text
  pub phase : Text
  pub request_digest : Text
  pub claim_token : Text
  pub response : Text
  pub response_digest : Text
  pub failure_text : Text
  pub completed_at : ℕ

-- `DispatchResult.Validate`; `failure_text` is the field `Failure`.
unfoldable pub validate_result :
    ⦃h : Sha256⦄ ⦃p : PlainJson⦄ ⦃v : Encoder Value⦄ → DispatchResult → Check
unfolding json_digest
validate_result r = do
  reject
      (r.protocol != outbound_runtime_protocol
        || is_blank r.dispatch_id
        || is_blank r.connection_id
        || is_blank r.runtime_id
        || is_blank r.claim_token
        || not (authorization_digest_pattern r.request_digest)
        || is_zero_time r.completed_at)
      "outbound dispatch result identity is invalid"
  reject (not (contains outbound_phases r.phase)) "outbound dispatch result phase is invalid"
  if not (is_blank r.failure_text)
      then reject (not (is_empty r.response) || not (is_blank r.response_digest))
          "failed outbound dispatch cannot include a response"
      else (do
        digest ← relabel (json_digest r.response) "outbound dispatch response digest does not match"
        reject (digest != r.response_digest) "outbound dispatch response digest does not match")
