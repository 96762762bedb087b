-- ===== src/Outbound/Dispatched.antt =====
-- Dispatches of outbound.go: work that a runtime claimed, bound to its request by a digest.
use provider_sdk.Base.{
  Check, Result, contains, if◌then◌else◌, list_eq, nat_eq, not, ok, reject, relabel, ℕ, ◌!=◌, ◌&&◌,
  ◌>>=◌, ◌>>◌, ◌||◌,
}
use provider_sdk.Json.{Tokenizer, Value, decode_parameter_json}
use provider_sdk.Outbound.{outbound_phases, outbound_runtime_protocol}
use provider_sdk.Platform.{Encoder, PlainJson, Sha256, digest_of, json_digest}
use provider_sdk.Selection.{selector_eq}
use provider_sdk.Text.{Text, bytes, is_blank}
use provider_sdk.Time.{is_after, is_before, is_zero_time}
use provider_sdk.Json.Canonical.{canonical_value}

abbrev pub phase_discover_resources : Text
phase_discover_resources = bytes "discover_resources"

abbrev pub phase_verify_connection : Text
phase_verify_connection = bytes "verify_connection"

-- The payload by which a runtime claims work.
pub record DispatchClaim : Type 0 where
  pub protocol : Text
  pub connection_id : Text
  pub runtime_id : Text

pub record Dispatch : Type 0 where
  pub protocol : Text
  pub id : Text
  pub connection_id : Text
  pub phase : Text
  pub request : Text
  pub request_digest : Text
  pub claim_token : Text
  pub claimed_at : ℕ
  pub expires_at : ℕ

module _ ⦃h : Sha256⦄ ⦃p : PlainJson⦄ ⦃t : Tokenizer⦄ ⦃v : Encoder Value⦄ where
  -- The digest with exact numbers, for the two newer phases.
  unfoldable pub exact_request_digest : Text → Result Text
  exact_request_digest request = do
    decoded ← decode_parameter_json request
    encoded ← v.marshal (canonical_value decoded)
    ok (digest_of encoded)

  -- `DispatchRequestDigest`
  unfoldable pub dispatch_request_digest : Text → Text → Result Text
  unfolding exact_request_digest json_digest
  dispatch_request_digest phase request =
      if phase != phase_discover_resources && phase != phase_verify_connection
      then json_digest request
      else exact_request_digest request

  -- `Dispatch.Validate`
  unfoldable pub validate_dispatch : Dispatch → ℕ → Check
  unfolding dispatch_request_digest
  validate_dispatch d now = do
    reject
        (d.protocol != outbound_runtime_protocol
          || is_blank d.id
          || is_blank d.connection_id
          || is_blank d.claim_token
          || is_zero_time d.claimed_at
          || is_zero_time d.expires_at
          || not (is_after d.expires_at now)
          || is_before d.expires_at d.claimed_at)
        "outbound dispatch identity or lifetime is invalid"
    reject (not (contains outbound_phases d.phase)) "outbound dispatch phase is invalid"
    digest ←
        relabel (dispatch_request_digest d.phase d.request)
          "outbound dispatch request digest does not match"
    reject (digest != d.request_digest) "outbound dispatch request digest does not match"
