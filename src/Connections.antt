-- ===== src/Connections.antt =====
-- connection_verification.go: a provider proves which target a connection reaches.
pub mod Evidence
pub mod Verified
use provider_sdk.Base.{
  Check, List, Option, Result, String, [], any, err, hang, is_present, length, list_eq, ltb, nat_eq,
  none, not, ok, panic, pass, reject, relabel, some, ℕ, ◌!=◌, ◌*◌, ◌+◌, ◌-◌, ◌>>=◌, ◌>>◌, ◌||◌, ◌∷◌,
}
use provider_sdk.Manifest.Signing
use provider_sdk.Json.{Tokenizer, Value, decode_parameter_json}
use provider_sdk.Manifest.{Manifest, UrlParser, connection_verification_protocol}
use provider_sdk.Platform.{Encoder, PlainJson, Sha256}
use provider_sdk.Requests.{VerifyRequest}
use provider_sdk.Selection.{selector_eq}
use provider_sdk.Text.{Text, is_blank}
use provider_sdk.Time.{is_after, is_before, is_zero_time, minute, second}
use provider_sdk.Discovery.Service.{Surroundings, shortened, unless_ended}
use provider_sdk.Outbound.Dispatched.{dispatch_request_digest, phase_verify_connection}
use provider_sdk.Text.Patterns.{digest_pattern}

pub record ConnectionVerificationResult : Type 0 where
  pub protocol : Text
  pub request_digest : Text
  pub target_identity : Text
  pub verified_at : ℕ
  pub evidence_digest : Text

-- `connectionVerificationAge`
abbrev pub verification_age : ℕ
verification_age = minute

abbrev pub request_identities : VerifyRequest → List Text
request_identities r = r.request_id ∷ r.tenant_id ∷ r.connection_id ∷ r.account_ref ∷ []

-- `ConnectionVerificationImplementation`, over its own state and with the time that is left to it
abbrev pub ConnectionVerifier : Type 0 → Type 0
ConnectionVerifier W = W → ℕ → VerifyRequest → Result ConnectionVerificationResult × W

pub record ConnectionVerificationService (W : Type 0) : Type 0 where
  pub manifest : Manifest
  pub manifest_digest : Text
  pub implementation : Option (ConnectionVerifier W)

module _ ⦃t : Tokenizer⦄ where
  -- `ValidateConnectionVerificationRequest`
  unfoldable pub validate_verification_request : VerifyRequest → Manifest → ℕ → Check
  validate_verification_request r manifest now = do
    reject
        (manifest.broker.connection_verification != connection_verification_protocol
          || r.provider != manifest.provider
          || r.release != manifest.release)
        "connection verification release is not supported"
    reject (any is_blank (request_identities r)) "connection verification identity is incomplete"
    reject
        (is_zero_time now
          || is_zero_time r.now
          || is_after r.now (now + 30 * second)
          || not (is_after (r.now + verification_age) now))
        "connection verification request is stale or future dated"
    relabel (decode_parameter_json r.configuration >>= λ _. pass)
        "connection configuration is invalid"

module _ ⦃h : Sha256⦄ ⦃p : PlainJson⦄ ⦃t : Tokenizer⦄ ⦃v : Encoder Value⦄
    ⦃q : Encoder VerifyRequest⦄ where
  -- `VerifyConnectionRequestDigest`
  unfoldable pub verify_connection_request_digest : VerifyRequest → Result Text
  unfolding dispatch_request_digest
  verify_connection_request_digest r = do
    encoded ← q.marshal r
    dispatch_request_digest phase_verify_connection encoded

  -- `ConnectionVerificationResult.Validate`; `Before(request.Now.Add(-30s))` with the seconds on the
  -- other side.
  unfoldable pub validate_verification_result :
      ConnectionVerificationResult → VerifyRequest → ℕ → Check
  unfolding verify_connection_request_digest
  validate_verification_result r request now = do
    digest ←
        relabel (verify_connection_request_digest request)
          "connection verification result does not bind the requested target"
    reject
        (r.protocol != connection_verification_protocol
          || r.request_digest != digest
          || not (digest_pattern r.evidence_digest)
          || is_blank r.target_identity
          || ltb 2048 (length r.target_identity))
        "connection verification result does not bind the requested target"
    reject
        (is_zero_time now
          || is_zero_time request.now
          || is_zero_time r.verified_at
          || is_before (r.verified_at + 30 * second) request.now
          || is_after r.verified_at (now + 30 * second)
          || not (is_after (request.now + verification_age) now))
        "connection verification result is stale or future dated"

  -- What an implementation returned, if the context still stands and the result is valid.
  unfoldable pub accept_result :
      VerifyRequest
      → ℕ
      → Option String
      → Result ConnectionVerificationResult
      → Result ConnectionVerificationResult
  unfolding validate_verification_result
  accept_result request now ended answer = do
    result ← answer
    unless_ended ended
    validate_verification_result result request now
    ok result

  module _ ⦃urls : UrlParser⦄ ⦃m : Encoder Manifest⦄ {W : Type 0} where
    -- What precedes the call of the implementation.
    unfoldable pub admit_verification :
        ConnectionVerificationService W → VerifyRequest → ℕ → Option String → Check
    unfolding Signing.manifest_digest validate_verification_request
    admit_verification s request now cancelled = do
      digest ←
          relabel (Signing.manifest_digest s.manifest)
            "connection verification service release is invalid"
      reject (digest != s.manifest_digest || not (is_present s.implementation))
          "connection verification service release is invalid"
      validate_verification_request request s.manifest now
      unless_ended cancelled

    -- Without an implementation the service was refused before.
    unfoldable pub call_present :
        Option (ConnectionVerifier W)
        → VerifyRequest
        → ℕ
        → Surroundings
        → W
        → Result ConnectionVerificationResult × W
    unfolding accept_result
    call_present none request now env w = (panic, w)
    call_present (some verifier) request now env w =
        let left = shortened env.allowed ((request.now + verification_age) - now) in
        let (answer, w') = verifier w left request in
        (accept_result request (now + env.elapsed) env.ended answer, w')

    unfoldable pub call_verifier :
        Option (ConnectionVerifier W)
        → VerifyRequest
        → ℕ
        → Surroundings
        → W
        → Check
        → Result ConnectionVerificationResult × W
    unfolding call_present
    call_verifier i request now env w (ok _) = call_present i request now env w
    call_verifier i request now env w (err message) = (err message, w)
    call_verifier i request now env w panic = (panic, w)
    call_verifier i request now env w hang = (hang, w)

    -- `ConnectionVerificationService.VerifyConnection`
    unfoldable pub verify_connection :
        ConnectionVerificationService W
        → VerifyRequest
        → ℕ
        → Surroundings
        → W
        → Result ConnectionVerificationResult × W
    unfolding admit_verification call_verifier
    verify_connection s request now env w =
        call_verifier s.implementation request now env w
          (admit_verification s request now env.cancelled)
