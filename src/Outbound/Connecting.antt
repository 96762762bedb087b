-- ===== src/Outbound/Connecting.antt =====
-- `Dispatch.VerifyConnection` of connection_verification.go.
use provider_sdk.Base.{
  Result, err, hang, list_eq, nat_eq, ok, panic, reject, relabel, ℕ, ◌!=◌, ◌-◌, ◌>>=◌, ◌>>◌, ◌||◌,
}
use provider_sdk.Connections.{
  ConnectionVerificationResult, ConnectionVerificationService, verify_connection,
}
use provider_sdk.Json.{Tokenizer, Value}
use provider_sdk.Manifest.{Manifest, UrlParser, outbound_pull, transport_mode}
use provider_sdk.Platform.{Decoder, Encoder, PlainJson, Sha256, decode_strict}
use provider_sdk.Requests.{VerifyRequest}
use provider_sdk.Selection.{selector_eq}
use provider_sdk.Discovery.Service.{Surroundings}
use provider_sdk.Outbound.Discovering.{with_limit}
use provider_sdk.Outbound.Dispatched.{Dispatch, phase_verify_connection, validate_dispatch}

module _ ⦃urls : UrlParser⦄ ⦃m : Encoder Manifest⦄ ⦃h : Sha256⦄ ⦃p : PlainJson⦄ ⦃t : Tokenizer⦄
    ⦃v : Encoder Value⦄ ⦃q : Encoder VerifyRequest⦄ ⦃d : Decoder VerifyRequest⦄ {W : Type 0} where
  -- The checks of the dispatch, and the request that it carries.
  unfoldable pub open_verification :
      Dispatch → ConnectionVerificationService W → ℕ → Result VerifyRequest
  unfolding validate_dispatch
  open_verification dispatch s now = do
    validate_dispatch dispatch now
    reject
        (dispatch.phase != phase_verify_connection
          || transport_mode s.manifest.broker != outbound_pull)
        "not an outbound connection verification dispatch"
    request ←
        relabel (decode_strict dispatch.request)
          "connection verification dispatch identity mismatch"
    reject (request.connection_id != dispatch.connection_id)
        "connection verification dispatch identity mismatch"
    ok request

  unfoldable pub verify_opened :
      ConnectionVerificationService W
      → ℕ
      → Surroundings
      → W
      → ℕ
      → Result VerifyRequest
      → Result ConnectionVerificationResult × W
  unfolding verify_connection
  verify_opened s now env w left (ok request) =
      verify_connection s request now (with_limit env left) w
  verify_opened s now env w left (err message) = (err message, w)
  verify_opened s now env w left panic = (panic, w)
  verify_opened s now env w left hang = (hang, w)

  unfoldable pub verify_dispatched :
      Dispatch
      → ConnectionVerificationService W
      → ℕ
      → Surroundings
      → W
      → Result ConnectionVerificationResult × W
  unfolding open_verification verify_opened
  verify_dispatched dispatch s now env w =
      verify_opened s now env w (dispatch.expires_at - now) (open_verification dispatch s now)
