-- ===== src/Http/Calls.antt =====
-- The five calls of HTTPClient in http.go, besides that of discovery.
use provider_sdk.Http.Client.{HttpClient, HttpReply, call}
use provider_sdk.Base.{Result, ℕ}
use provider_sdk.Action.{ActionExecution, ExecuteActionRequest}
use provider_sdk.Http.{Hmac, HttpRequest, Rfc3339}
use provider_sdk.Platform.{Decoder, Encoder}
use provider_sdk.Requests.{
  Connection, IssueRequest, Material, PrepareRequest, Verification, VerifyRequest,
}
use provider_sdk.Text.{Text, bytes}
use provider_sdk.Action.Verified.{ActionVerification, VerifyActionRequest}

-- The client, the transport of bytes, the outcome of the nonce and the two readings of the clock.
module _ ⦃m : Hmac⦄ ⦃p : Rfc3339⦄ (c : HttpClient) (send : Text → HttpRequest → Result HttpReply)
    (nonce : Result Text) (sent_at received_at : ℕ) where
  unfoldable pub client_prepare :
      ⦃e : Encoder PrepareRequest⦄ ⦃d : Decoder Connection⦄ → PrepareRequest → Result Connection
  unfolding call
  client_prepare request = call c send nonce sent_at received_at (bytes "/v1/prepare") request

  unfoldable pub client_verify :
      ⦃e : Encoder VerifyRequest⦄ ⦃d : Decoder Verification⦄ → VerifyRequest → Result Verification
  unfolding call
  client_verify request = call c send nonce sent_at received_at (bytes "/v1/verify") request

  unfoldable pub client_issue :
      ⦃e : Encoder IssueRequest⦄ ⦃d : Decoder Material⦄ → IssueRequest → Result Material
  unfolding call
  client_issue request = call c send nonce sent_at received_at (bytes "/v1/issue") request

  unfoldable pub client_execute_action :
      ⦃e : Encoder ExecuteActionRequest⦄ ⦃d : Decoder ActionExecution⦄
      → ExecuteActionRequest
      → Result ActionExecution
  unfolding call
  client_execute_action request =
      call c send nonce sent_at received_at (bytes "/v1/actions/execute") request

  unfoldable pub client_verify_action :
      ⦃e : Encoder VerifyActionRequest⦄ ⦃d : Decoder ActionVerification⦄
      → VerifyActionRequest
      → Result ActionVerification
  unfolding call
  client_verify_action request =
      call c send nonce sent_at received_at (bytes "/v1/actions/verify") request
