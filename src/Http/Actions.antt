-- ===== src/Http/Actions.antt =====
-- The two handlers of http.go for typed actions, which the handler has only with an implementation
-- of actions.
use provider_sdk.Http.Handlers.{HttpResponse, failure, serve}
use provider_sdk.Http.{Clock, Handler, Hmac, HttpRequest, Rfc3339, Seen, authenticate}
use provider_sdk.Base.{Option, Result, none, some, ℕ}
use provider_sdk.Action.{ActionExecution, ExecuteActionRequest, validate_execution}
use provider_sdk.Json.{Value}
use provider_sdk.Platform.{Decoder, Encoder, PlainJson, Sha256}
use provider_sdk.Text.{Text}
use provider_sdk.Action.Verified.{ActionVerification, VerifyActionRequest, validate_verification}

-- `ActionImplementation`, over the implementation's own state
pub record ActionImplementation (W : Type 0) : Type 0 where
  pub execute_action : W → ExecuteActionRequest → Result ActionExecution × W
  pub verify_action : W → VerifyActionRequest → Result ActionVerification × W

-- `h.Actions == nil`, found out after the request was authenticated and decoded.
abbrev pub without_actions : Option (Text × Text) → HttpResponse
without_actions none = failure 401 "unauthorized"
without_actions (some accepted) = failure 400 "invalid request"

module _ ⦃m : Hmac⦄ ⦃p : Rfc3339⦄ ⦃h : Sha256⦄ ⦃j : PlainJson⦄ ⦃v : Encoder Value⦄
    {W : Type 0} where
  unfoldable pub handle_execute_action :
      ⦃d : Decoder ExecuteActionRequest⦄ ⦃e : Encoder ActionExecution⦄
      → Handler
      → Option (ActionImplementation W)
      → HttpRequest
      → Clock
      → ℕ
      → Seen
      → W
      → HttpResponse × Seen × W
  unfolding serve
  handle_execute_action h none r c now seen w =
      let (accepted, seen') = authenticate h r c seen in (without_actions accepted, seen', w)
  handle_execute_action h (some actions) r c now seen w =
      serve h (λ q. q.release) actions.execute_action validate_execution
        "adapter returned invalid execution" r c now seen w

  unfoldable pub handle_verify_action :
      ⦃d : Decoder VerifyActionRequest⦄ ⦃e : Encoder ActionVerification⦄
      → Handler
      → Option (ActionImplementation W)
      → HttpRequest
      → Clock
      → ℕ
      → Seen
      → W
      → HttpResponse × Seen × W
  unfolding serve
  handle_verify_action h none r c now seen w =
      let (accepted, seen') = authenticate h r c seen in (without_actions accepted, seen', w)
  handle_verify_action h (some actions) r c now seen w =
      serve h (λ q. q.release) actions.verify_action validate_verification
        "adapter returned invalid verification" r c now seen w
