-- ===== src/Http/Handlers.antt =====
-- The handlers and the client of http.go. An implementation is code of the user of this library: it
-- is a function of its own state, so that a theorem can tell whether it was called.
use provider_sdk.Http.{Clock, Handler, Hmac, HttpRequest, Rfc3339, Seen, authenticate, signature}
use provider_sdk.Base.{
  Check, Option, Result, String, if◌then◌else◌, is_ok, list_eq, nat_eq, none, ok, pass, some, ℕ,
  ◌!=◌,
}
use provider_sdk.Platform.{Decoder, Encoder, decode_strict}
use provider_sdk.Requests.{
  Connection, IssueRequest, Material, PrepareRequest, Verification, VerifyRequest,
}
use provider_sdk.Selection.{selector_eq}
use provider_sdk.Text.{Text}

-- `http.Error`, or the body that `respond` writes with its three headers of the protocol.
pub data HttpResponse : Type 0 where
  failure : ℕ → String → HttpResponse
  success : Text → Text → Text → Text → HttpResponse

module _ ⦃m : Hmac⦄ ⦃p : Rfc3339⦄ where
  -- `respond`: the digest, the timestamp and the signature before the body.
  unfoldable pub respond : {B : Type 0} ⦃e : Encoder B⦄ → Handler → Text → B → ℕ → HttpResponse
  respond ⦃e⦄ h nonce value now = elim (e.marshal value) [
    | ok body ↦
        success h.manifest_digest (p.format now)
          (signature h.shared_secret (p.format now) nonce body) body
    | _ ↦ failure 500 "adapter response failed"
  ]

  -- The answer of the implementation, checked and sent.
  unfoldable pub answer :
      {B : Type 0} ⦃e : Encoder B⦄
      → Handler
      → (B → Check)
      → String
      → Text
      → ℕ
      → Result B
      → HttpResponse
  unfolding respond
  answer h check complaint nonce now (ok response) =
      if is_ok (check response) then respond h nonce response now else failure 502 complaint
  answer h check complaint nonce now _ = failure 422 "adapter failed"

  module _ {W A B : Type 0} ⦃d : Decoder A⦄ ⦃e : Encoder B⦄ where
    unfoldable pub serve_decoded :
        Handler
        → (A → Text)
        → (W → A → Result B × W)
        → (B → Check)
        → String
        → Text
        → ℕ
        → Result A
        → W
        → HttpResponse × W
    unfolding answer
    serve_decoded h release call check complaint nonce now (ok request) w =
        if release request != h.release
        then (failure 400 "invalid request", w)
        else let (result, w') = call w request in (answer h check complaint nonce now result, w')
    serve_decoded h release call check complaint nonce now _ w = (failure 400 "invalid request", w)

    unfoldable pub serve_body :
        Handler
        → (A → Text)
        → (W → A → Result B × W)
        → (B → Check)
        → String
        → ℕ
        → Option (Text × Text)
        → W
        → HttpResponse × W
    unfolding serve_decoded
    serve_body h release call check complaint now none w = (failure 401 "unauthorized", w)
    serve_body h release call check complaint now (some (body, nonce)) w =
        serve_decoded h release call check complaint nonce now (decode_strict body) w

    -- What the handlers have in common, on the state of the implementation and the nonces met.
    unfoldable pub serve :
        Handler
        → (A → Text)
        → (W → A → Result B × W)
        → (B → Check)
        → String
        → HttpRequest
        → Clock
        → ℕ
        → Seen
        → W
        → HttpResponse × Seen × W
    unfolding serve_body
    serve h release call check complaint r c now seen w =
        let (accepted, seen') = authenticate h r c seen in
        let (response, w') = serve_body h release call check complaint now accepted w in
        (response, seen', w')

-- `BrokerImplementation`, over the implementation's own state
pub record BrokerImplementation (W : Type 0) : Type 0 where
  pub prepare : W → PrepareRequest → Result Connection × W
  pub verify : W → VerifyRequest → Result Verification × W
  pub issue : W → IssueRequest → Result Material × W

module _ ⦃m : Hmac⦄ ⦃p : Rfc3339⦄ {W : Type 0} where
  unfoldable pub handle_prepare :
      ⦃d : Decoder PrepareRequest⦄ ⦃e : Encoder Connection⦄
      → Handler
      → BrokerImplementation W
      → HttpRequest
      → Clock
      → ℕ
      → Seen
      → W
      → HttpResponse × Seen × W
  unfolding serve
  handle_prepare h i = serve h (λ q. q.release) i.prepare (λ _. pass) ""

  unfoldable pub handle_verify :
      ⦃d : Decoder VerifyRequest⦄ ⦃e : Encoder Verification⦄
      → Handler
      → BrokerImplementation W
      → HttpRequest
      → Clock
      → ℕ
      → Seen
      → W
      → HttpResponse × Seen × W
  unfolding serve
  handle_verify h i = serve h (λ q. q.release) i.verify (λ _. pass) ""

  unfoldable pub handle_issue :
      ⦃d : Decoder IssueRequest⦄ ⦃e : Encoder Material⦄
      → Handler
      → BrokerImplementation W
      → HttpRequest
      → Clock
      → ℕ
      → Seen
      → W
      → HttpResponse × Seen × W
  unfolding serve
  handle_issue h i = serve h (λ q. q.release) i.issue (λ _. pass) ""
