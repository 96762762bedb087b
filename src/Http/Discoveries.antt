-- ===== src/Http/Discoveries.antt =====
-- The client's and the handler's side of discovery: discovery_transport.go.
use provider_sdk.Http.{Clock, Handler, Hmac, HttpRequest, Rfc3339, Seen, authenticate}
use provider_sdk.Http.Client.{HttpClient, HttpReply, call}
use provider_sdk.Http.Handlers.{HttpResponse, failure, respond}
use provider_sdk.Base.{
  Option, Result, list_eq, nat_eq, none, ok, reject, some, ℕ, ◌!=◌, ◌>>=◌, ◌>>◌, ◌||◌,
}
use provider_sdk.Capability.{ActionCapability}
use provider_sdk.Discovery.{DiscoveryRequest}
use provider_sdk.Json.{Tokenizer, Value}
use provider_sdk.Manifest.{Manifest, UrlParser}
use provider_sdk.Platform.{Decoder, Encoder, PlainJson, Sha256, decode_strict}
use provider_sdk.Selection.{selector_eq}
use provider_sdk.Text.{Text, bytes}
use provider_sdk.Discovery.Page.{DiscoveryPage, validate_page}
use provider_sdk.Discovery.Service.{
  DiscoveryService, Surroundings, discover_resources, validate_discovery_at,
}

module _ ⦃m : Hmac⦄ ⦃r : Rfc3339⦄ ⦃h : Sha256⦄ ⦃p : PlainJson⦄ ⦃t : Tokenizer⦄
    ⦃k : Encoder ActionCapability⦄ ⦃v : Encoder Value⦄ ⦃e : Encoder DiscoveryRequest⦄ where
  -- `HTTPClient.DiscoverResources`: its two readings of the clock stand around the two of `call`.
  unfoldable pub client_discover :
      ⦃d : Decoder DiscoveryPage⦄
      → HttpClient
      → (Text → HttpRequest → Result HttpReply)
      → Result Text
      → (ℕ × ℕ × ℕ × ℕ)
      → DiscoveryRequest
      → ActionCapability
      → Result DiscoveryPage
  unfolding validate_discovery_at validate_page call
  client_discover c send nonce (checked_at, sent_at, received_at, accepted_at) request capability =
      do
        reject (request.release != c.release || request.manifest_digest != c.manifest_digest)
            "discovery client release does not match"
        validate_discovery_at request capability checked_at
        response ← call c send nonce sent_at received_at (bytes "/v1/resources/discover") request
        validate_page response request capability accepted_at
        ok response

  module _ ⦃urls : UrlParser⦄ ⦃n : Encoder Manifest⦄ ⦃d : Decoder DiscoveryRequest⦄
      ⦃b : Encoder DiscoveryPage⦄ {W : Type 0} where
    unfoldable pub answer_discovery :
        Handler → Text → ℕ → Result DiscoveryPage × W → HttpResponse × W
    unfolding respond
    answer_discovery handler nonce now (ok page, w) = (respond handler nonce page now, w)
    answer_discovery handler nonce now (_, w) = (failure 422 "discovery refused", w)

    unfoldable pub serve_discovery :
        Handler
        → Option (DiscoveryService W)
        → Text
        → ℕ
        → ℕ
        → Surroundings
        → Result DiscoveryRequest
        → W
        → HttpResponse × W
    unfolding answer_discovery discover_resources
    serve_discovery handler (some s) nonce asked_at now env (ok request) w =
        answer_discovery handler nonce now (discover_resources s request asked_at env w)
    serve_discovery handler _ nonce asked_at now env _ w = (failure 400 "invalid request", w)

    unfoldable pub serve_accepted :
        Handler
        → Option (DiscoveryService W)
        → ℕ
        → ℕ
        → Surroundings
        → Option (Text × Text)
        → W
        → HttpResponse × W
    unfolding serve_discovery
    serve_accepted handler s asked_at now env none w = (failure 401 "unauthorized", w)
    serve_accepted handler s asked_at now env (some (body, nonce)) w =
        serve_discovery handler s nonce asked_at now env (decode_strict body) w

    -- `handleDiscoverResources`: `asked_at` and `now` are the readings for the service and the answer.
    unfoldable pub handle_discover_resources :
        Handler
        → Option (DiscoveryService W)
        → HttpRequest
        → Clock
        → ℕ
        → ℕ
        → Surroundings
        → Seen
        → W
        → HttpResponse × Seen × W
    unfolding serve_accepted
    handle_discover_resources handler s request c asked_at now env seen w =
        let (accepted, seen') = authenticate handler request c seen in
        let (response, w') = serve_accepted handler s asked_at now env accepted w in
        (response, seen', w')
