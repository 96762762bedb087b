-- ===== src/Http/Discovered.antt =====
-- Which requests reach the implementation of discovery through the handler.
use provider_sdk.Discovery.Called
use provider_sdk.Base.{
  Option, Result, err, hang, inl, inr, none, ok, panic, refl, some, ℕ, ◌∙◌, ◌≡◌, ◌⊎◌,
}
use provider_sdk.Capability.{ActionCapability}
use provider_sdk.Discovery.{DiscoveryRequest}
use provider_sdk.Http.{Clock, Handler, Hmac, HttpRequest, Rfc3339, Seen, authenticate}
use provider_sdk.Json.{Tokenizer, Value}
use provider_sdk.Manifest.{Manifest, UrlParser}
use provider_sdk.Platform.{Decoder, Encoder, PlainJson, Sha256, decode_strict}
use provider_sdk.Text.{Text}
use provider_sdk.Discovery.Called.{discover_resources-IsCalled}
use provider_sdk.Discovery.Page.{DiscoveryPage}
use provider_sdk.Discovery.Service.{DiscoveryService, Surroundings, discover_resources}
use provider_sdk.Http.Discoveries.{
  answer_discovery, handle_discover_resources, serve_accepted, serve_discovery,
}
use provider_sdk.Http.Window.{IsAuthentic, authenticate-IsAuthentic}

module _ ⦃m : Hmac⦄ ⦃r : Rfc3339⦄ ⦃h : Sha256⦄ ⦃p : PlainJson⦄ ⦃t : Tokenizer⦄
    ⦃k : Encoder ActionCapability⦄ ⦃v : Encoder Value⦄ ⦃e : Encoder DiscoveryRequest⦄
    ⦃urls : UrlParser⦄ ⦃n : Encoder Manifest⦄ ⦃d : Decoder DiscoveryRequest⦄
    ⦃b : Encoder DiscoveryPage⦄ {W : Type 0} (handler : Handler)
    (service : Option (DiscoveryService W)) (asked_at now : ℕ) (env : Surroundings) where
  answer_discovery_world :
      (nonce : Text) (result : Result DiscoveryPage × W)
      → (answer_discovery handler nonce now result).1 ≡ result.1
  unfolding answer_discovery
  answer_discovery_world nonce (ok page, w) = refl
  answer_discovery_world nonce (err message, w) = refl
  answer_discovery_world nonce (panic, w) = refl
  answer_discovery_world nonce (hang, w) = refl

  -- The service calls its implementation on an admitted request that the body decodes to.
  abbrev pub Asked : Text → W → W → Type 0
  Asked body w w' =
      (s : DiscoveryService W) × (q : DiscoveryRequest) × (service ≡ some s)
      × (decode_strict body ≡ ok q)
      × Called.IsCalled s q asked_at env w (discover_resources s q asked_at env w)
      × (w' ≡ (discover_resources s q asked_at env w).1)

  serve_discovery_world :
      (body nonce : Text) (o : Option (DiscoveryService W)) (q : Result DiscoveryRequest) (w : W)
      → service ≡ o
      → decode_strict body ≡ q
      → ((serve_discovery handler o nonce asked_at now env q w).1 ≡ w)
        ⊎ Asked body w (serve_discovery handler o nonce asked_at now env q w).1
  unfolding serve_discovery
  serve_discovery_world body nonce (some s) (ok q) w here decoded =
      let same = answer_discovery_world nonce (discover_resources s q asked_at env w) in
      elim (discover_resources-IsCalled s q asked_at env w) [
        | inl refused ↦ inl (same ∙ refused.unchanged)
        | inr called ↦ inr (s, q, here, decoded, called, same)
      ]
  serve_discovery_world body nonce (some s) (err message) w here decoded = inl refl
  serve_discovery_world body nonce (some s) panic w here decoded = inl refl
  serve_discovery_world body nonce (some s) hang w here decoded = inl refl
  serve_discovery_world body nonce none (ok q) w here decoded = inl refl
  serve_discovery_world body nonce none (err message) w here decoded = inl refl
  serve_discovery_world body nonce none panic w here decoded = inl refl
  serve_discovery_world body nonce none hang w here decoded = inl refl

  serve_accepted_world :
      (request : HttpRequest) (c : Clock) (seen : Seen) (accepted : Option (Text × Text)) (w : W)
      → (authenticate handler request c seen).0 ≡ accepted
      → ((serve_accepted handler service asked_at now env accepted w).1 ≡ w)
        ⊎ ((body : Text) × IsAuthentic handler request body c.checked_at
            × Asked body w (serve_accepted handler service asked_at now env accepted w).1)
  unfolding serve_accepted
  serve_accepted_world request c seen none w given = inl refl
  serve_accepted_world request c seen (some (body, nonce)) w given =
      let (authentic, _) = authenticate-IsAuthentic handler request c seen body nonce given in
      elim (serve_discovery_world body nonce service (decode_strict body) w refl refl) [
        | inl same ↦ inl same
        | inr asked ↦ inr (body, authentic, asked)
      ]

-- The discovery handler leaves the implementation alone, or the request is authentic, its body decodes
-- without remainder to a request that the handler's service admits, and the service calls the
-- implementation on it as it does for any admitted request.
pub handle_discover_resources-Asked :
    ⦃m : Hmac⦄ ⦃r : Rfc3339⦄ ⦃h : Sha256⦄ ⦃p : PlainJson⦄ ⦃t : Tokenizer⦄
    ⦃k : Encoder ActionCapability⦄ ⦃v : Encoder Value⦄ ⦃e : Encoder DiscoveryRequest⦄
    ⦃urls : UrlParser⦄ ⦃n : Encoder Manifest⦄ ⦃d : Decoder DiscoveryRequest⦄
    ⦃b : Encoder DiscoveryPage⦄ {W : Type 0} (handler : Handler)
    (service : Option (DiscoveryService W)) (asked_at now : ℕ) (env : Surroundings)
    (request : HttpRequest) (c : Clock) (seen : Seen) (w : W)
    → ((handle_discover_resources handler service request c asked_at now env seen w).2 ≡ w)
      ⊎ ((body : Text) × IsAuthentic handler request body c.checked_at
          × Asked handler service asked_at now env body w
              (handle_discover_resources handler service request c asked_at now env seen w).2)
unfolding handle_discover_resources
handle_discover_resources-Asked handler service asked_at now env request c seen w =
    serve_accepted_world handler service asked_at now env request c seen
      (authenticate handler request c seen).0 w refl
