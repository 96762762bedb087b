-- ===== src/Witnesses/Nonces.antt =====
-- Examples of a running handler and of its start.
use provider_sdk.Base.{
  List, [], ap, arith, err, false, list_beq, none, ok, refl, some, sym, ℕ, ◌*◌, ◌∙◌, ◌∷◌, ◌≡◌, ◌≢◌,
}
use provider_sdk.Witnesses.Listings
use provider_sdk.Witnesses.Releases
use provider_sdk.Witnesses.Transport.{
  agreed, at_1000, at_900, client, clock, handler, hello, hello_nonce, in_step,
}
use provider_sdk.Http.{authenticate}
use provider_sdk.Manifest.{Manifest, validate_manifest}
use provider_sdk.Text.{Text, bytes, is_blank}
use provider_sdk.Time.{second}
use provider_sdk.Witnesses.{flat_encoder, flat_sha256, plain_hmac, plain_rfc3339}
use provider_sdk.Discovery.Service.{Discoverer}
use provider_sdk.Http.Client.{signed_request}
use provider_sdk.Http.Handlers.{BrokerImplementation}
use provider_sdk.Http.Progress.{authenticate-after_others}
use provider_sdk.Http.Refinement.{accepted-logged, accepted_all, logged_all}
use provider_sdk.Http.Replay.{authenticate_all}
use provider_sdk.Http.Routes.{
  HttpHandler, Route, or_no_nonces, start_handler, to_discover, to_issue, to_prepare, to_verify,
}
use provider_sdk.Http.Started.{IsStarted, start_handler-IsStarted}
use provider_sdk.Authorization.{validate_authorization_features}
use provider_sdk.Capability.{validate_capability, validate_schema}
use provider_sdk.Platform.{digest_of}
use provider_sdk.Text.Patterns.{
  digest_pattern, environment_pattern, executable_pattern, identity_pattern, operation_pattern,
}

accepted-logged_example :
    accepted_all ⦃m = plain_hmac⦄ ⦃p = plain_rfc3339⦄ handler
      ((hello, at_900) ∷ (hello, at_1000) ∷ (hello, clock (1100 * second)) ∷ [])
      []
    ≡ logged_all ⦃m = plain_hmac⦄ ⦃p = plain_rfc3339⦄ handler
        ((hello, at_900) ∷ (hello, at_1000) ∷ (hello, clock (1100 * second)) ∷ [])
        []
accepted-logged_example =
    accepted-logged ⦃m = plain_hmac⦄ ⦃p = plain_rfc3339⦄ handler
      ((hello, at_900) ∷ (hello, at_1000) ∷ (hello, clock (1100 * second)) ∷ [])
      (omega arith, (omega arith, (omega arith, tt)))

abbrev second_byte : Text → ℕ
second_byte (a ∷ b ∷ s) = b
second_byte _ = 0

other_nonce : hello.nonce ≢ bytes "n2"
other_nonce e =
    let apart : second_byte (bytes "n1") ≡ second_byte (bytes "n2") =
      ap second_byte (sym hello_nonce ∙ e) in
    absurd (omega (arith, apart))

filled_n2 : is_blank (bytes "n2") ≡ false
unfolding is_blank
filled_n2 = refl

authenticate-after_others_example :
    (authenticate ⦃h = plain_hmac⦄ ⦃p = plain_rfc3339⦄ handler
      (signed_request ⦃m = plain_hmac⦄ ⦃p = plain_rfc3339⦄ client
        (bytes "n2")
        (bytes "{}")
        (1000 * second))
      (clock (1010 * second))
      (authenticate_all ⦃m = plain_hmac⦄ ⦃p = plain_rfc3339⦄ handler ((hello, at_1000) ∷ []) [])).0
    ≡ some (bytes "{}", bytes "n2")
authenticate-after_others_example =
    authenticate-after_others ⦃m = plain_hmac⦄ ⦃p = plain_rfc3339⦄ client handler (bytes "n2")
      (bytes "{}") (1000 * second) (clock (1010 * second)) ((hello, at_1000) ∷ []) (other_nonce, tt)
      agreed in_step filled_n2 (omega arith)

abbrev inbound : Manifest
inbound = record Releases.release { actions = Listings.browse ∷ [] }

abbrev idle_broker : BrokerImplementation ℕ
idle_broker = record {
  prepare = λ n q. (err "idle", n);
  verify = λ n q. (err "idle", n);
  issue = λ n q. (err "idle", n);
}

abbrev idle_lister : Discoverer ℕ
idle_lister n left request = (err "idle", n)

abbrev http_handler : HttpHandler ℕ
http_handler = record {
  settings = handler;
  implementation = some idle_broker;
  actions = none;
  discovery = some record {
    manifest = inbound;
    manifest_digest = Listings.digest;
    implementation = some idle_lister;
  };
  seen = none;
}

abbrev started_routes : List (Text × Route)
started_routes =
    (bytes "POST /v1/prepare", to_prepare)
    ∷ (bytes "POST /v1/verify", to_verify)
    ∷ (bytes "POST /v1/issue", to_issue)
    ∷ (bytes "POST /v1/resources/discover", to_discover)
    ∷ []

starts :
    start_handler ⦃urls = Releases.https_parser⦄ ⦃m = flat_encoder⦄ ⦃h = flat_sha256⦄ http_handler
    ≡ ok (started_routes, [])
unfolding start_handler is_blank digest_pattern validate_manifest list_beq identity_pattern
    validate_authorization_features executable_pattern environment_pattern validate_schema
    validate_capability operation_pattern digest_of flat_sha256
starts = refl

start_handler-IsStarted_example :
    IsStarted ⦃urls = Releases.https_parser⦄ ⦃m = flat_encoder⦄ ⦃h = flat_sha256⦄ http_handler
      started_routes
    × ([] ≡ or_no_nonces http_handler.seen)
start_handler-IsStarted_example =
    start_handler-IsStarted ⦃urls = Releases.https_parser⦄ ⦃m = flat_encoder⦄ ⦃h = flat_sha256⦄
      http_handler started_routes [] starts
