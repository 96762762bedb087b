-- ===== src/Http/Routes.antt =====
-- `HTTPHandler.Handler` of http.go: the checks at the start and the table of routes.
use provider_sdk.Base.{
  Bool, Check, List, Option, Result, [], false, is_present, list_eq, nat_eq, none, not, ok, pass,
  reject, some, true, ◌!=◌, ◌++◌, ◌>>◌, ◌||◌, ◌∷◌,
}
use provider_sdk.Http.{Handler, Seen}
use provider_sdk.Manifest.{Manifest, UrlParser, inbound_https, transport_mode}
use provider_sdk.Platform.{Encoder, Sha256}
use provider_sdk.Selection.{selector_eq}
use provider_sdk.Text.{Text, bytes, is_blank}
use provider_sdk.Discovery.Service.{DiscoveryService, validate_service}
use provider_sdk.Http.Actions.{ActionImplementation}
use provider_sdk.Http.Handlers.{BrokerImplementation}
use provider_sdk.Text.Patterns.{digest_pattern}

-- The fields of an HTTPHandler that its start looks at, besides those of its settings.
pub record HttpHandler (W : Type 0) : Type 0 where
  pub settings : Handler
  pub implementation : Option (BrokerImplementation W)
  pub actions : Option (ActionImplementation W)
  pub discovery : Option (DiscoveryService W)
  pub seen : Option Seen

pub data Route : Type 0 where
  to_prepare to_verify to_issue to_discover to_execute to_verify_action : Route

abbrev pub routes_if : Bool → List (Text × Route) → List (Text × Route)
routes_if true routes = routes
routes_if false routes = []

unfoldable pub routes_of {ℓ κ} :
    {A : Type ℓ} {B : Type κ} → Option A → Option B → List (Text × Route)
routes_of discovery actions =
    ((bytes "POST /v1/prepare", to_prepare)
      ∷ (bytes "POST /v1/verify", to_verify)
      ∷ (bytes "POST /v1/issue", to_issue)
      ∷ [])
    ++ (routes_if (is_present discovery) ((bytes "POST /v1/resources/discover", to_discover) ∷ [])
        ++ routes_if (is_present actions) (
            (bytes "POST /v1/actions/execute", to_execute)
            ∷ (bytes "POST /v1/actions/verify", to_verify_action)
            ∷ []))

-- `h.seen == nil`
abbrev pub or_no_nonces : Option Seen → Seen
or_no_nonces none = []
or_no_nonces (some seen) = seen

module _ ⦃urls : UrlParser⦄ ⦃m : Encoder Manifest⦄ ⦃h : Sha256⦄ {W : Type 0} where
  unfoldable pub check_discovery_service : Handler → Option (DiscoveryService W) → Check
  unfolding validate_service
  check_discovery_service settings none = pass
  check_discovery_service settings (some s) = do
    validate_service s
    reject
        (s.manifest_digest != settings.manifest_digest
          || s.manifest.release != settings.release
          || transport_mode s.manifest.broker != inbound_https)
        "discovery and HTTP release identities differ"

  -- The routes, and the nonces that the handler starts with.
  unfoldable pub start_handler : HttpHandler W → Result (List (Text × Route) × Seen)
  unfolding check_discovery_service routes_of
  start_handler handler = do
    reject
        (not (is_present handler.implementation)
          || is_blank handler.settings.shared_secret
          || not (digest_pattern handler.settings.manifest_digest)
          || is_blank handler.settings.release)
        "external adapter handler is not configured"
    check_discovery_service handler.settings handler.discovery
    ok (routes_of handler.discovery handler.actions, or_no_nonces handler.seen)
