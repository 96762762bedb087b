-- ===== src/Outbound/Discovering.antt =====
-- `Dispatch.DiscoverResources` of discovery_transport.go.
use provider_sdk.Base.{
  Result, err, hang, list_eq, nat_eq, ok, panic, reject, relabel, some, ℕ, ◌!=◌, ◌-◌, ◌>>=◌, ◌>>◌,
}
use provider_sdk.Capability.{ActionCapability}
use provider_sdk.Discovery.{DiscoveryRequest}
use provider_sdk.Json.{Tokenizer, Value}
use provider_sdk.Manifest.{Manifest, UrlParser, outbound_pull, transport_mode}
use provider_sdk.Platform.{Decoder, Encoder, PlainJson, Sha256, decode_strict}
use provider_sdk.Selection.{selector_eq}
use provider_sdk.Discovery.Page.{DiscoveryPage}
use provider_sdk.Discovery.Service.{DiscoveryService, Surroundings, discover_resources, shortened}
use provider_sdk.Outbound.Dispatched.{Dispatch, phase_discover_resources, validate_dispatch}

abbrev pub with_limit : Surroundings → ℕ → Surroundings
with_limit env left = record env { allowed = some (shortened env.allowed left) }

module _ ⦃urls : UrlParser⦄ ⦃m : Encoder Manifest⦄ ⦃h : Sha256⦄ ⦃p : PlainJson⦄ ⦃t : Tokenizer⦄
    ⦃k : Encoder ActionCapability⦄ ⦃v : Encoder Value⦄ ⦃e : Encoder DiscoveryRequest⦄
    ⦃d : Decoder DiscoveryRequest⦄ {W : Type 0} where
  -- The checks of the dispatch, and the request that it carries.
  unfoldable pub open_discovery : Dispatch → DiscoveryService W → ℕ → Result DiscoveryRequest
  unfolding validate_dispatch
  open_discovery dispatch s now = do
    validate_dispatch dispatch now
    reject (dispatch.phase != phase_discover_resources) "not a resource discovery dispatch"
    reject (transport_mode s.manifest.broker != outbound_pull)
        "release does not support outbound discovery"
    request ← relabel (decode_strict dispatch.request) "discovery dispatch connection mismatch"
    reject (request.connection_id != dispatch.connection_id)
        "discovery dispatch connection mismatch"
    ok request

  unfoldable pub discover_opened :
      DiscoveryService W
      → ℕ
      → Surroundings
      → W
      → ℕ
      → Result DiscoveryRequest
      → Result DiscoveryPage × W
  unfolding discover_resources
  discover_opened s now env w left (ok request) =
      discover_resources s request now (with_limit env left) w
  discover_opened s now env w left (err message) = (err message, w)
  discover_opened s now env w left panic = (panic, w)
  discover_opened s now env w left hang = (hang, w)

  unfoldable pub discover_dispatched :
      Dispatch → DiscoveryService W → ℕ → Surroundings → W → Result DiscoveryPage × W
  unfolding open_discovery discover_opened
  discover_dispatched dispatch s now env w =
      discover_opened s now env w (dispatch.expires_at - now) (open_discovery dispatch s now)
