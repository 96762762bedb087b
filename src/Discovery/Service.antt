-- ===== src/Discovery/Service.antt =====
-- discovery_transport.go: the checks around a provider that lists its resources.
use provider_sdk.Manifest.Signing
use provider_sdk.Base.{
  Check, List, Option, Result, String, [], any, deref, err, hang, if◌then◌else◌, is_present,
  list_eq, ltb, nat_eq, none, not, ok, panic, pass, reject, relabel, some, ℕ, ◌!=◌, ◌*◌, ◌+◌, ◌-◌,
  ◌>>=◌, ◌>>◌, ◌||◌, ◌∷◌,
}
use provider_sdk.Capability.{ActionCapability, ResourceDiscovery}
use provider_sdk.Discovery.{DiscoveryRequest, validate_discovery_request}
use provider_sdk.Json.{Tokenizer, Value}
use provider_sdk.Manifest.{Manifest, UrlParser}
use provider_sdk.Platform.{Encoder, PlainJson, Sha256}
use provider_sdk.Selection.{selector_eq}
use provider_sdk.Text.{Text}
use provider_sdk.Time.{is_after, is_zero_time, second, seconds}
use provider_sdk.Discovery.Page.{DiscoveryPage, validate_page}

-- What one call of a provider meets in its environment: the time that the caller's context allows, an
-- error of the context before the call, the time until it returns, and an error of the context after.
pub record Surroundings : Type 0 where
  pub allowed : Option ℕ
  pub cancelled : Option String
  pub elapsed : ℕ
  pub ended : Option String

-- `context.WithTimeout`, which keeps an earlier deadline
abbrev pub shortened : Option ℕ → ℕ → ℕ
shortened none left = left
shortened (some allowed) left = if ltb allowed left then allowed else left

abbrev pub unless_ended : Option String → Check
unless_ended none = pass
unless_ended (some message) = err message

-- `ResourceDiscoveryImplementation`, over its own state and with the time that the context leaves it
abbrev pub Discoverer : Type 0 → Type 0
Discoverer W = W → ℕ → DiscoveryRequest → Result DiscoveryPage × W

-- `DiscoveryService` with an implementation; without one `Validate` refuses it.
pub record DiscoveryService (W : Type 0) : Type 0 where
  pub manifest : Manifest
  pub manifest_digest : Text
  pub implementation : Option (Discoverer W)

module _ ⦃h : Sha256⦄ ⦃p : PlainJson⦄ ⦃t : Tokenizer⦄ ⦃k : Encoder ActionCapability⦄ where
  -- `DiscoveryRequest.ValidateAt`
  unfoldable pub validate_discovery_at : DiscoveryRequest → ActionCapability → ℕ → Check
  unfolding validate_discovery_request
  validate_discovery_at r capability now = do
    validate_discovery_request r capability
    discovery ← deref capability.discovery
    reject
        (is_zero_time now
          || is_after r.now (now + 30 * second)
          || not (is_after (r.now + seconds discovery.maximum_age_seconds) now))
        "discovery request is stale or future dated"

module _ ⦃urls : UrlParser⦄ ⦃m : Encoder Manifest⦄ ⦃h : Sha256⦄ {W : Type 0} where
  -- `DiscoveryService.Validate`
  unfoldable pub validate_service : DiscoveryService W → Check
  unfolding Signing.manifest_digest
  validate_service s = do
    digest ← relabel (Signing.manifest_digest s.manifest) "discovery service release is invalid"
    reject (digest != s.manifest_digest || not (is_present s.implementation))
        "discovery service release is invalid"
    reject (not (any (λ a. is_present a.discovery) s.manifest.actions))
        "release does not declare resource discovery"

-- The loop over the capabilities returns in the round of the first with the reference.
unfoldable pub find_capability : Text → List ActionCapability → Result ActionCapability
find_capability ref [] = err "release does not contain the requested discovery capability"
find_capability ref (a ∷ actions) =
    let rest = find_capability ref actions in if a.ref != ref then rest else ok a

-- The page that an implementation returned, if the context still stands and the page is valid at the
-- time `now`.
unfoldable pub accept_page :
    ⦃h : Sha256⦄ ⦃p : PlainJson⦄ ⦃t : Tokenizer⦄ ⦃k : Encoder ActionCapability⦄ ⦃v : Encoder Value⦄
    ⦃e : Encoder DiscoveryRequest⦄
    → DiscoveryRequest
    → ActionCapability
    → ℕ
    → Option String
    → Result DiscoveryPage
    → Result DiscoveryPage
unfolding validate_page
accept_page request capability now ended answer = do
  page ← answer
  unless_ended ended
  validate_page page request capability now
  ok page

-- `request.Now.Add(age).Sub(now)`, which is positive behind `ValidateAt`
abbrev pub time_left : DiscoveryRequest → Option ResourceDiscovery → ℕ → ℕ
time_left r none now = 0
time_left r (some d) now = (r.now + seconds d.maximum_age_seconds) - now

module _ ⦃urls : UrlParser⦄ ⦃m : Encoder Manifest⦄ ⦃h : Sha256⦄ ⦃p : PlainJson⦄ ⦃t : Tokenizer⦄
    ⦃k : Encoder ActionCapability⦄ ⦃v : Encoder Value⦄ ⦃e : Encoder DiscoveryRequest⦄
    {W : Type 0} where
  -- What precedes the call of the implementation: the capability that the request is for.
  unfoldable pub admit_request :
      DiscoveryService W → DiscoveryRequest → ℕ → Option String → Result ActionCapability
  unfolding validate_service find_capability validate_discovery_at
  admit_request s request now cancelled = do
    unless_ended cancelled
    validate_service s
    reject
        (request.provider != s.manifest.provider
          || request.release != s.manifest.release
          || request.manifest_digest != s.manifest_digest)
        "discovery request does not match the enrolled release"
    capability ← find_capability request.capability_ref s.manifest.actions
    validate_discovery_at request capability now
    ok capability

  -- Without an implementation the service was refused before.
  unfoldable pub call_admitted :
      Option (Discoverer W)
      → DiscoveryRequest
      → ℕ
      → Surroundings
      → W
      → ActionCapability
      → Result DiscoveryPage × W
  unfolding accept_page
  call_admitted none request now env w capability = (panic, w)
  call_admitted (some discover) request now env w capability =
      let left = shortened env.allowed (time_left request capability.discovery now) in
      let (answer, w') = discover w left request in
      (accept_page request capability (now + env.elapsed) env.ended answer, w')

  unfoldable pub call_discoverer :
      Option (Discoverer W)
      → DiscoveryRequest
      → ℕ
      → Surroundings
      → W
      → Result ActionCapability
      → Result DiscoveryPage × W
  unfolding call_admitted
  call_discoverer i request now env w (ok capability) = call_admitted i request now env w capability
  call_discoverer i request now env w (err message) = (err message, w)
  call_discoverer i request now env w panic = (panic, w)
  call_discoverer i request now env w hang = (hang, w)

  -- `DiscoveryService.DiscoverResources`
  unfoldable pub discover_resources :
      DiscoveryService W → DiscoveryRequest → ℕ → Surroundings → W → Result DiscoveryPage × W
  unfolding admit_request call_discoverer
  discover_resources s request now env w =
      call_discoverer s.implementation request now env w (admit_request s request now env.cancelled)
