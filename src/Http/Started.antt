-- ===== src/Http/Started.antt =====
-- What a handler that starts offers.
use provider_sdk.Manifest.Signing
use mathlib.Core.Path.{subst}
use provider_sdk.Base.{
  >>-eq-ok, Bool, In, List, Option, String, [], ap, arith, false, inl, inr, is_present, none, not,
  ok, ok_of, pass, refl, reject, some, sym, true, ◌||◌, ◌∷◌, ◌≡◌, ◌⊎◌,
}
use provider_sdk.Http.{Handler, Seen}
use provider_sdk.Manifest.{Manifest, UrlParser, inbound_https, transport_mode}
use provider_sdk.Platform.{Encoder, Sha256}
use provider_sdk.Text.{Text, is_blank}
use provider_sdk.Discovery.Service.{DiscoveryService, validate_service}
use provider_sdk.Http.Routes.{
  HttpHandler, Route, check_discovery_service, or_no_nonces, routes_of, start_handler, to_discover,
  to_execute, to_issue, to_prepare, to_verify, to_verify_action,
}
use provider_sdk.Manifest.Signing.{manifest_digest}
use provider_sdk.Text.Patterns.{digest_pattern}
use provider_sdk.Discovery.Admitted.{same_release_of, validate_service-sealed}

-- A discovery service of the handler's own release, which is reached by requests.
pub record IsOwn ⦃urls : UrlParser⦄ ⦃m : Encoder Manifest⦄ ⦃h : Sha256⦄ {W : Type 0}
    (s : DiscoveryService W) (settings : Handler) : Type 0 where
  pub sealed : Signing.manifest_digest s.manifest ≡ ok s.manifest_digest
  pub same_digest : s.manifest_digest ≡ settings.manifest_digest
  pub one_release : s.manifest.release ≡ settings.release
  pub inbound : transport_mode s.manifest.broker ≡ inbound_https

-- The settings are complete, a path leads to discovery only with a service of the same release, and to
-- actions only with an implementation of them.
pub record IsStarted ⦃urls : UrlParser⦄ ⦃m : Encoder Manifest⦄ ⦃h : Sha256⦄ {W : Type 0}
    (handler : HttpHandler W) (routes : List (Text × Route)) : Type 0 where
  pub implemented : is_present handler.implementation ≡ true
  pub secret : is_blank handler.settings.shared_secret ≡ false
  pub digested : digest_pattern handler.settings.manifest_digest ≡ true
  pub released : is_blank handler.settings.release ≡ false
  pub discovers :
      (path : Text)
      → In (path, to_discover) routes
      → (s : DiscoveryService W) × (handler.discovery ≡ some s) × IsOwn s handler.settings
  pub acts :
      (path : Text)
      → In (path, to_execute) routes ⊎ In (path, to_verify_action) routes
      → is_present handler.actions ≡ true

abbrev kinds : List (Text × Route) → List Route
kinds [] = []
kinds ((path, kind) ∷ routes) = kind ∷ kinds routes

kind_in :
    (path : Text) (kind : Route) (routes : List (Text × Route))
    → In (path, kind) routes
    → In kind (kinds routes)
kind_in path kind [] h = h
kind_in path kind ((other, k) ∷ routes) (inl e) = inl (ap (λ (r : Text × Route). r.1) e)
kind_in path kind ((other, k) ∷ routes) (inr h) = inr (kind_in path kind routes h)

-- The two routes of an implementation of actions.
abbrev IsAction : Route → Type 0
IsAction kind = (kind ≡ to_execute) ⊎ (kind ≡ to_verify_action)

module _ {A B : Type 0} (path : Text) where
  discovers_only :
      (discovery : Option A) (actions : Option B)
      → In (path, to_discover) (routes_of discovery actions)
      → is_present discovery ≡ true
  unfolding routes_of
  discovers_only (some s) actions h = refl
  discovers_only none none h =
      absurd (none_left (kind_in path to_discover (routes_of {A = A} {B = B} none none) h))
    where
      none_left : In to_discover (to_prepare ∷ to_verify ∷ to_issue ∷ []) → ⊥
      none_left m = ground arith
  discovers_only none (some i) h =
      absurd (none_left (kind_in path to_discover (routes_of {A = A} none (some i)) h))
    where
      none_left :
          In to_discover (to_prepare ∷ to_verify ∷ to_issue ∷ to_execute ∷ to_verify_action ∷ [])
          → ⊥
      none_left m = ground arith

  acts_only :
      (kind : Route) (discovery : Option A) (actions : Option B)
      → IsAction kind
      → In (path, kind) (routes_of discovery actions)
      → is_present actions ≡ true
  unfolding routes_of
  acts_only kind discovery (some i) act h = refl
  acts_only kind none none act h =
      absurd (none_left act (kind_in path kind (routes_of {A = A} {B = B} none none) h))
    where
      none_left : IsAction kind → In kind (to_prepare ∷ to_verify ∷ to_issue ∷ []) → ⊥
      none_left k m = ground arith
  acts_only kind (some s) none act h =
      absurd (none_left act (kind_in path kind (routes_of {B = B} (some s) none) h))
    where
      none_left : IsAction kind → In kind (to_prepare ∷ to_verify ∷ to_issue ∷ to_discover ∷ []) → ⊥
      none_left k m = ground arith

configured :
    (implemented blank digested unreleased : Bool) (message : String)
    → reject (not implemented || blank || not digested || unreleased) message ≡ pass
    → (implemented ≡ true) × (blank ≡ false) × (digested ≡ true) × (unreleased ≡ false)
configured implemented blank digested unreleased message h = ground arith

module _ ⦃urls : UrlParser⦄ ⦃m : Encoder Manifest⦄ ⦃h : Sha256⦄ {W : Type 0} where
  check_discovery_service-IsOwn :
      (settings : Handler) (o : Option (DiscoveryService W))
      → check_discovery_service settings o ≡ pass
      → is_present o ≡ true
      → (s : DiscoveryService W) × (o ≡ some s) × IsOwn s settings
  unfolding check_discovery_service
  check_discovery_service-IsOwn settings none accepted there = absurd (cc there)
  check_discovery_service-IsOwn settings (some s) accepted there =
      let (valid, same) = >>-eq-ok (validate_service s) _ accepted in
      let (digest, release, mode) =
        same_release_of s.manifest_digest settings.manifest_digest s.manifest.release
          settings.release (transport_mode s.manifest.broker) inbound_https
          "discovery and HTTP release identities differ" same in
      (
        s,
        refl,
        record {
          sealed = validate_service-sealed s valid;
          same_digest = digest;
          one_release = release;
          inbound = mode;
        },
      )

-- A handler that starts has its settings, serves discovery only by a service whose manifest has the
-- handler's digest and release and is reached by requests, serves actions only with an implementation of
-- them, and keeps the nonces that it had.
pub start_handler-IsStarted :
    ⦃urls : UrlParser⦄ ⦃m : Encoder Manifest⦄ ⦃h : Sha256⦄ {W : Type 0} (handler : HttpHandler W)
    (routes : List (Text × Route)) (seen : Seen)
    → start_handler handler ≡ ok (routes, seen)
    → IsStarted handler routes × (seen ≡ or_no_nonces handler.seen)
unfolding start_handler
start_handler-IsStarted {W = W} handler routes seen started =
    let (settings, h₁) =
      >>-eq-ok (reject _ "external adapter handler is not configured") _ started in
    let (checked, h₂) =
      >>-eq-ok (check_discovery_service handler.settings handler.discovery) _ h₁ in
    let (implemented, secret, digested, released) =
      configured (is_present handler.implementation) (is_blank handler.settings.shared_secret)
        (digest_pattern handler.settings.manifest_digest) (is_blank handler.settings.release)
        "external adapter handler is not configured" settings in
    let same = ok_of h₂ in
    let table : routes_of handler.discovery handler.actions ≡ routes =
      ap (λ (r : List (Text × Route) × Seen). r.0) same in
    (
      record {
        implemented = implemented;
        secret = secret;
        digested = digested;
        released = released;
        discovers = λ path there.
            check_discovery_service-IsOwn handler.settings handler.discovery checked (
              discovers_only path handler.discovery handler.actions
                (subst (In (path, to_discover)) (sym table) there));
        acts = λ path there. elim there [
          | inl execute ↦
              acts_only path to_execute handler.discovery handler.actions (inl refl)
                (subst (In (path, to_execute)) (sym table) execute)
          | inr checked_action ↦
              acts_only path to_verify_action handler.discovery handler.actions (inr refl)
                (subst (In (path, to_verify_action)) (sym table) checked_action)
        ];
      },
      sym (ap (λ (r : List (Text × Route) × Seen). r.1) same),
    )
