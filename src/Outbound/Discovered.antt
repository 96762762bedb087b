-- ===== src/Outbound/Discovered.antt =====
-- Which dispatches reach the implementation of discovery.
use provider_sdk.Discovery.Called
use mathlib.Core.Path.{subst}
use provider_sdk.Base.{
  >>-eq-ok, >>=-eq-ok, Result, String, err, hang, inl, inr, list_eq, nat_eq, ok, ok_of, panic, refl,
  reject, reject-eq-ok, relabel, relabel-eq-ok, ℕ, ◌!=◌, ◌+◌, ◌-◌, ◌≡◌, ◌≤◌, ◌⊎◌,
}
use provider_sdk.Capability.{ActionCapability}
use provider_sdk.Discovery.{DiscoveryRequest}
use provider_sdk.Json.{Tokenizer, Value}
use provider_sdk.Manifest.{Manifest, UrlParser, outbound_pull, transport_mode}
use provider_sdk.Platform.{Decoder, Encoder, PlainJson, Sha256, decode_strict}
use provider_sdk.Selection.{selector_eq}
use provider_sdk.Discovery.Admitted.{IsRefused, not_different}
use provider_sdk.Discovery.Called.{IsCalled, discover_resources-IsCalled}
use provider_sdk.Discovery.Page.{DiscoveryPage}
use provider_sdk.Discovery.Service.{DiscoveryService, Surroundings}
use provider_sdk.Outbound.Claimed.{Carries, validate_dispatch-IsClaimed, with_limit-ends}
use provider_sdk.Outbound.Discovering.{
  discover_dispatched, discover_opened, open_discovery, with_limit,
}
use provider_sdk.Outbound.Dispatched.{Dispatch, phase_discover_resources, validate_dispatch}

module _ ⦃urls : UrlParser⦄ ⦃m : Encoder Manifest⦄ ⦃h : Sha256⦄ ⦃p : PlainJson⦄ ⦃t : Tokenizer⦄
    ⦃k : Encoder ActionCapability⦄ ⦃v : Encoder Value⦄ ⦃e : Encoder DiscoveryRequest⦄
    ⦃d : Decoder DiscoveryRequest⦄ {W : Type 0} (s : DiscoveryService W) (dispatch : Dispatch)
    (now : ℕ) (env : Surroundings) (w : W) where
  open_discovery-Carries :
      (r : DiscoveryRequest)
      → open_discovery dispatch s now ≡ ok r
      → (transport_mode s.manifest.broker ≡ outbound_pull)
        × Carries dispatch now phase_discover_resources (λ q. q.connection_id) r
  unfolding open_discovery
  open_discovery-Carries r opened =
      let mismatch : String = "discovery dispatch connection mismatch" in
      let unsupported : String = "release does not support outbound discovery" in
      let (valid, h₁) = >>-eq-ok (validate_dispatch dispatch now) _ opened in
      let (phase, h₂) = >>-eq-ok (reject _ "not a resource discovery dispatch") _ h₁ in
      let (mode, h₃) = >>-eq-ok (reject _ unsupported) _ h₂ in
      let (given, decoded, h₄) =
        >>=-eq-ok (relabel (decode_strict dispatch.request) mismatch) _ h₃ in
      let (connection, h₅) = >>-eq-ok (reject _ mismatch) _ h₄ in
      let same : given ≡ r = ok_of h₅ in
      (
        not_different (transport_mode s.manifest.broker) outbound_pull
            (reject-eq-ok (transport_mode s.manifest.broker != outbound_pull) unsupported mode),
        subst (Carries dispatch now phase_discover_resources (λ q. q.connection_id)) same record {
          claim = validate_dispatch-IsClaimed dispatch now valid;
          in_phase = not_different dispatch.phase phase_discover_resources (
              reject-eq-ok (dispatch.phase != phase_discover_resources)
                "not a resource discovery dispatch" phase);
          decoded = relabel-eq-ok (decode_strict dispatch.request) mismatch decoded;
          for_connection =
              not_different given.connection_id dispatch.connection_id
                (reject-eq-ok (given.connection_id != dispatch.connection_id) mismatch connection);
        },
      )

  -- The implementation is called, with what a live claim carries and for as long as it lives.
  abbrev pub DiscoveryCalled : Result DiscoveryPage × W → Type 0
  DiscoveryCalled result =
      (r : DiscoveryRequest) × Carries dispatch now phase_discover_resources (λ q. q.connection_id)
        r
      × (transport_mode s.manifest.broker ≡ outbound_pull)
      × (call : Called.IsCalled s r now (with_limit env (dispatch.expires_at - now)) w result)
      × (now + call.left ≤ dispatch.expires_at)

  discover_opened-Called :
      (o : Result DiscoveryRequest)
      → open_discovery dispatch s now ≡ o
      → IsRefused w (discover_opened s now env w (dispatch.expires_at - now) o)
        ⊎ DiscoveryCalled (discover_opened s now env w (dispatch.expires_at - now) o)
  unfolding discover_opened
  discover_opened-Called (ok r) opened =
      let (pulled, carried) = open_discovery-Carries r opened in
      elim (discover_resources-IsCalled s r now (with_limit env (dispatch.expires_at - now)) w) [
        | inl refused ↦ inl refused
        | inr call ↦ inr (
          r,
          carried,
          pulled,
          call,
          with_limit-ends env dispatch now call.left carried.claim.live call.within,
        )
      ]
  discover_opened-Called (err message) _ =
      inl record { unchanged = refl; no_answer = λ answer e. cc e }
  discover_opened-Called panic _ = inl record { unchanged = refl; no_answer = λ answer e. cc e }
  discover_opened-Called hang _ = inl record { unchanged = refl; no_answer = λ answer e. cc e }

-- A dispatch either leaves the implementation of discovery alone and yields no page, or it is a live claim
-- in the phase of discovery whose digest is that of its request, the release is pulled from, the request
-- is for the connection that was claimed, and the service calls the implementation on it as it does for
-- any admitted request, with a deadline no later than the end of the claim.
pub discover_dispatched-Called :
    ⦃urls : UrlParser⦄ ⦃m : Encoder Manifest⦄ ⦃h : Sha256⦄ ⦃p : PlainJson⦄ ⦃t : Tokenizer⦄
    ⦃k : Encoder ActionCapability⦄ ⦃v : Encoder Value⦄ ⦃e : Encoder DiscoveryRequest⦄
    ⦃d : Decoder DiscoveryRequest⦄ {W : Type 0} (s : DiscoveryService W) (dispatch : Dispatch)
    (now : ℕ) (env : Surroundings) (w : W)
    → IsRefused w (discover_dispatched dispatch s now env w)
      ⊎ DiscoveryCalled s dispatch now env w (discover_dispatched dispatch s now env w)
unfolding discover_dispatched
discover_dispatched-Called s dispatch now env w =
    discover_opened-Called s dispatch now env w (open_discovery dispatch s now) refl
