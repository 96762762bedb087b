-- ===== src/Discovery/Admitted.antt =====
-- Which requests a discovery service admits.
use provider_sdk.Manifest.Signing
use mathlib.Core.Path.{subst}
use provider_sdk.Base.{
  >>-eq-ok, >>=-eq-ok, Bool, In, List, Option, Result, String, [], ap, arith, deref, deref-eq-ok,
  eq_iff, false, if◌then◌else◌, inl, inr, is_present, list_eq, nat_eq, none, not, ok, ok_of, pass,
  refl, reject, relabel, relabel-eq-ok, some, sym, true, ℕ, ◌!=◌, ◌*◌, ◌+◌, ◌<◌, ◌||◌, ◌∙◌, ◌∷◌,
  ◌≡◌, ◌≢◌, ◌≤◌, ◌⊎◌,
}
use provider_sdk.Capability.{ActionCapability}
use provider_sdk.Discovery.{DiscoveryRequest, validate_discovery_request}
use provider_sdk.Json.{Tokenizer, Value}
use provider_sdk.Manifest.{Manifest, UrlParser}
use provider_sdk.Platform.{Encoder, PlainJson, Sha256}
use provider_sdk.Selection.{selector_eq}
use provider_sdk.Text.{Text}
use provider_sdk.Time.{is_after, is_zero_time, second, seconds}
use provider_sdk.Discovery.Service.{
  DiscoveryService, Surroundings, admit_request, find_capability, shortened, unless_ended,
  validate_discovery_at, validate_service,
}
use provider_sdk.Manifest.Signing.{manifest_digest}
use provider_sdk.Selection.Capabilities.{refs}
use provider_sdk.Base.Int.{between, ℤ}
use provider_sdk.Discovery.Accepted.{declared_bounds, request_parts}

picked :
    (different : Bool) (b : ActionCapability) (rest : Result ActionCapability)
    {a : ActionCapability}
    → (if different then rest else ok b) ≡ ok a
    → ((different ≡ false) × (b ≡ a)) ⊎ (rest ≡ ok a)
picked true b rest h = inr h
picked false b rest h = inl (refl, ok_of h)

pub not_different : (a b : Text) → (a != b) ≡ false → a ≡ b
not_different a b h = ground (arith, eq_iff a b)

find_capability-eq-ok :
    (ref : Text) (actions : List ActionCapability) (a : ActionCapability)
    → find_capability ref actions ≡ ok a
    → In a actions × (a.ref ≡ ref)
unfolding find_capability
find_capability-eq-ok ref [] a h = absurd (cc h)
find_capability-eq-ok ref (b ∷ actions) a h =
    elim (picked (b.ref != ref) b (find_capability ref actions) h) [
      | inl (equal, same) ↦ (
        inl same,
        ap (λ (c : ActionCapability). c.ref) (sym same) ∙ not_different b.ref ref equal,
      )
      | inr later ↦
          let (listed, refs) = find_capability-eq-ok ref actions a later in (inr listed, refs)
    ]

pub shortened-min : (allowed : Option ℕ) (left : ℕ) → shortened allowed left ≤ left
shortened-min none left = omega arith
shortened-min (some n) left = ground arith

pub shortened-allowed :
    (allowed : Option ℕ) (left limit : ℕ) → allowed ≡ some limit → shortened allowed left ≤ limit
shortened-allowed none left limit e = absurd (cc e)
shortened-allowed (some n) left limit e = let same : n ≡ limit = cc e in ground arith

-- The request is for a capability of the service's release, which carries its own digest, and its time
-- is at most five minutes back and thirty seconds ahead.
pub record IsAdmitted ⦃urls : UrlParser⦄ ⦃m : Encoder Manifest⦄ ⦃h : Sha256⦄ ⦃p : PlainJson⦄
    ⦃t : Tokenizer⦄ ⦃k : Encoder ActionCapability⦄ {W : Type 0} (s : DiscoveryService W)
    (r : DiscoveryRequest) (capability : ActionCapability) (now : ℕ) : Type 0 where
  pub sealed : Signing.manifest_digest s.manifest ≡ ok s.manifest_digest
  pub of_provider : r.provider ≡ s.manifest.provider
  pub of_release : r.release ≡ s.manifest.release
  pub of_manifest : r.manifest_digest ≡ s.manifest_digest
  pub listed : In capability s.manifest.actions
  pub requested : capability.ref ≡ r.capability_ref
  pub valid : validate_discovery_request r capability ≡ pass
  pub not_ahead : r.now ≤ now + 30 * second
  pub not_expired : now < r.now + 300 * second

pub same_release_of :
    (a b c d f g : Text) (message : String)
    → reject (a != b || c != d || f != g) message ≡ pass
    → (a ≡ b) × (c ≡ d) × (f ≡ g)
same_release_of a b c d f g message h = ground (arith, eq_iff a b, eq_iff c d, eq_iff f g)

pub first_of : (a b : Bool) (message : String) → reject (a || b) message ≡ pass → a ≡ false
first_of a b message h = ground arith

pub unless_ended-eq-pass : (o : Option String) → unless_ended o ≡ pass → o ≡ none
unless_ended-eq-pass none h = refl
unless_ended-eq-pass (some message) h = absurd (cc h)

fresh_of :
    (asked now : ℕ) (age : ℤ) (message : String)
    → reject
        (is_zero_time now
          || is_after asked (now + 30 * second)
          || not (is_after (asked + seconds age) now))
        message
      ≡ pass
    → between 1 300 age ≡ true
    → (asked ≤ now + 30 * second) × (now < asked + 300 * second)
fresh_of asked now age message h bound = ground arith

validate_discovery_at-parts :
    ⦃h : Sha256⦄ ⦃p : PlainJson⦄ ⦃t : Tokenizer⦄ ⦃k : Encoder ActionCapability⦄
    (r : DiscoveryRequest) (capability : ActionCapability) (now : ℕ)
    → validate_discovery_at r capability now ≡ pass
    → (validate_discovery_request r capability ≡ pass)
      × (r.now ≤ now + 30 * second)
      × (now < r.now + 300 * second)
unfolding validate_discovery_at
validate_discovery_at-parts r capability now accepted =
    let (valid, h₁) = >>-eq-ok (validate_discovery_request r capability) _ accepted in
    let (d, declared, fresh) = >>=-eq-ok (deref capability.discovery) _ h₁ in
    let (_, _, well_formed, _, _, _) = request_parts r capability valid in
    let (_, bound) =
      declared_bounds capability d well_formed (deref-eq-ok capability.discovery declared) in
    let (not_ahead, live) =
      fresh_of r.now now d.maximum_age_seconds "discovery request is stale or future dated" fresh
        bound in
    (valid, not_ahead, live)

pub validate_service-sealed :
    ⦃urls : UrlParser⦄ ⦃m : Encoder Manifest⦄ ⦃h : Sha256⦄ {W : Type 0} (s : DiscoveryService W)
    → validate_service s ≡ pass
    → Signing.manifest_digest s.manifest ≡ ok s.manifest_digest
unfolding validate_service
validate_service-sealed s accepted =
    let (digest, computed, h₁) =
      >>=-eq-ok (relabel (Signing.manifest_digest s.manifest) _) _ accepted in
    let (same, _) = >>-eq-ok (reject _ "discovery service release is invalid") _ h₁ in
    relabel-eq-ok (Signing.manifest_digest s.manifest) "discovery service release is invalid"
      computed
    ∙ ap ok (
        not_different digest s.manifest_digest (
          first_of (digest != s.manifest_digest) (not (is_present s.implementation))
            "discovery service release is invalid" same))

module _ ⦃urls : UrlParser⦄ ⦃m : Encoder Manifest⦄ ⦃h : Sha256⦄ ⦃p : PlainJson⦄ ⦃t : Tokenizer⦄
    ⦃k : Encoder ActionCapability⦄ ⦃v : Encoder Value⦄ ⦃e : Encoder DiscoveryRequest⦄ {W : Type 0}
    (s : DiscoveryService W) (r : DiscoveryRequest) (now : ℕ) (env : Surroundings) where
  pub admit_request-IsAdmitted :
      (capability : ActionCapability)
      → admit_request s r now env.cancelled ≡ ok capability
      → (env.cancelled ≡ none) × IsAdmitted s r capability now
  unfolding admit_request
  admit_request-IsAdmitted capability accepted =
      let (standing, h₁) = >>-eq-ok (unless_ended env.cancelled) _ accepted in
      let (enrolled, h₂) = >>-eq-ok (validate_service s) _ h₁ in
      let (same, h₃) =
        >>-eq-ok (reject _ "discovery request does not match the enrolled release") _ h₂ in
      let (found, chosen, h₄) =
        >>=-eq-ok (find_capability r.capability_ref s.manifest.actions) _ h₃ in
      let (timely, h₅) = >>-eq-ok (validate_discovery_at r found now) _ h₄ in
      let is_found : found ≡ capability = ok_of h₅ in
      let (listed, requested) =
        find_capability-eq-ok r.capability_ref s.manifest.actions found chosen in
      let (provider, release, manifest) =
        same_release_of r.provider s.manifest.provider r.release s.manifest.release
          r.manifest_digest s.manifest_digest
          "discovery request does not match the enrolled release" same in
      let (valid, not_ahead, not_expired) = validate_discovery_at-parts r found now timely in
      (
        unless_ended-eq-pass env.cancelled standing,
        subst (λ c. IsAdmitted s r c now) is_found
            record {
              sealed = validate_service-sealed s enrolled;
              of_provider = provider;
              of_release = release;
              of_manifest = manifest;
              listed = listed;
              requested = requested;
              valid = valid;
              not_ahead = not_ahead;
              not_expired = not_expired;
            },
      )

-- The implementation was not called, and there is no answer.
pub record IsRefused {W B : Type 0} (w : W) (result : Result B × W) : Type 0 where
  pub unchanged : result.1 ≡ w
  pub no_answer : (b : B) → result.0 ≢ ok b
