-- ===== src/Discovery/Called.antt =====
-- When a discovery service calls its implementation, and what it takes from it.
use mathlib.Core.Path.{subst}
use provider_sdk.Base.{
  >>-eq-ok, >>=-eq-ok, Option, Result, ap, arith, err, hang, inl, inr, none, ok, ok_of, panic, pass,
  refl, some, ℕ, ◌*◌, ◌+◌, ◌-◌, ◌∙◌, ◌≡◌, ◌≤◌, ◌⊎◌,
}
use provider_sdk.Base.Int.{pos_part}
use provider_sdk.Capability.{ActionCapability}
use provider_sdk.Discovery.{DiscoveryRequest}
use provider_sdk.Json.{Tokenizer, Value}
use provider_sdk.Manifest.{Manifest, UrlParser}
use provider_sdk.Platform.{Encoder, PlainJson, Sha256}
use provider_sdk.Time.{second, seconds}
use provider_sdk.Discovery.Accepted.{declared_bounds, request_parts}
use provider_sdk.Discovery.Admitted.{
  IsAdmitted, IsRefused, admit_request-IsAdmitted, shortened-allowed, shortened-min,
  unless_ended-eq-pass,
}
use provider_sdk.Discovery.Page.{DiscoveryPage, validate_page}
use provider_sdk.Discovery.Service.{
  Discoverer, DiscoveryService, Surroundings, accept_page, admit_request, call_admitted,
  call_discoverer, discover_resources, shortened, time_left, unless_ended,
}

-- One call of an implementation, within the time that is left, and what is taken from it: a page that is
-- valid when it arrives, while the context stands.
pub record IsCalled ⦃urls : UrlParser⦄ ⦃m : Encoder Manifest⦄ ⦃h : Sha256⦄ ⦃p : PlainJson⦄
    ⦃t : Tokenizer⦄ ⦃k : Encoder ActionCapability⦄ ⦃v : Encoder Value⦄
    ⦃e : Encoder DiscoveryRequest⦄ {W : Type 0} (s : DiscoveryService W) (r : DiscoveryRequest)
    (now : ℕ) (env : Surroundings) (w : W) (result : Result DiscoveryPage × W) : Type 0 where
  pub capability : ActionCapability
  pub discover : Discoverer W
  pub left : ℕ
  pub standing : env.cancelled ≡ none
  pub admitted : IsAdmitted s r capability now
  pub implemented : s.implementation ≡ some discover
  pub in_time : now + left ≤ r.now + 300 * second
  pub within : (limit : ℕ) → env.allowed ≡ some limit → left ≤ limit
  pub changed : result.1 ≡ (discover w left r).1
  pub taken :
      (page : DiscoveryPage)
      → result.0 ≡ ok page
      → ((discover w left r).0 ≡ ok page)
        × (env.ended ≡ none)
        × (validate_page page r capability (now + env.elapsed) ≡ pass)

module _ ⦃urls : UrlParser⦄ ⦃m : Encoder Manifest⦄ ⦃h : Sha256⦄ ⦃p : PlainJson⦄ ⦃t : Tokenizer⦄
    ⦃k : Encoder ActionCapability⦄ ⦃v : Encoder Value⦄ ⦃e : Encoder DiscoveryRequest⦄ {W : Type 0}
    (s : DiscoveryService W) (r : DiscoveryRequest) (now : ℕ) (env : Surroundings) (w : W) where
  accept_page-eq-ok :
      (capability : ActionCapability) (then' : ℕ) (answer : Result DiscoveryPage)
      (page : DiscoveryPage)
      → accept_page r capability then' env.ended answer ≡ ok page
      → (answer ≡ ok page) × (env.ended ≡ none) × (validate_page page r capability then' ≡ pass)
  unfolding accept_page
  accept_page-eq-ok capability then' answer page accepted =
      let (given, answered, h₁) = >>=-eq-ok answer _ accepted in
      let (standing, h₂) = >>-eq-ok (unless_ended env.ended) _ h₁ in
      let (valid, h₃) = >>-eq-ok (validate_page given r capability then') _ h₂ in
      let same : given ≡ page = ok_of h₃ in
      (
        answered ∙ ap ok same,
        unless_ended-eq-pass env.ended standing,
        subst (λ q. validate_page q r capability then' ≡ pass) same valid,
      )

  time_left-in_time :
      (capability : ActionCapability)
      → IsAdmitted s r capability now
      → now + shortened env.allowed (time_left r capability.discovery now) ≤ r.now + 300 * second
  time_left-in_time capability admitted =
      let (d, declared, valid, _, _, _) = request_parts r capability admitted.valid in
      let (_, bound) = declared_bounds capability d valid declared in
      let short = shortened-min env.allowed (time_left r capability.discovery now) in
      let age : pos_part d.maximum_age_seconds ≤ 300 = ground (arith, bound) in
      let left : time_left r capability.discovery now
          ≡ (r.now + seconds d.maximum_age_seconds) - now =
        ap (λ o. time_left r o now) declared in
      omega (arith, short, age, left, admitted.not_expired)

  call_admitted-IsCalled :
      (capability : ActionCapability) (i : Option (Discoverer W))
      → s.implementation ≡ i
      → env.cancelled ≡ none
      → IsAdmitted s r capability now
      → IsRefused w (call_admitted i r now env w capability)
        ⊎ IsCalled s r now env w (call_admitted i r now env w capability)
  unfolding call_admitted
  call_admitted-IsCalled capability none same standing admitted =
      inl record { unchanged = refl; no_answer = λ page e. cc e }
  call_admitted-IsCalled capability (some discover) same standing admitted = inr record {
    capability = capability;
    discover = discover;
    left = shortened env.allowed (time_left r capability.discovery now);
    standing = standing;
    admitted = admitted;
    implemented = same;
    in_time = time_left-in_time capability admitted;
    within =
        λ limit e. shortened-allowed env.allowed (time_left r capability.discovery now) limit e;
    changed = refl;
    taken =
        accept_page-eq-ok capability (now + env.elapsed)
          (discover w (shortened env.allowed (time_left r capability.discovery now)) r).0;
  }

  call_discoverer-IsCalled :
      (o : Result ActionCapability)
      → admit_request s r now env.cancelled ≡ o
      → IsRefused w (call_discoverer s.implementation r now env w o)
        ⊎ IsCalled s r now env w (call_discoverer s.implementation r now env w o)
  unfolding call_discoverer
  call_discoverer-IsCalled (ok capability) accepted =
      let (standing, admitted) = admit_request-IsAdmitted s r now env capability accepted in
      call_admitted-IsCalled capability s.implementation refl standing admitted
  call_discoverer-IsCalled (err message) _ =
      inl record { unchanged = refl; no_answer = λ page e. cc e }
  call_discoverer-IsCalled panic _ = inl record { unchanged = refl; no_answer = λ page e. cc e }
  call_discoverer-IsCalled hang _ = inl record { unchanged = refl; no_answer = λ page e. cc e }

-- A discovery service either leaves the implementation alone and returns no page, or the request is
-- admitted: it is for a capability of the service's own release, valid and timely; then the
-- implementation is called once, with a deadline at most five minutes behind the request, and a page is
-- returned only if it came from that call, the context still stands, and the page is valid when it arrives.
pub discover_resources-IsCalled :
    ⦃urls : UrlParser⦄ ⦃m : Encoder Manifest⦄ ⦃h : Sha256⦄ ⦃p : PlainJson⦄ ⦃t : Tokenizer⦄
    ⦃k : Encoder ActionCapability⦄ ⦃v : Encoder Value⦄ ⦃e : Encoder DiscoveryRequest⦄ {W : Type 0}
    (s : DiscoveryService W) (r : DiscoveryRequest) (now : ℕ) (env : Surroundings) (w : W)
    → IsRefused w (discover_resources s r now env w)
      ⊎ IsCalled s r now env w (discover_resources s r now env w)
unfolding discover_resources
discover_resources-IsCalled s r now env w =
    call_discoverer-IsCalled s r now env w (admit_request s r now env.cancelled) refl
