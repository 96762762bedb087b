-- ===== src/Connections/Verified.antt =====
-- When a connection's verification calls its implementation, and what it takes from it.
use provider_sdk.Manifest.Signing
use provider_sdk.Base.{
  >>-eq-ok, >>=-eq-ok, Check, Option, Result, String, ap, arith, err, hang, inl, inr, is_present,
  list_eq, nat_eq, none, not, ok, panic, pass, refl, reject, relabel, relabel-eq-ok, some, ℕ, ◌!=◌,
  ◌*◌, ◌+◌, ◌-◌, ◌<◌, ◌||◌, ◌∙◌, ◌≡◌, ◌≤◌, ◌⊎◌,
}
use provider_sdk.Connections.{
  ConnectionVerificationResult, ConnectionVerificationService, ConnectionVerifier,
  admit_verification, call_present, call_verifier, validate_verification_request, verification_age,
  verify_connection,
}
use provider_sdk.Json.{Tokenizer, Value}
use provider_sdk.Manifest.{Manifest, UrlParser, connection_verification_protocol}
use provider_sdk.Platform.{Encoder, PlainJson, Sha256}
use provider_sdk.Requests.{VerifyRequest}
use provider_sdk.Selection.{selector_eq}
use provider_sdk.Time.{is_after, is_zero_time, minute, second}
use provider_sdk.Connections.Evidence.{IsEvidence, accept_result-eq-ok}
use provider_sdk.Discovery.Admitted.{
  IsRefused, first_of, not_different, same_release_of, shortened-allowed, shortened-min,
  unless_ended-eq-pass,
}
use provider_sdk.Discovery.Service.{Surroundings, shortened}
use provider_sdk.Manifest.Signing.{manifest_digest}

-- The service's release carries its digest, declares the verification protocol, and is the release of the
-- request, whose time is less than a minute back and at most half a minute ahead.
pub record IsVerifiable ⦃urls : UrlParser⦄ ⦃m : Encoder Manifest⦄ ⦃h : Sha256⦄ {W : Type 0}
    (s : ConnectionVerificationService W) (r : VerifyRequest) (now : ℕ) : Type 0 where
  pub sealed : Signing.manifest_digest s.manifest ≡ ok s.manifest_digest
  pub declared : s.manifest.broker.connection_verification ≡ connection_verification_protocol
  pub of_provider : r.provider ≡ s.manifest.provider
  pub of_release : r.release ≡ s.manifest.release
  pub not_ahead : r.now ≤ now + 30 * second
  pub not_expired : now < r.now + minute

-- One call of the implementation within the minute, and what is taken from it.
pub record IsCalled ⦃urls : UrlParser⦄ ⦃m : Encoder Manifest⦄ ⦃h : Sha256⦄ ⦃p : PlainJson⦄
    ⦃t : Tokenizer⦄ ⦃v : Encoder Value⦄ ⦃q : Encoder VerifyRequest⦄ {W : Type 0}
    (s : ConnectionVerificationService W) (r : VerifyRequest) (now : ℕ) (env : Surroundings) (w : W)
    (result : Result ConnectionVerificationResult × W) : Type 0 where
  pub verifier : ConnectionVerifier W
  pub left : ℕ
  pub standing : env.cancelled ≡ none
  pub admitted : IsVerifiable s r now
  pub implemented : s.implementation ≡ some verifier
  pub in_time : now + left ≤ r.now + minute
  pub within : (limit : ℕ) → env.allowed ≡ some limit → left ≤ limit
  pub changed : result.1 ≡ (verifier w left r).1
  pub taken :
      (answer : ConnectionVerificationResult)
      → result.0 ≡ ok answer
      → ((verifier w left r).0 ≡ ok answer)
        × (env.ended ≡ none)
        × IsEvidence answer r (now + env.elapsed)

asked_of :
    (asked now : ℕ) (message : String)
    → reject
        (is_zero_time now
          || is_zero_time asked
          || is_after asked (now + 30 * second)
          || not (is_after (asked + verification_age) now))
        message
      ≡ pass
    → (asked ≤ now + 30 * second) × (now < asked + minute)
asked_of asked now message h = ground arith

module _ ⦃urls : UrlParser⦄ ⦃m : Encoder Manifest⦄ ⦃h : Sha256⦄ ⦃p : PlainJson⦄ ⦃t : Tokenizer⦄
    ⦃v : Encoder Value⦄ ⦃q : Encoder VerifyRequest⦄ {W : Type 0}
    (s : ConnectionVerificationService W) (r : VerifyRequest) (now : ℕ) (env : Surroundings)
    (w : W) where
  validate_verification_request-parts :
      (manifest : Manifest)
      → validate_verification_request r manifest now ≡ pass
      → (manifest.broker.connection_verification ≡ connection_verification_protocol)
        × (r.provider ≡ manifest.provider)
        × (r.release ≡ manifest.release)
        × (r.now ≤ now + 30 * second)
        × (now < r.now + minute)
  unfolding validate_verification_request
  validate_verification_request-parts manifest accepted =
      let (supported, h₁) =
        >>-eq-ok (reject _ "connection verification release is not supported") _ accepted in
      let (_, h₂) = >>-eq-ok (reject _ "connection verification identity is incomplete") _ h₁ in
      let (timely, _) =
        >>-eq-ok (reject _ "connection verification request is stale or future dated") _ h₂ in
      let (protocol, provider, release) =
        same_release_of manifest.broker.connection_verification connection_verification_protocol
          r.provider manifest.provider r.release manifest.release
          "connection verification release is not supported" supported in
      let (not_ahead, live) =
        asked_of r.now now "connection verification request is stale or future dated" timely in
      (protocol, provider, release, not_ahead, live)

  admit_verification-IsVerifiable :
      admit_verification s r now env.cancelled ≡ pass
      → (env.cancelled ≡ none) × IsVerifiable s r now
  unfolding admit_verification
  admit_verification-IsVerifiable accepted =
      let invalid : String = "connection verification service release is invalid" in
      let (digest, computed, h₁) =
        >>=-eq-ok (relabel (Signing.manifest_digest s.manifest) invalid) _ accepted in
      let (same, h₂) = >>-eq-ok (reject _ invalid) _ h₁ in
      let (valid, h₃) = >>-eq-ok (validate_verification_request r s.manifest now) _ h₂ in
      let (protocol, provider, release, not_ahead, live) =
        validate_verification_request-parts s.manifest valid in
      (
        unless_ended-eq-pass env.cancelled h₃,
        record {
          sealed =
              relabel-eq-ok (Signing.manifest_digest s.manifest) invalid computed
              ∙ ap ok (
                  not_different digest s.manifest_digest (
                    first_of (digest != s.manifest_digest) (not (is_present s.implementation))
                      invalid same));
          declared = protocol;
          of_provider = provider;
          of_release = release;
          not_ahead = not_ahead;
          not_expired = live;
        },
      )

  call_present-IsCalled :
      (i : Option (ConnectionVerifier W))
      → s.implementation ≡ i
      → env.cancelled ≡ none
      → IsVerifiable s r now
      → IsRefused w (call_present i r now env w)
        ⊎ IsCalled s r now env w (call_present i r now env w)
  unfolding call_present
  call_present-IsCalled none same standing admitted =
      inl record { unchanged = refl; no_answer = λ answer e. cc e }
  call_present-IsCalled (some verifier) same standing admitted =
      let left = shortened env.allowed ((r.now + verification_age) - now) in
      inr record {
        verifier = verifier;
        left = left;
        standing = standing;
        admitted = admitted;
        implemented = same;
        in_time = omega (
          arith,
          shortened-min env.allowed ((r.now + verification_age) - now),
          admitted.not_expired,
        );
        within =
            λ limit e. shortened-allowed env.allowed ((r.now + verification_age) - now) limit e;
        changed = refl;
        taken = accept_result-eq-ok r (now + env.elapsed) env.ended (verifier w left r).0;
      }

  call_verifier-IsCalled :
      (o : Check)
      → admit_verification s r now env.cancelled ≡ o
      → IsRefused w (call_verifier s.implementation r now env w o)
        ⊎ IsCalled s r now env w (call_verifier s.implementation r now env w o)
  unfolding call_verifier
  call_verifier-IsCalled (ok _) accepted =
      let (standing, admitted) = admit_verification-IsVerifiable accepted in
      call_present-IsCalled s.implementation refl standing admitted
  call_verifier-IsCalled (err message) _ =
      inl record { unchanged = refl; no_answer = λ answer e. cc e }
  call_verifier-IsCalled panic _ = inl record { unchanged = refl; no_answer = λ answer e. cc e }
  call_verifier-IsCalled hang _ = inl record { unchanged = refl; no_answer = λ answer e. cc e }

-- A connection verification service either leaves the implementation alone and returns no result, or the
-- request is for the service's own release and timely; then the implementation is called once, with a
-- deadline at most a minute behind the request, and a result is returned only if it came from that call,
-- the context still stands, and it is evidence bound to the request and its time.
pub verify_connection-IsCalled :
    ⦃urls : UrlParser⦄ ⦃m : Encoder Manifest⦄ ⦃h : Sha256⦄ ⦃p : PlainJson⦄ ⦃t : Tokenizer⦄
    ⦃v : Encoder Value⦄ ⦃q : Encoder VerifyRequest⦄ {W : Type 0}
    (s : ConnectionVerificationService W) (r : VerifyRequest) (now : ℕ) (env : Surroundings) (w : W)
    → IsRefused w (verify_connection s r now env w)
      ⊎ IsCalled s r now env w (verify_connection s r now env w)
unfolding verify_connection
verify_connection-IsCalled s r now env w =
    call_verifier-IsCalled s r now env w (admit_verification s r now env.cancelled) refl
