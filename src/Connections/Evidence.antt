-- ===== src/Connections/Evidence.antt =====
-- What the result of a connection's verification shows.
use mathlib.Core.Path.{subst}
use provider_sdk.Base.{
  >>-eq-ok, >>=-eq-ok, Option, Result, String, ap, arith, eq_iff, false, length, list_eq, ltb,
  nat_eq, none, not, ok, ok_of, pass, reject, relabel, relabel-eq-ok, true, ℕ, ◌!=◌, ◌*◌, ◌+◌, ◌<◌,
  ◌||◌, ◌∙◌, ◌≡◌, ◌≤◌,
}
use provider_sdk.Connections.{
  ConnectionVerificationResult, accept_result, validate_verification_result, verification_age,
  verify_connection_request_digest,
}
use provider_sdk.Json.{Tokenizer, Value}
use provider_sdk.Manifest.{connection_verification_protocol}
use provider_sdk.Platform.{Encoder, PlainJson, Sha256}
use provider_sdk.Requests.{VerifyRequest}
use provider_sdk.Selection.{selector_eq}
use provider_sdk.Text.{Text, is_blank}
use provider_sdk.Time.{is_after, is_before, is_zero_time, minute, second}
use provider_sdk.Discovery.Admitted.{unless_ended-eq-pass}
use provider_sdk.Discovery.Service.{unless_ended}
use provider_sdk.Text.Patterns.{digest_pattern}

-- Evidence about the target of exactly this request, from the time between the request and `now`, with
-- half a minute of slack on either side, and less than a minute after the request.
pub record IsEvidence ⦃h : Sha256⦄ ⦃p : PlainJson⦄ ⦃t : Tokenizer⦄ ⦃v : Encoder Value⦄
    ⦃q : Encoder VerifyRequest⦄ (result : ConnectionVerificationResult) (r : VerifyRequest)
    (now : ℕ) : Type 0 where
  pub bound : verify_connection_request_digest r ≡ ok result.request_digest
  pub named : is_blank result.target_identity ≡ false
  pub bounded : length result.target_identity ≤ 2048
  pub evidenced : digest_pattern result.evidence_digest ≡ true
  pub not_early : r.now ≤ result.verified_at + 30 * second
  pub not_late : result.verified_at ≤ now + 30 * second
  pub prompt : now < r.now + minute

binding_of :
    (result : ConnectionVerificationResult) (digest : Text) (message : String)
    → reject
        (result.protocol != connection_verification_protocol
          || result.request_digest != digest
          || not (digest_pattern result.evidence_digest)
          || is_blank result.target_identity
          || ltb 2048 (length result.target_identity))
        message
      ≡ pass
    → (digest ≡ result.request_digest)
      × (digest_pattern result.evidence_digest ≡ true)
      × (is_blank result.target_identity ≡ false)
      × (length result.target_identity ≤ 2048)
binding_of result digest message h = ground (arith, eq_iff result.request_digest digest)

timing_of :
    (asked verified now : ℕ) (message : String)
    → reject
        (is_zero_time now
          || is_zero_time asked
          || is_zero_time verified
          || is_before (verified + 30 * second) asked
          || is_after verified (now + 30 * second)
          || not (is_after (asked + verification_age) now))
        message
      ≡ pass
    → (asked ≤ verified + 30 * second) × (verified ≤ now + 30 * second) × (now < asked + minute)
timing_of asked verified now message h = ground arith

module _ ⦃h : Sha256⦄ ⦃p : PlainJson⦄ ⦃t : Tokenizer⦄ ⦃v : Encoder Value⦄
    ⦃q : Encoder VerifyRequest⦄ where
  validate_verification_result-IsEvidence :
      (result : ConnectionVerificationResult) (r : VerifyRequest) (now : ℕ)
      → validate_verification_result result r now ≡ pass
      → IsEvidence result r now
  unfolding validate_verification_result
  validate_verification_result-IsEvidence result r now accepted =
      let unbound : String = "connection verification result does not bind the requested target" in
      let (digest, computed, h₁) =
        >>=-eq-ok (relabel (verify_connection_request_digest r) unbound) _ accepted in
      let (binding, timing) = >>-eq-ok (reject _ unbound) _ h₁ in
      let (same, evidenced, named, bounded) = binding_of result digest unbound binding in
      let (not_early, not_late, prompt) =
        timing_of r.now result.verified_at now
          "connection verification result is stale or future dated" timing in
      record {
        bound = relabel-eq-ok (verify_connection_request_digest r) unbound computed ∙ ap ok same;
        named = named;
        bounded = bounded;
        evidenced = evidenced;
        not_early = not_early;
        not_late = not_late;
        prompt = prompt;
      }

  pub accept_result-eq-ok :
      (r : VerifyRequest) (now : ℕ) (ended : Option String)
      (answer : Result ConnectionVerificationResult) (result : ConnectionVerificationResult)
      → accept_result r now ended answer ≡ ok result
      → (answer ≡ ok result) × (ended ≡ none) × IsEvidence result r now
  unfolding accept_result
  accept_result-eq-ok r now ended answer result accepted =
      let (given, answered, h₁) = >>=-eq-ok answer _ accepted in
      let (standing, h₂) = >>-eq-ok (unless_ended ended) _ h₁ in
      let (valid, h₃) = >>-eq-ok (validate_verification_result given r now) _ h₂ in
      let same : given ≡ result = ok_of h₃ in
      (
        answered ∙ ap ok same,
        unless_ended-eq-pass ended standing,
        subst (λ g. IsEvidence g r now) same
            (validate_verification_result-IsEvidence given r now valid),
      )
