-- ===== src/Outbound/Verified.antt =====
-- Which dispatches reach the implementation of a connection's verification.
use provider_sdk.Connections.Verified
use mathlib.Core.Path.{subst}
use provider_sdk.Base.{
  >>-eq-ok, >>=-eq-ok, Result, String, arith, eq_iff, err, hang, inl, inr, list_eq, nat_eq, ok,
  ok_of, panic, pass, refl, reject, reject-eq-ok, relabel, relabel-eq-ok, ℕ, ◌!=◌, ◌+◌, ◌-◌, ◌||◌,
  ◌≡◌, ◌≤◌, ◌⊎◌,
}
use provider_sdk.Connections.{ConnectionVerificationResult, ConnectionVerificationService}
use provider_sdk.Json.{Tokenizer, Value}
use provider_sdk.Limits.{fits}
use provider_sdk.Manifest.{Manifest, UrlParser, outbound_pull, transport_mode}
use provider_sdk.Platform.{Decoder, Encoder, PlainJson, Sha256, decode_strict}
use provider_sdk.Requests.{VerifyRequest}
use provider_sdk.Selection.{selector_eq}
use provider_sdk.Text.{Text}
use provider_sdk.Connections.Verified.{IsCalled, verify_connection-IsCalled}
use provider_sdk.Discovery.Admitted.{IsRefused, not_different}
use provider_sdk.Discovery.Service.{Surroundings}
use provider_sdk.Outbound.Claimed.{Carries, validate_dispatch-IsClaimed, with_limit-ends}
use provider_sdk.Outbound.Connecting.{open_verification, verify_dispatched, verify_opened}
use provider_sdk.Outbound.Discovering.{with_limit}
use provider_sdk.Outbound.Dispatched.{Dispatch, phase_verify_connection, validate_dispatch}

dispatch_fits :
    (a b c d : Text) (message : String)
    → reject (a != b || c != d) message ≡ pass
    → (a ≡ b) × (c ≡ d)
dispatch_fits a b c d message h = ground (arith, eq_iff a b, eq_iff c d)

module _ ⦃urls : UrlParser⦄ ⦃m : Encoder Manifest⦄ ⦃h : Sha256⦄ ⦃p : PlainJson⦄ ⦃t : Tokenizer⦄
    ⦃v : Encoder Value⦄ ⦃q : Encoder VerifyRequest⦄ ⦃e : Decoder VerifyRequest⦄ {W : Type 0}
    (s : ConnectionVerificationService W) (dispatch : Dispatch) (now : ℕ) (env : Surroundings)
    (w : W) where
  open_verification-Carries :
      (r : VerifyRequest)
      → open_verification dispatch s now ≡ ok r
      → (transport_mode s.manifest.broker ≡ outbound_pull)
        × Carries dispatch now phase_verify_connection (λ q. q.connection_id) r
  unfolding open_verification
  open_verification-Carries r opened =
      let mismatch : String = "connection verification dispatch identity mismatch" in
      let other : String = "not an outbound connection verification dispatch" in
      let (valid, h₁) = >>-eq-ok (validate_dispatch dispatch now) _ opened in
      let (fits, h₂) = >>-eq-ok (reject _ other) _ h₁ in
      let (given, decoded, h₃) =
        >>=-eq-ok (relabel (decode_strict dispatch.request) mismatch) _ h₂ in
      let (connection, h₄) = >>-eq-ok (reject _ mismatch) _ h₃ in
      let same : given ≡ r = ok_of h₄ in
      let (phase, pulled) =
        dispatch_fits dispatch.phase phase_verify_connection (transport_mode s.manifest.broker)
          outbound_pull other fits in
      (
        pulled,
        subst (Carries dispatch now phase_verify_connection (λ q. q.connection_id)) same record {
          claim = validate_dispatch-IsClaimed dispatch now valid;
          in_phase = phase;
          decoded = relabel-eq-ok (decode_strict dispatch.request) mismatch decoded;
          for_connection =
              not_different given.connection_id dispatch.connection_id
                (reject-eq-ok (given.connection_id != dispatch.connection_id) mismatch connection);
        },
      )

  -- The implementation is called, with what a live claim carries and for as long as it lives.
  abbrev pub VerificationCalled : Result ConnectionVerificationResult × W → Type 0
  VerificationCalled result =
      (r : VerifyRequest) × Carries dispatch now phase_verify_connection (λ q. q.connection_id) r
      × (transport_mode s.manifest.broker ≡ outbound_pull)
      × (call : Verified.IsCalled s r now (with_limit env (dispatch.expires_at - now)) w result)
      × (now + call.left ≤ dispatch.expires_at)

  verify_opened-Called :
      (o : Result VerifyRequest)
      → open_verification dispatch s now ≡ o
      → IsRefused w (verify_opened s now env w (dispatch.expires_at - now) o)
        ⊎ VerificationCalled (verify_opened s now env w (dispatch.expires_at - now) o)
  unfolding verify_opened
  verify_opened-Called (ok r) opened =
      let (pulled, carried) = open_verification-Carries r opened in
      elim (verify_connection-IsCalled s r now (with_limit env (dispatch.expires_at - now)) w) [
        | inl refused ↦ inl refused
        | inr call ↦ inr (
          r,
          carried,
          pulled,
          call,
          with_limit-ends env dispatch now call.left carried.claim.live call.within,
        )
      ]
  verify_opened-Called (err message) _ =
      inl record { unchanged = refl; no_answer = λ answer e. cc e }
  verify_opened-Called panic _ = inl record { unchanged = refl; no_answer = λ answer e. cc e }
  verify_opened-Called hang _ = inl record { unchanged = refl; no_answer = λ answer e. cc e }

-- A dispatch either leaves the implementation that verifies connections alone and yields no result, or it
-- is a live claim in that phase whose digest is that of its request, the release is pulled from, the
-- request is for the connection that was claimed, and the service calls the implementation on it as it
-- does for any timely request, with a deadline no later than the end of the claim.
pub verify_dispatched-Called :
    ⦃urls : UrlParser⦄ ⦃m : Encoder Manifest⦄ ⦃h : Sha256⦄ ⦃p : PlainJson⦄ ⦃t : Tokenizer⦄
    ⦃v : Encoder Value⦄ ⦃q : Encoder VerifyRequest⦄ ⦃e : Decoder VerifyRequest⦄ {W : Type 0}
    (s : ConnectionVerificationService W) (dispatch : Dispatch) (now : ℕ) (env : Surroundings)
    (w : W)
    → IsRefused w (verify_dispatched dispatch s now env w)
      ⊎ VerificationCalled s dispatch now env w (verify_dispatched dispatch s now env w)
unfolding verify_dispatched
verify_dispatched-Called s dispatch now env w =
    verify_opened-Called s dispatch now env w (open_verification dispatch s now) refl
