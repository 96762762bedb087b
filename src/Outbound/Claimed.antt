-- ===== src/Outbound/Claimed.antt =====
-- When a claimed dispatch reaches an implementation.
use provider_sdk.Base.{
  >>-eq-ok, >>=-eq-ok, Bool, In, String, ap, arith, contains, contains_iff, eq_iff, false, list_eq,
  nat_eq, not, ok, pass, refl, reject, reject-eq-ok, relabel, relabel-eq-ok, some, true, ℕ, ◌!=◌,
  ◌+◌, ◌-◌, ◌<◌, ◌||◌, ◌∙◌, ◌≡◌, ◌≤◌,
}
use provider_sdk.Json.{Tokenizer, Value}
use provider_sdk.Outbound.{outbound_phases, outbound_runtime_protocol}
use provider_sdk.Platform.{Decoder, Encoder, PlainJson, Sha256, decode_strict}
use provider_sdk.Selection.{selector_eq}
use provider_sdk.Text.{Text, is_blank}
use provider_sdk.Time.{is_after, is_before, is_zero_time}
use provider_sdk.Discovery.Admitted.{not_different, shortened-min}
use provider_sdk.Discovery.Service.{Surroundings, shortened}
use provider_sdk.Outbound.Discovering.{with_limit}
use provider_sdk.Outbound.Dispatched.{Dispatch, dispatch_request_digest, validate_dispatch}

-- The claim is live and made in one of the known phases, and the digest is that of the request.
pub record IsClaimed ⦃h : Sha256⦄ ⦃p : PlainJson⦄ ⦃t : Tokenizer⦄ ⦃v : Encoder Value⦄ (d : Dispatch)
    (now : ℕ) : Type 0 where
  pub speaks : d.protocol ≡ outbound_runtime_protocol
  pub identified : is_blank d.id ≡ false
  pub connected : is_blank d.connection_id ≡ false
  pub claimed : is_blank d.claim_token ≡ false
  pub ordered : d.claimed_at ≤ d.expires_at
  pub live : now < d.expires_at
  pub known : In d.phase outbound_phases
  pub bound : dispatch_request_digest d.phase d.request ≡ ok d.request_digest

identity_of :
    (d : Dispatch) (now : ℕ) (message : String)
    → reject
        (d.protocol != outbound_runtime_protocol
          || is_blank d.id
          || is_blank d.connection_id
          || is_blank d.claim_token
          || is_zero_time d.claimed_at
          || is_zero_time d.expires_at
          || not (is_after d.expires_at now)
          || is_before d.expires_at d.claimed_at)
        message
      ≡ pass
    → (d.protocol ≡ outbound_runtime_protocol)
      × (is_blank d.id ≡ false)
      × (is_blank d.connection_id ≡ false)
      × (is_blank d.claim_token ≡ false)
      × (d.claimed_at ≤ d.expires_at)
      × (now < d.expires_at)
identity_of d now message h = ground (arith, eq_iff d.protocol outbound_runtime_protocol)

known_of : (known : Bool) (message : String) → reject (not known) message ≡ pass → known ≡ true
known_of known message h = ground arith

pub validate_dispatch-IsClaimed :
    ⦃h : Sha256⦄ ⦃p : PlainJson⦄ ⦃t : Tokenizer⦄ ⦃v : Encoder Value⦄ (d : Dispatch) (now : ℕ)
    → validate_dispatch d now ≡ pass
    → IsClaimed d now
unfolding validate_dispatch
validate_dispatch-IsClaimed d now accepted =
    let unbound : String = "outbound dispatch request digest does not match" in
    let (identity, h₁) =
      >>-eq-ok (reject _ "outbound dispatch identity or lifetime is invalid") _ accepted in
    let (phase, h₂) = >>-eq-ok (reject _ "outbound dispatch phase is invalid") _ h₁ in
    let (digest, computed, same) =
      >>=-eq-ok (relabel (dispatch_request_digest d.phase d.request) unbound) _ h₂ in
    let (speaks, identified, connected, claimed, ordered, live) =
      identity_of d now "outbound dispatch identity or lifetime is invalid" identity in
    record {
      speaks = speaks;
      identified = identified;
      connected = connected;
      claimed = claimed;
      ordered = ordered;
      live = live;
      known =
          (contains_iff outbound_phases d.phase).0 (
            known_of (contains outbound_phases d.phase) "outbound dispatch phase is invalid" phase);
      bound =
          relabel-eq-ok (dispatch_request_digest d.phase d.request) unbound computed
          ∙ ap ok (
              not_different digest d.request_digest
                (reject-eq-ok (digest != d.request_digest) unbound same));
    }

-- A dispatch of this phase carries the request `r` for the connection that the runtime claimed.
pub record Carries ⦃h : Sha256⦄ ⦃p : PlainJson⦄ ⦃t : Tokenizer⦄ ⦃v : Encoder Value⦄ {A : Type 0}
    ⦃e : Decoder A⦄ (d : Dispatch) (now : ℕ) (phase : Text) (connection : A → Text) (r : A)
    : Type 0 where
  pub claim : IsClaimed d now
  pub in_phase : d.phase ≡ phase
  pub decoded : decode_strict d.request ≡ ok r
  pub for_connection : connection r ≡ d.connection_id

-- The time that a dispatch leaves ends with its claim.
pub with_limit-ends :
    (env : Surroundings) (d : Dispatch) (now left : ℕ)
    → now < d.expires_at
    → ((limit : ℕ) → (with_limit env (d.expires_at - now)).allowed ≡ some limit → left ≤ limit)
    → now + left ≤ d.expires_at
with_limit-ends env d now left live within = omega (
  arith,
  live,
  shortened-min env.allowed (d.expires_at - now),
  within (shortened env.allowed (d.expires_at - now)) refl,
)
