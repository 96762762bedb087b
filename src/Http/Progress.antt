-- ===== src/Http/Progress.antt =====
-- No traffic of others keeps a client out.
use provider_sdk.Base.{
  All, List, Option, [], arith, contains, eq_iff, false, keys, length, list_eq, nat_eq, none, refl,
  some, ℕ, ◌∷◌, ◌≡◌, ◌≢◌, ◌≤◌,
}
use provider_sdk.Http.{
  Clock, Handler, Hmac, HttpRequest, Rfc3339, Seen, authenticate, authenticate_body,
  max_protocol_body, remember,
}
use provider_sdk.Limits.{fits}
use provider_sdk.Selection.{selector_eq}
use provider_sdk.Text.{Text, is_blank}
use provider_sdk.Http.Client.{HttpClient, signed_request}
use provider_sdk.Http.Exchange.{Agree, InStep, authenticate-signed_request}
use provider_sdk.Http.Replay.{authenticate_all}
use provider_sdk.Http.Retention.{forget_absent}

module _ (n : Text) where
  remember_absent :
      (body nonce : Text) (c : Clock) (seen : Seen)
      → nonce ≢ n
      → contains (keys seen) n ≡ false
      → contains (keys (remember body nonce c seen).1) n ≡ false
  unfolding remember
  remember_absent body nonce c seen other absent =
      ground (arith, eq_iff nonce n, forget_absent c.cut_at seen n absent)

  module _ ⦃m : Hmac⦄ ⦃p : Rfc3339⦄ (h : Handler) where
    authenticate_body_absent :
        (r : HttpRequest) (o : Option Text) (c : Clock) (seen : Seen)
        → r.nonce ≢ n
        → contains (keys seen) n ≡ false
        → contains (keys (authenticate_body h r o c seen).1) n ≡ false
    unfolding authenticate_body
    authenticate_body_absent r none c seen other absent = absent
    authenticate_body_absent r (some body) c seen other absent =
        ground (arith, remember_absent body r.nonce c seen other absent)

    authenticate_all_absent :
        (attempts : List (HttpRequest × Clock)) (seen : Seen)
        → All (λ a. a.0.nonce ≢ n) attempts
        → contains (keys seen) n ≡ false
        → contains (keys (authenticate_all h attempts seen)) n ≡ false
    unfolding authenticate_all
    authenticate_all_absent [] seen others absent = absent
    authenticate_all_absent ((r, c) ∷ attempts) seen (other, others) absent =
        authenticate_all_absent attempts (authenticate h r c seen).1 others
          (unfold authenticate in authenticate_body_absent r r.body c seen other absent)

-- Whatever requests arrived before, authentic or not, the handler accepts what a client of its release
-- (with the same secret and manifest digest) signs with a nonce that is not blank and that none of them
-- carried, if the clocks of the two are in step and the body is not too long.
pub authenticate-after_others :
    ⦃m : Hmac⦄ ⦃p : Rfc3339⦄ (c : HttpClient) (h : Handler) (nonce body : Text) (sent_at : ℕ)
    (clock : Clock) (attempts : List (HttpRequest × Clock))
    → All (λ a. a.0.nonce ≢ nonce) attempts
    → Agree c h
    → InStep sent_at clock.checked_at
    → is_blank nonce ≡ false
    → length body ≤ max_protocol_body
    → (authenticate h
        (signed_request c nonce body sent_at)
        clock
        (authenticate_all h attempts [])).0
      ≡ some (body, nonce)
authenticate-after_others c h nonce body sent_at clock attempts others agree step filled fits =
    authenticate-signed_request c h nonce body sent_at clock (authenticate_all h attempts []) agree
      step filled (authenticate_all_absent nonce h attempts [] others refl) fits
