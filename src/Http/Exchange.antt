-- ===== src/Http/Exchange.antt =====
-- A client and a handler of one release: each accepts what the other sends.
use provider_sdk.Http.Handlers.{respond, success}
use provider_sdk.Http.{
  Clock, Handler, Hmac, Rfc3339, Seen, authenticate, authenticate_body, max_protocol_body, remember,
  signature, verify_signature,
}
use provider_sdk.Http.Client.{HttpClient, read_reply, receive, reply_of, signed_request}
use provider_sdk.Base.{
  ap, arith, contains, eq_iff, false, if◌then◌else◌, keys, length, list_eq, nat_eq, none, ok, pass,
  some, sym, ℕ, ◌*◌, ◌+◌, ◌/◌, ◌<◌, ◌∙◌, ◌≡◌, ◌≤◌,
}
use provider_sdk.Limits.{fits}
use provider_sdk.Selection.{selector_eq}
use provider_sdk.Text.{Text, is_blank}
use provider_sdk.Time.{minute, second}
use provider_sdk.Http.Retention.{forget_absent}
use provider_sdk.Http.Window.{admits_iff, verify_signature_iff}
use provider_sdk.Platform.{Decoder, Encoder, decode_strict}

-- The two ends are configured for the same release of the same adapter.
pub record Agree (c : HttpClient) (h : Handler) : Type 0 where
  pub same_secret : c.shared_secret ≡ h.shared_secret
  pub same_manifest : c.manifest_digest ≡ h.manifest_digest
  pub same_release : c.release ≡ h.release

-- The clock of the other end is less than two minutes ahead, less the second that the timestamp
-- drops, and no more than two minutes behind; both are before the year 10000.
pub record InStep (written_at read_at : ℕ) : Type 0 where
  pub not_ahead : read_at + second ≤ written_at + 2 * minute
  pub not_behind : written_at ≤ read_at + 2 * minute
  pub printable : written_at < 3652425 * (86400 * second)

module _ ⦃m : Hmac⦄ ⦃p : Rfc3339⦄ where
  -- What one end signs, the other verifies.
  verify_signature-signature :
      (ours theirs nonce body : Text) (written_at read_at : ℕ)
      → theirs ≡ ours
      → InStep written_at read_at
      → is_blank nonce ≡ false
      → verify_signature ours
          (p.format written_at)
          nonce
          (signature theirs (p.format written_at) nonce body)
          body
          read_at
        ≡ pass
  verify_signature-signature ours theirs nonce body written_at read_at shared step filled =
      let low = step.not_ahead in
      let high = step.not_behind in
      let t = p.format written_at in
      (verify_signature_iff ours t nonce (signature theirs t nonce body) body read_at).1 (
        (
          (written_at / second) * second,
          p.parse_format written_at step.printable,
          omega arith,
          omega arith,
        ),
        filled,
        ap (λ s. signature s t nonce body) shared,
      )

remember_new :
    (body nonce : Text) (c : Clock) (seen : Seen)
    → is_blank nonce ≡ false
    → contains (keys seen) nonce ≡ false
    → (remember body nonce c seen).0 ≡ some (body, nonce)
unfolding remember
remember_new body nonce c seen filled new =
    let kept = forget_absent c.cut_at seen nonce new in ground arith

-- A handler accepts what a client of the same release signed, unless its nonce was met before, and
-- hands the signed body and the nonce on.
pub authenticate-signed_request :
    ⦃m : Hmac⦄ ⦃p : Rfc3339⦄ (c : HttpClient) (h : Handler) (nonce body : Text) (sent_at : ℕ)
    (clock : Clock) (seen : Seen)
    → Agree c h
    → InStep sent_at clock.checked_at
    → is_blank nonce ≡ false
    → contains (keys seen) nonce ≡ false
    → length body ≤ max_protocol_body
    → (authenticate h (signed_request c nonce body sent_at) clock seen).0 ≡ some (body, nonce)
unfolding signed_request authenticate authenticate_body
authenticate-signed_request c h nonce body sent_at clock seen agree step filled new fits =
    let r = signed_request c nonce body sent_at in
    let verified =
      verify_signature-signature h.shared_secret c.shared_secret nonce body sent_at clock.checked_at
        agree.same_secret step filled in
    let admitted =
      (admits_iff h r clock seen body clock.checked_at).1
        (fits, agree.same_release, agree.same_manifest, verified) in
    ap (λ b. (if b then remember body nonce clock seen else (none, seen)).0) admitted
    ∙ remember_new body nonce clock seen filled new

respond-eq-success :
    ⦃m : Hmac⦄ ⦃p : Rfc3339⦄ {B : Type 0} ⦃e : Encoder B⦄ (h : Handler) (nonce encoded : Text)
    (value : B) (now : ℕ)
    → e.marshal value ≡ ok encoded
    → respond h nonce value now
      ≡ success h.manifest_digest
          (p.format now)
          (signature h.shared_secret (p.format now) nonce encoded)
          encoded
unfolding respond
respond-eq-success h nonce encoded value now eq = ground arith

receive_lem :
    ⦃m : Hmac⦄ ⦃p : Rfc3339⦄ {B : Type 0} ⦃d : Decoder B⦄ (c : HttpClient)
    (nonce digest timestamp given encoded : Text) (value : B) (now : ℕ)
    → digest ≡ c.manifest_digest
    → verify_signature c.shared_secret timestamp nonce given encoded now ≡ pass
    → length encoded ≤ max_protocol_body
    → decode_strict encoded ≡ ok value
    → receive c nonce (reply_of (success digest timestamp given encoded)) now ≡ ok value
unfolding receive read_reply reply_of
receive_lem c nonce digest timestamp given encoded value now same verified fits decoded =
    ground (arith, eq_iff digest c.manifest_digest)

-- The value that a handler writes comes back to the client of its release (with the same secret and
-- manifest digest): if the strict decoder reads
-- what the encoder writes of the value, the encoding is not too long, the nonce is not blank and the
-- clocks are in step, then the client accepts the response and returns the value itself.
pub receive-respond :
    ⦃m : Hmac⦄ ⦃p : Rfc3339⦄ {B : Type 0} ⦃e : Encoder B⦄ ⦃d : Decoder B⦄ (c : HttpClient)
    (h : Handler) (nonce encoded : Text) (value : B) (written_at read_at : ℕ)
    → Agree c h
    → InStep written_at read_at
    → is_blank nonce ≡ false
    → e.marshal value ≡ ok encoded
    → length encoded ≤ max_protocol_body
    → ((written : Text) → e.marshal value ≡ ok written → decode_strict written ≡ ok value)
    → receive c nonce (reply_of (respond h nonce value written_at)) read_at ≡ ok value
receive-respond ⦃p = p⦄ c h nonce encoded value written_at read_at agree step filled e fits
      decodes_encoded =
    let t = p.format written_at in
    let sent = respond-eq-success h nonce encoded value written_at e in
    let verified =
      verify_signature-signature c.shared_secret h.shared_secret nonce encoded written_at read_at
        (sym agree.same_secret) step filled in
    ap (λ r. receive c nonce (reply_of r) read_at) sent
    ∙ receive_lem c nonce h.manifest_digest t (signature h.shared_secret t nonce encoded) encoded
        value read_at (sym agree.same_manifest) verified fits (decodes_encoded encoded e)
