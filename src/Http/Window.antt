-- ===== src/Http/Window.antt =====
-- The window of a signature's timestamp against the time for which its nonce is remembered.
use mathlib.Core.Bool.{false≢true}
use provider_sdk.Base.{
  Bool, Option, String, arith, eq_iff, false, is_ok_iff, length, list_eq, nat_eq, none, pass, refl,
  reject, some, sym, true, ℕ, ◌!=◌, ◌*◌, ◌+◌, ◌>>◌, ◌||◌, ◌↔◌, ◌≡◌, ◌≤◌,
}
use provider_sdk.Http.{
  Clock, Handler, Hmac, HttpRequest, Rfc3339, Seen, admits, authenticate, authenticate_body,
  max_protocol_body, remember, signature, untimely, verify_signature,
}
use provider_sdk.Selection.{selector_eq}
use provider_sdk.Text.{Text, is_blank}
use provider_sdk.Time.{minute}

-- What VerifySignature demands of the text of a timestamp.
abbrev pub IsTimely : ⦃p : Rfc3339⦄ → Text → ℕ → Type 0
IsTimely ⦃p⦄ timestamp now =
    (parsed : ℕ) × (p.parse timestamp ≡ some parsed)
    × (now ≤ parsed + 2 * minute)
    × (parsed ≤ now + 2 * minute)

untimely-eq-false_iff :
    (o : Option ℕ) (now : ℕ)
    → (untimely o now ≡ false) ↔ (
        (parsed : ℕ) × (o ≡ some parsed)
        × (now ≤ parsed + 2 * minute)
        × (parsed ≤ now + 2 * minute))
untimely-eq-false_iff none now = (λ h. absurd (false≢true (sym h)), λ (t, e, _, _). cc e)
untimely-eq-false_iff (some t) now = (
  λ h. (t, refl, ground arith, ground arith),
  λ (u, e, low, high). let same : t ≡ u = cc e in ground arith,
)

rejects-eq-pass_iff :
    (a b : Bool) (x y : String) → ((reject a x >> reject b y) ≡ pass) ↔ ((a ≡ false) × (b ≡ false))
rejects-eq-pass_iff true b x y = ground arith
rejects-eq-pass_iff false true x y = ground arith
rejects-eq-pass_iff false false x y = ground arith

unsigned-eq-false_iff :
    (blank : Bool) (s given : Text)
    → ((blank || s != given) ≡ false) ↔ ((blank ≡ false) × (given ≡ s))
unsigned-eq-false_iff blank s given = ground (arith, eq_iff s given)

-- VerifySignature accepts exactly what was signed over this timestamp, this nonce and this body,
-- with a timestamp at most two minutes from the clock and a nonce that is not blank.
pub verify_signature_iff :
    ⦃h : Hmac⦄ ⦃p : Rfc3339⦄ (secret timestamp nonce given body : Text) (now : ℕ)
    → (verify_signature secret timestamp nonce given body now ≡ pass) ↔ (
        IsTimely timestamp now
        × (is_blank nonce ≡ false)
        × (given ≡ signature secret timestamp nonce body))
unfolding verify_signature
verify_signature_iff ⦃p = p⦄ secret timestamp nonce given body now =
    let (to, from) = untimely-eq-false_iff (p.parse timestamp) now in
    let (apart, together) =
      rejects-eq-pass_iff (untimely (p.parse timestamp) now)
        (is_blank nonce || signature secret timestamp nonce body != given)
        "adapter request timestamp is invalid" "adapter request signature is invalid" in
    let (signed, unsigned) =
      unsigned-eq-false_iff (is_blank nonce) (signature secret timestamp nonce body) given in
    (
      λ e. (to (apart e).0, (signed (apart e).1).0, (signed (apart e).1).1),
      λ (timely, filled, same). together (from timely, unsigned (filled, same)),
    )

-- A request that is accepted was signed over its own timestamp, nonce and body, names this release
-- and this manifest, and is not longer than the protocol allows.
pub record IsAuthentic ⦃m : Hmac⦄ ⦃p : Rfc3339⦄ (h : Handler) (r : HttpRequest) (body : Text)
    (now : ℕ) : Type 0 where
  pub read : r.body ≡ some body
  pub short : length body ≤ max_protocol_body
  pub same_release : r.release ≡ h.release
  pub same_manifest : r.manifest_digest ≡ h.manifest_digest
  pub timely : IsTimely r.timestamp now
  pub signed : r.given ≡ signature h.shared_secret r.timestamp r.nonce body

module _ ⦃m : Hmac⦄ ⦃p : Rfc3339⦄ (h : Handler) (r : HttpRequest) (c : Clock) (seen : Seen) where
  -- The parts of the test that precedes the mutex.
  pub admits_iff :
      (body : Text) (now : ℕ)
      → (admits h r body now ≡ true) ↔ (
          (length body ≤ max_protocol_body)
          × (r.release ≡ h.release)
          × (r.manifest_digest ≡ h.manifest_digest)
          × (verify_signature h.shared_secret r.timestamp r.nonce r.given body now ≡ pass))
  unfolding admits
  admits_iff body now = ground (
    arith,
    eq_iff r.release h.release,
    eq_iff r.manifest_digest h.manifest_digest,
    is_ok_iff (verify_signature h.shared_secret r.timestamp r.nonce r.given body now),
  )

  admits-IsAuthentic :
      (body : Text)
      → r.body ≡ some body
      → admits h r body c.checked_at ≡ true
      → IsAuthentic h r body c.checked_at
  admits-IsAuthentic body e a =
      let (short, release, manifest, verified) = (admits_iff body c.checked_at).0 a in
      let (timely, _, signed) =
        (verify_signature_iff h.shared_secret r.timestamp r.nonce r.given body c.checked_at).0
          verified in
      record {
        read = e;
        short = short;
        same_release = release;
        same_manifest = manifest;
        timely = timely;
        signed = signed;
      }

  remember-eq-some :
      (b body nonce : Text)
      → (remember b r.nonce c seen).0 ≡ some (body, nonce)
      → (b ≡ body) × (r.nonce ≡ nonce)
  unfolding remember
  remember-eq-some b body nonce e = ground arith

  pub authenticate_body-eq-some :
      (o : Option Text) (body nonce : Text)
      → (authenticate_body h r o c seen).0 ≡ some (body, nonce)
      → (o ≡ some body)
        × (admits h r body c.checked_at ≡ true)
        × (nonce ≡ r.nonce)
        × ((remember body r.nonce c seen).0 ≡ some (body, nonce))
  unfolding authenticate_body
  authenticate_body-eq-some none body nonce a = cc a
  authenticate_body-eq-some (some b) body nonce a = ground (arith, remember-eq-some b body nonce)

-- A request that is accepted is authentic, and the nonce handed to the handler is its own.
pub authenticate-IsAuthentic :
    ⦃m : Hmac⦄ ⦃p : Rfc3339⦄ (h : Handler) (r : HttpRequest) (c : Clock) (seen : Seen)
    (body nonce : Text)
    → (authenticate h r c seen).0 ≡ some (body, nonce)
    → IsAuthentic h r body c.checked_at × (nonce ≡ r.nonce)
unfolding authenticate
authenticate-IsAuthentic h r c seen body nonce a =
    let (e, good, same, _) = authenticate_body-eq-some h r c seen r.body body nonce a in
    (admits-IsAuthentic h r c seen body e good, same)
