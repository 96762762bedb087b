-- ===== src/Http.antt =====
-- The authenticated transport of http.go: request signatures, with their definition in protocol.go,
-- and the authentication of a request against the nonces that the handler remembers.
pub mod Replay
pub mod Client
pub mod Calls
pub mod Discoveries
pub mod Discovered
pub mod Routes
pub mod Actions
pub mod Refinement
pub mod Progress
pub mod Started
pub mod Exchange
pub mod Serving
pub mod Retention
pub mod Window
pub mod Handlers
use provider_sdk.Base.{
  Bool, Check, List, Option, [], contains, if◌then◌else◌, is_ok, keys, length, list_eq, ltb, nat_eq,
  none, not, reject, some, true, ℕ, ◌!=◌, ◌&&◌, ◌*◌, ◌++◌, ◌+◌, ◌/◌, ◌<◌, ◌>>=◌, ◌>>◌, ◌||◌, ◌∷◌,
  ◌≡◌,
}
use provider_sdk.Selection.{selector_eq}
use provider_sdk.Text.{Text, bytes, is_blank}
use provider_sdk.Time.{is_after, is_before, minute, second}

-- `hmac.New(sha256.New, key)`, written and hex encoded
pub record Hmac : Type 0 where
  pub mac : Text → Text → Text

-- `time.Parse` and `Time.Format` at `time.RFC3339`; the layout drops the part of a second.
pub record Rfc3339 : Type 0 where
  pub parse : Text → Option ℕ
  pub format : ℕ → Text
  pub parse_format :
      (t : ℕ) → t < 3652425 * (86400 * second) → parse (format t) ≡ some ((t / second) * second)

-- `Signature`
unfoldable pub signature : ⦃h : Hmac⦄ → Text → Text → Text → Text → Text
signature ⦃h⦄ secret timestamp nonce body =
    bytes "sha256=" ++ h.mac secret (timestamp ++ (bytes "\n" ++ (nonce ++ (bytes "\n" ++ body))))

-- `err != nil || parsed.Before(now.Add(-2*time.Minute)) || parsed.After(now.Add(2*time.Minute))`
abbrev pub untimely : Option ℕ → ℕ → Bool
untimely none now = true
untimely (some parsed) now =
    is_before (parsed + 2 * minute) now || is_after parsed (now + 2 * minute)

-- `VerifySignature`
unfoldable pub verify_signature :
    ⦃h : Hmac⦄ ⦃p : Rfc3339⦄ → Text → Text → Text → Text → Text → ℕ → Check
unfolding signature
verify_signature ⦃p⦄ secret timestamp nonce given body now = do
  reject (untimely (p.parse timestamp) now) "adapter request timestamp is invalid"
  reject (is_blank nonce || signature secret timestamp nonce body != given)
      "adapter request signature is invalid"

abbrev pub max_protocol_body : ℕ
max_protocol_body = 1048576

-- What the handler reads of a request: the five headers, and the body unless reading it failed.
pub record HttpRequest : Type 0 where
  pub release : Text
  pub manifest_digest : Text
  pub timestamp : Text
  pub nonce : Text
  pub given : Text
  pub body : Option Text

-- The configuration of an HTTPHandler.
pub record Handler : Type 0 where
  pub shared_secret : Text
  pub manifest_digest : Text
  pub release : Text

-- `HTTPHandler.seen`: each nonce met, with the time at which it was accepted.
abbrev pub Seen : Type 0
Seen = List (Text × ℕ)

-- The three readings of `h.Now()` in one authentication.
pub record Clock : Type 0 where
  pub checked_at : ℕ
  pub cut_at : ℕ
  pub recorded_at : ℕ

-- The loop that deletes what was accepted before `cutoff`, three minutes before `now`.
unfoldable pub forget : ℕ → Seen → Seen
forget now [] = []
forget now ((value, stamp) ∷ seen) =
    let rest = forget now seen in
    if is_before (stamp + 3 * minute) now then rest else (value, stamp) ∷ rest

-- The part of `authenticate` under the mutex.
unfoldable pub remember : Text → Text → Clock → Seen → Option (Text × Text) × Seen
unfolding forget
remember body nonce c seen =
    let kept = forget c.cut_at seen in
    if contains (keys kept) nonce || is_blank nonce
    then (none, kept)
    else (some (body, nonce), (nonce, c.recorded_at) ∷ kept)

-- The tests of `authenticate` on a body that could be read, before the mutex is taken.
unfoldable pub admits : ⦃h : Hmac⦄ ⦃p : Rfc3339⦄ → Handler → HttpRequest → Text → ℕ → Bool
unfolding verify_signature
admits h r body now =
    not (
      ltb max_protocol_body (length body)
      || r.release != h.release
      || r.manifest_digest != h.manifest_digest)
    && is_ok (verify_signature h.shared_secret r.timestamp r.nonce r.given body now)

unfoldable pub authenticate_body :
    ⦃h : Hmac⦄ ⦃p : Rfc3339⦄
    → Handler
    → HttpRequest
    → Option Text
    → Clock
    → Seen
    → Option (Text × Text) × Seen
unfolding admits remember
authenticate_body h r none c seen = (none, seen)
authenticate_body h r (some body) c seen =
    if admits h r body c.checked_at then remember body r.nonce c seen else (none, seen)

-- `HTTPHandler.authenticate`: the body and the nonce of an accepted request, and the nonces after it.
unfoldable pub authenticate :
    ⦃h : Hmac⦄ ⦃p : Rfc3339⦄ → Handler → HttpRequest → Clock → Seen → Option (Text × Text) × Seen
unfolding authenticate_body
authenticate h r c seen = authenticate_body h r r.body c seen
