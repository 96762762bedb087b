-- ===== src/Http/Client.antt =====
-- HTTPClient of http.go: the request that `call` signs and what it accepts as a response.
use provider_sdk.Http.Handlers.{HttpResponse, failure, success}
use provider_sdk.Http.{Hmac, HttpRequest, Rfc3339, max_protocol_body, signature, verify_signature}
use provider_sdk.Base.{
  Bool, Option, Result, [], err, if◌then◌else◌, is_ok, length, list_eq, ltb, nat_eq, none, not, ok,
  reject, relabel, reverse, some, ℕ, ◌!=◌, ◌++◌, ◌==◌, ◌>>=◌, ◌>>◌, ◌||◌, ◌∷◌,
}
use provider_sdk.Platform.{Decoder, Encoder, decode_strict}
use provider_sdk.Selection.{selector_eq}
use provider_sdk.Text.{Text, bytes, is_blank}
use provider_sdk.Text.Patterns.{digest_pattern}

pub record HttpClient : Type 0 where
  pub endpoint : Text
  pub shared_secret : Text
  pub manifest_digest : Text
  pub release : Text

-- What the client reads of a response: its status, three headers, and the body unless reading it
-- failed.
pub record HttpReply : Type 0 where
  pub status : ℕ
  pub manifest_digest : Text
  pub timestamp : Text
  pub given : Text
  pub body : Option Text

drop_slashes : Text → Text
drop_slashes [] = []
drop_slashes (b ∷ s) = let rest = drop_slashes s in if b == b'/' then rest else b ∷ s

-- `strings.TrimRight(s, "/")`
unfoldable pub trim_right_slashes : Text → Text
unfolding drop_slashes
trim_right_slashes s = reverse (drop_slashes (reverse s))

unfoldable pub is_unconfigured : HttpClient → Bool
is_unconfigured c =
    is_blank c.shared_secret || not (digest_pattern c.manifest_digest) || is_blank c.release

module _ ⦃m : Hmac⦄ ⦃p : Rfc3339⦄ where
  -- The request with its five headers.
  unfoldable pub signed_request : HttpClient → Text → Text → ℕ → HttpRequest
  signed_request c nonce body now = record {
    release = c.release;
    manifest_digest = c.manifest_digest;
    timestamp = p.format now;
    nonce = nonce;
    given = signature c.shared_secret (p.format now) nonce body;
    body = some body;
  }

  unfoldable pub read_reply : Option Text → Result Text
  read_reply none = err "external adapter response is invalid"
  read_reply (some encoded) =
      if ltb max_protocol_body (length encoded)
      then err "external adapter response is invalid"
      else ok encoded

  -- `call` from the response on; the source names the status in the message of the second test.
  unfoldable pub receive :
      {B : Type 0} ⦃d : Decoder B⦄ → HttpClient → Text → HttpReply → ℕ → Result B
  unfolding read_reply
  receive c nonce reply now = do
    encoded ← read_reply reply.body
    reject (reply.status != 200) "external adapter returned another status"
    reject
        (reply.manifest_digest != c.manifest_digest
          || not (
              is_ok
                (verify_signature c.shared_secret reply.timestamp nonce reply.given encoded now)))
        "external adapter response authenticity failed"
    relabel (decode_strict encoded) "external adapter response schema is invalid"

  -- `HTTPClient.call`: `send` makes the request of net/http and sends it, and `nonce` is the outcome
  -- of the nonce source.
  unfoldable pub call :
      {A B : Type 0} ⦃e : Encoder A⦄ ⦃d : Decoder B⦄
      → HttpClient
      → (Text → HttpRequest → Result HttpReply)
      → Result Text
      → ℕ
      → ℕ
      → Text
      → A
      → Result B
  unfolding receive is_unconfigured trim_right_slashes signed_request
  call ⦃e⦄ c send nonce sent_at received_at path input = do
    reject (is_unconfigured c) "external adapter client is not configured"
    nonce_value ← nonce
    body ← e.marshal input
    reply ← send (trim_right_slashes c.endpoint ++ path) (signed_request c nonce_value body sent_at)
    receive c nonce_value reply received_at

-- What a written response is for the client.
unfoldable pub reply_of : HttpResponse → HttpReply
reply_of (failure status message) = record {
  status = status;
  manifest_digest = [];
  timestamp = [];
  given = [];
  body = some (bytes message ++ bytes "\n");
}
reply_of (success digest timestamp given body) = record {
  status = 200;
  manifest_digest = digest;
  timestamp = timestamp;
  given = given;
  body = some body;
}
