-- ===== src/Witnesses/Transport.antt =====
-- Examples of the transport.
use provider_sdk.Base.{
  Result, [], arith, false, is_present, list_beq, none, ok, pass, refl, some, suc, true, ℕ, ◌*◌,
  ◌∷◌, ◌≡◌, ◌⊎◌,
}
use provider_sdk.Http.Handlers.{respond, serve}
use provider_sdk.Platform.{Decoder, decode_strict, nothing}
use provider_sdk.Http.{Clock, Handler, HttpRequest, authenticate}
use provider_sdk.Http.Client.{HttpClient, receive, reply_of, signed_request}
use provider_sdk.Text.{Text, bytes, is_blank}
use provider_sdk.Time.{second}
use provider_sdk.Requests.{Connection}
use provider_sdk.Witnesses.{flat_encoder, plain_hmac, plain_rfc3339}
use provider_sdk.Http.Exchange.{Agree, InStep, receive-respond}
use provider_sdk.Http.Replay.{authenticate_all, authenticate_once}
use provider_sdk.Http.Retention.{authenticate_never_again, authenticate_readmits}
use provider_sdk.Http.Serving.{Called, serve-Called}
use provider_sdk.Http.Window.{IsAuthentic, authenticate-IsAuthentic}

abbrev pub digest : Text
digest = bytes "sha256:0000000000000000000000000000000000000000000000000000000000000000"

abbrev pub client : HttpClient
client = record {
  endpoint = bytes "https://adapter.example/";
  shared_secret = bytes "secret";
  manifest_digest = digest;
  release = bytes "r1";
}

abbrev pub handler : Handler
handler = record { shared_secret = bytes "secret"; manifest_digest = digest; release = bytes "r1" }

abbrev pub clock : ℕ → Clock
clock t = record { checked_at = t; cut_at = t; recorded_at = t }

-- Signed by a client whose clock shows second 1000.
abbrev pub hello : HttpRequest
unfolding signed_request
hello =
    signed_request ⦃m = plain_hmac⦄ ⦃p = plain_rfc3339⦄ client (bytes "n1") (bytes "{}")
      (1000 * second)

pub hello_nonce : hello.nonce ≡ bytes "n1"
unfolding hello
hello_nonce = refl

abbrev pub at_900 : Clock
at_900 = clock (900 * second)

abbrev pub at_1000 : Clock
at_1000 = clock (1000 * second)

accepted_at_1000 :
    (authenticate ⦃h = plain_hmac⦄ ⦃p = plain_rfc3339⦄ handler hello at_1000 []).0
    ≡ some (bytes "{}", bytes "n1")
unfolding authenticate hello list_beq is_blank
accepted_at_1000 = refl

authenticate_once_example :
    (authenticate ⦃h = plain_hmac⦄ ⦃p = plain_rfc3339⦄ handler hello at_1000 (
      authenticate_all ⦃m = plain_hmac⦄ ⦃p = plain_rfc3339⦄ handler
        ((hello, at_1000) ∷ [])
        (authenticate ⦃h = plain_hmac⦄ ⦃p = plain_rfc3339⦄ handler hello at_1000 []).1)).0
    ≡ none
authenticate_once_example =
    authenticate_once ⦃m = plain_hmac⦄ ⦃p = plain_rfc3339⦄ handler hello at_1000 []
      (rw accepted_at_1000 refl) ((hello, at_1000) ∷ []) (omega arith, tt) hello at_1000 refl
      (omega arith)

authenticate_never_again_example :
    (authenticate ⦃h = plain_hmac⦄ ⦃p = plain_rfc3339⦄ handler hello (clock (1300 * second)) (
      authenticate_all ⦃m = plain_hmac⦄ ⦃p = plain_rfc3339⦄ handler
        ((hello, at_1000) ∷ [])
        (authenticate ⦃h = plain_hmac⦄ ⦃p = plain_rfc3339⦄ handler hello at_1000 []).1)).0
    ≡ none
unfolding hello
authenticate_never_again_example =
    authenticate_never_again ⦃m = plain_hmac⦄ ⦃p = plain_rfc3339⦄ handler hello at_1000 []
      (rw accepted_at_1000 refl) (1000 * second) 0 refl (omega arith) hello (clock (1300 * second))
      refl refl (omega arith) ((hello, at_1000) ∷ []) (omega arith, tt)

accepted_at_900 :
    (authenticate ⦃h = plain_hmac⦄ ⦃p = plain_rfc3339⦄ handler hello at_900 []).0
    ≡ some (bytes "{}", bytes "n1")
unfolding authenticate hello list_beq is_blank
accepted_at_900 = refl

authenticate_readmits_example :
    is_present
      (authenticate ⦃h = plain_hmac⦄ ⦃p = plain_rfc3339⦄ handler hello
        (clock (1100 * second))
        (authenticate ⦃h = plain_hmac⦄ ⦃p = plain_rfc3339⦄ handler hello at_900 []).1).0
    ≡ true
unfolding hello
authenticate_readmits_example =
    authenticate_readmits ⦃m = plain_hmac⦄ ⦃p = plain_rfc3339⦄ handler hello at_900
      (clock (1100 * second)) [] (rw accepted_at_900 refl) (1000 * second) refl (omega arith)
      (omega arith) (omega arith)

authenticate-IsAuthentic_example :
    IsAuthentic ⦃m = plain_hmac⦄ ⦃p = plain_rfc3339⦄ handler hello (bytes "{}") (1000 * second)
    × (bytes "n1" ≡ bytes "n1")
unfolding hello
authenticate-IsAuthentic_example =
    authenticate-IsAuthentic ⦃m = plain_hmac⦄ ⦃p = plain_rfc3339⦄ handler hello at_1000 []
      (bytes "{}") (bytes "n1") accepted_at_1000

pub agreed : Agree client handler
agreed = record { same_secret = refl; same_manifest = refl; same_release = refl }

pub in_step : InStep (1000 * second) (1010 * second)
in_step = record { not_ahead = omega arith; not_behind = omega arith; printable = omega arith }

pub filled : is_blank (bytes "n1") ≡ false
unfolding is_blank
filled = refl

abbrev connection : Connection
connection = record { configuration = bytes "{}"; onboarding = [] }

-- Reads one connection from any text.
abbrev connection_decoder : Decoder Connection
connection_decoder = record { decode_first = λ s. ok (connection, nothing) }

decodes : (written : Text) → decode_strict ⦃d = connection_decoder⦄ written ≡ ok connection
unfolding decode_strict
decodes written = refl

receive-respond_example :
    receive ⦃m = plain_hmac⦄ ⦃p = plain_rfc3339⦄ ⦃d = connection_decoder⦄ client
      (bytes "n1")
      (reply_of (
        respond ⦃m = plain_hmac⦄ ⦃p = plain_rfc3339⦄ ⦃e = flat_encoder⦄ handler
          (bytes "n1")
          connection
          (1000 * second)))
      (1010 * second)
    ≡ ok connection
receive-respond_example =
    receive-respond ⦃m = plain_hmac⦄ ⦃p = plain_rfc3339⦄ ⦃e = flat_encoder⦄ ⦃d = connection_decoder⦄
      client handler (bytes "n1") (bytes "{}") connection (1000 * second) (1010 * second) agreed
      in_step filled refl (omega arith) (λ written h. decodes written)

abbrev unit_decoder : Decoder Text
unit_decoder = record { decode_first = λ s. ok (bytes "r1", nothing) }

-- An implementation that counts its calls.
abbrev count_calls : ℕ → Text → Result Text × ℕ
count_calls n request = (ok request, suc n)

serve-Called_example :
    ((serve ⦃m = plain_hmac⦄ ⦃p = plain_rfc3339⦄ ⦃d = unit_decoder⦄ ⦃e = flat_encoder⦄ handler
        (λ q. q)
        count_calls
        (λ _. pass)
        ""
        hello
        at_1000
        (1000 * second)
        []
        0).2
      ≡ 0)
    ⊎ Called ⦃m = plain_hmac⦄ ⦃p = plain_rfc3339⦄ ⦃d = unit_decoder⦄ ⦃e = flat_encoder⦄ handler
        (λ q. q)
        count_calls
        (λ _. pass)
        ""
        (authenticate ⦃h = plain_hmac⦄ ⦃p = plain_rfc3339⦄ handler hello at_1000 []).0
        0
        (serve ⦃m = plain_hmac⦄ ⦃p = plain_rfc3339⦄ ⦃d = unit_decoder⦄ ⦃e = flat_encoder⦄ handler
          (λ q. q)
          count_calls
          (λ _. pass)
          ""
          hello
          at_1000
          (1000 * second)
          []
          0).2
serve-Called_example =
    serve-Called ⦃m = plain_hmac⦄ ⦃p = plain_rfc3339⦄ ⦃d = unit_decoder⦄ ⦃e = flat_encoder⦄ handler
      (λ q. q) count_calls (λ _. pass) "" hello at_1000 (1000 * second) [] 0
