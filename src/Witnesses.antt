-- ===== src/Witnesses.antt =====
-- Concrete stand-ins for what the sources call and do not implement, and the examples over them.
mod Transport
mod Parameters
mod Releases
mod Selections
mod Actions
mod Pulling
mod Listings
mod Services
mod Nonces
mod Handled
use provider_sdk.Json.{
  Stream, Tokenizer, close_object, eof, next, number_token, open_object, string_token,
}
use provider_sdk.Base.{
  Option, [], if◌then◌else◌, list_eq, nat_eq, none, ok, refl, some, suc, zero, ℕ, ◌*◌, ◌++◌, ◌/◌,
  ◌==◌, ◌∷◌,
}
use provider_sdk.Http.{Hmac, Rfc3339}
use provider_sdk.Platform.{Encoder, Sha256}
use provider_sdk.Selection.{selector_eq}
use provider_sdk.Text.{Text, bytes, trim_space}
use provider_sdk.Time.{second}

pub zeros : ℕ → Text
zeros zero = []
zeros (suc n) = b'0' ∷ zeros n

-- Every digest is 64 zeros.
abbrev pub flat_sha256 : Sha256
unfolding zeros
flat_sha256 = record { sum = λ s. zeros 64; sum_length = λ s. refl; sum_hex = λ s. refl }

-- Every value is written as an empty object.
abbrev pub flat_encoder : {A : Type 0} → Encoder A
flat_encoder = record { marshal = λ a. ok (bytes "{}") }

-- One object is known, and every other text is read as one number between blanks.
abbrev pub small_object : Text
small_object = bytes "{\"size\":3}"

abbrev pub small_tokens : Text → Stream
small_tokens s =
    if s == small_object
    then next open_object (
        next (string_token (bytes "size"))
          (next (number_token (bytes "3")) (next close_object eof)))
    else next (number_token (trim_space s)) eof

abbrev pub small_tokenizer : Tokenizer
small_tokenizer = record { tokens = small_tokens }

abbrev pub plain_hmac : Hmac
plain_hmac = record { mac = λ key message. key ++ message }

-- A timestamp is written as the number of its second.
abbrev pub parse_second : Text → Option ℕ
parse_second (n ∷ []) = some (n * second)
parse_second _ = none

abbrev pub plain_rfc3339 : Rfc3339
plain_rfc3339 = record {
  parse = parse_second;
  format = λ t. (t / second) ∷ [];
  parse_format = λ t h. refl;
}
