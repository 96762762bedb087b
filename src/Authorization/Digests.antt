-- ===== src/Authorization/Digests.antt =====
-- `AuthorizationDigest` of protocol.go.
use provider_sdk.Base.{Result, ok, ◌>>=◌, ◌>>◌}
use provider_sdk.Authorization.{Authorization, validate_authorization}
use provider_sdk.Json.{Tokenizer}
use provider_sdk.Platform.{Encoder, Sha256, digest_of}
use provider_sdk.Text.{Text, trim_space}

unfoldable pub authorization_digest :
    ⦃h : Sha256⦄ ⦃t : Tokenizer⦄ ⦃a : Encoder Authorization⦄ → Authorization → Result Text
authorization_digest ⦃a⦄ authorization = do
  validate_authorization authorization
  encoded ← a.marshal authorization
  ok (digest_of (trim_space encoded))
