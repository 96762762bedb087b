-- ===== src/Discovery/Respelled.antt =====
-- The identity of a request whose configuration was written anew.
use provider_sdk.Base.{[], ap, ok, pass, refl, sym, ◌>>=◌, ◌∙◌, ◌≡◌}
use provider_sdk.Capability.{ActionCapability}
use provider_sdk.Discovery.{
  DiscoveryRequest, canonical_configuration, discovery_request_digest, validate_discovery_request,
}
use provider_sdk.Json.{Tokenizer, Value, decode_parameter_json}
use provider_sdk.Platform.{Encoder, PlainJson, Sha256, digest_of}
use provider_sdk.Text.{Text}
use provider_sdk.Json.Canonical.Values.{Respelled, canonical_value-Respelled}

module _ ⦃h : Sha256⦄ ⦃p : PlainJson⦄ ⦃t : Tokenizer⦄ ⦃k : Encoder ActionCapability⦄
    ⦃v : Encoder Value⦄ ⦃e : Encoder DiscoveryRequest⦄ where
  canonical_configuration-Respelled :
      {a b : Value}
      → Respelled a b
      → canonical_configuration (ok a) ≡ canonical_configuration (ok b)
  unfolding canonical_configuration
  canonical_configuration-Respelled respelled = ap written (canonical_value-Respelled respelled)
    where
      written : Value → Text
      written c = elim (v.marshal c) [ ok b ↦ b | _ ↦ [] ]

  digest_of_valid :
      (r : DiscoveryRequest) (capability : ActionCapability) (value : Value)
      → validate_discovery_request r capability ≡ pass
      → decode_parameter_json r.configuration ≡ ok value
      → discovery_request_digest r capability ≡ (
          e.marshal record r { configuration = canonical_configuration (ok value) } >>= λ encoded.
          ok (digest_of encoded))
  unfolding discovery_request_digest
  digest_of_valid r capability value valid decoded = rw (valid, decoded) refl

-- Two valid requests that differ only in how the numbers of their configurations are spelled have the same
-- digest, so that a store which spells decimals anew does not change the identity of a request.
pub discovery_request_digest-Respelled :
    ⦃h : Sha256⦄ ⦃p : PlainJson⦄ ⦃t : Tokenizer⦄ ⦃k : Encoder ActionCapability⦄ ⦃v : Encoder Value⦄
    ⦃e : Encoder DiscoveryRequest⦄ (r : DiscoveryRequest) (stored : Text)
    (capability : ActionCapability) (a b : Value)
    → validate_discovery_request r capability ≡ pass
    → validate_discovery_request (record r { configuration = stored }) capability ≡ pass
    → decode_parameter_json r.configuration ≡ ok a
    → decode_parameter_json stored ≡ ok b
    → Respelled a b
    → discovery_request_digest (record r { configuration = stored }) capability
      ≡ discovery_request_digest r capability
discovery_request_digest-Respelled ⦃e = e⦄ r stored capability a b valid valid' decoded decoded'
      respelled =
    digest_of_valid (record r { configuration = stored }) capability b valid' decoded'
    ∙ (ap
          (λ (c : Text).
            e.marshal record r { configuration = c } >>= λ encoded. ok (digest_of encoded))
          (sym (canonical_configuration-Respelled respelled))
        ∙ sym (digest_of_valid r capability a valid decoded))
