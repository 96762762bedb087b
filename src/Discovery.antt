-- ===== src/Discovery.antt =====
-- discovery.go: requests for resources, their digests, and the pages that answer them.
pub mod Page
pub mod Exact
pub mod Respelled
pub mod Admitted
pub mod Called
pub mod Accepted
pub mod Service
use provider_sdk.Json.{Tokenizer, Value, decode_parameter_json, null, obj}
use provider_sdk.Base.{
  Bool, Check, List, Option, Result, [], any, contains, err, hang, is_empty, length, list_eq, ltb,
  nat_eq, none, not, ok, panic, pass, reject, relabel, some, ℕ, ◌!=◌, ◌&&◌, ◌>>=◌, ◌>>◌, ◌||◌, ◌∷◌,
}
use provider_sdk.Base.Int.{is_less, pos, ℤ}
use provider_sdk.Capability.{
  ActionCapability, ResourceDiscovery, action_capability_digest, resource_discovery_protocol,
  validate_capability,
}
use provider_sdk.Platform.{Encoder, PlainJson, Sha256, digest_of}
use provider_sdk.Selection.{selector_eq}
use provider_sdk.Text.{Text, discovery_text}
use provider_sdk.Time.{is_zero_time}
use provider_sdk.Json.Canonical.{canonical_value}
use provider_sdk.Text.Patterns.{digest_pattern}

-- `resource_ids` is nil for a search and otherwise selects exact revalidation.
pub record DiscoveryRequest : Type 0 where
  pub protocol : Text
  pub request_id : Text
  pub tenant_id : Text
  pub connection_id : Text
  pub provider : Text
  pub release : Text
  pub manifest_digest : Text
  pub account_ref : Text
  pub capability_ref : Text
  pub capability_digest : Text
  pub configuration : Text
  pub query : Text
  pub cursor : Text
  pub limit : ℤ
  pub resource_ids : Option (List Text)
  pub now : ℕ

abbrev pub discovery_of : Option ResourceDiscovery → Result ResourceDiscovery
discovery_of none = err "capability does not support resource discovery"
discovery_of (some d) = ok d

abbrev pub coordinates : DiscoveryRequest → List Text
coordinates r =
    r.request_id ∷ r.tenant_id ∷ r.connection_id ∷ r.provider ∷ r.release ∷ r.account_ref ∷ []

-- `validDiscoveryIDs`, with the keys of `seen`
unfoldable pub check_discovery_ids : List Text → List Text → Check
check_discovery_ids seen [] = pass
check_discovery_ids seen (id ∷ ids) = do
  reject (not (discovery_text id 2048) || contains seen id)
      "discovery resource IDs are invalid or duplicated"
  check_discovery_ids (id ∷ seen) ids

unfoldable pub valid_discovery_ids : List Text → Check
unfolding check_discovery_ids
valid_discovery_ids ids = check_discovery_ids [] ids

-- The last part of the validation, for a request with `ResourceIDs`.
unfoldable pub check_exact_mode : DiscoveryRequest → Option (List Text) → Check
unfolding valid_discovery_ids
check_exact_mode r none = pass
check_exact_mode r (some ids) = do
  reject
      (not (is_empty r.query)
        || not (is_empty r.cursor)
        || is_empty ids
        || is_less r.limit (pos (length ids)))
      "exact resource revalidation cannot search or paginate"
  valid_discovery_ids ids

-- `_, object := configuration.(map[string]any); err != nil || !object`
unfoldable pub check_configuration : Result Value → Check
check_configuration (ok (obj ms)) = pass
check_configuration (ok _) = err "discovery configuration must be an unambiguous object"
check_configuration (err message) = err "discovery configuration must be an unambiguous object"
check_configuration panic = panic
check_configuration hang = hang

-- `!json.Valid(b)`, above a bound of 64 KiB
unfoldable pub is_oversized : ⦃p : PlainJson⦄ → Text → Bool
is_oversized ⦃p⦄ b = ltb 65536 (length b) || not (p.valid b)

module _ ⦃h : Sha256⦄ ⦃p : PlainJson⦄ ⦃t : Tokenizer⦄ ⦃k : Encoder ActionCapability⦄ where
  -- `DiscoveryRequest.Validate`
  unfoldable pub validate_discovery_request : DiscoveryRequest → ActionCapability → Check
  unfolding check_configuration check_exact_mode is_oversized
  validate_discovery_request r capability = do
    validate_capability capability
    discovery ← discovery_of capability.discovery
    digest ← relabel (action_capability_digest capability) "discovery request identity is invalid"
    reject
        (r.protocol != resource_discovery_protocol
          || r.capability_ref != capability.ref
          || r.capability_digest != digest
          || not (digest_pattern r.manifest_digest)
          || is_zero_time r.now)
        "discovery request identity is invalid"
    reject (any (λ id. not (discovery_text id 2048)) (coordinates r))
        "discovery coordinates are invalid"
    reject
        (is_less r.limit (pos 1)
          || is_less discovery.maximum_page_size r.limit
          || is_oversized r.configuration)
        "discovery request exceeds its bounds"
    check_configuration (decode_parameter_json r.configuration)
    reject
        ((not (is_empty r.query) && not (discovery_text r.query 256))
          || (not (is_empty r.cursor) && not (discovery_text r.cursor 4096)))
        "discovery query or cursor is invalid"
    check_exact_mode r r.resource_ids

  -- An error of `decodeParameterJSON` leaves nil, and one of `json.Marshal` no bytes; the
  -- validation before excludes the first.
  unfoldable pub canonical_configuration : ⦃v : Encoder Value⦄ → Result Value → Text
  canonical_configuration ⦃v⦄ (ok value) = elim (v.marshal (canonical_value value)) [
    | ok b ↦ b
    | _ ↦ []
  ]
  canonical_configuration ⦃v⦄ _ = elim (v.marshal null) [ ok b ↦ b | _ ↦ [] ]

  -- `DiscoveryRequestDigest`
  unfoldable pub discovery_request_digest :
      ⦃v : Encoder Value⦄ ⦃e : Encoder DiscoveryRequest⦄
      → DiscoveryRequest
      → ActionCapability
      → Result Text
  unfolding canonical_configuration
  discovery_request_digest ⦃e⦄ r capability = do
    validate_discovery_request r capability
    encoded ←
        e.marshal record r {
          configuration = canonical_configuration (decode_parameter_json r.configuration);
        }
    ok (digest_of encoded)
