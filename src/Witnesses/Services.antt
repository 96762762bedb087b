-- ===== src/Witnesses/Services.antt =====
-- Examples of the services of discovery and of connection verification, and of their dispatches.
use provider_sdk.Discovery.Called
use provider_sdk.Connections.Verified
use provider_sdk.Witnesses.Listings
use provider_sdk.Witnesses.Releases.{https_parser}
use provider_sdk.Platform.{Decoder, decode_strict, digest_of, nothing}
use provider_sdk.Base.Int.{pos}
use provider_sdk.Base.{[], list_beq, none, ok, refl, some, suc, ℕ, ◌*◌, ◌+◌, ◌∷◌, ◌≡◌, ◌⊎◌}
use provider_sdk.Connections.{
  ConnectionVerificationResult, ConnectionVerificationService, ConnectionVerifier,
  verify_connection,
}
use provider_sdk.Discovery.{DiscoveryRequest, discovery_request_digest, validate_discovery_request}
use provider_sdk.Manifest.{
  Manifest, broker_protocol, connection_verification_protocol, manifest_protocol, outbound_pull,
  validate_manifest,
}
use provider_sdk.Outbound.{outbound_runtime_protocol}
use provider_sdk.Requests.{VerifyRequest}
use provider_sdk.Text.{Text, bytes, discovery_text, has_control, is_blank, trim_space, valid_string}
use provider_sdk.Time.{second}
use provider_sdk.Witnesses.{flat_encoder, flat_sha256}
use provider_sdk.Connections.Verified.{IsCalled, verify_connection-IsCalled}
use provider_sdk.Discovery.Admitted.{IsRefused}
use provider_sdk.Discovery.Called.{discover_resources-IsCalled}
use provider_sdk.Discovery.Service.{Discoverer, DiscoveryService, Surroundings, discover_resources}
use provider_sdk.Outbound.Connecting.{verify_dispatched}
use provider_sdk.Outbound.Discovered.{DiscoveryCalled, discover_dispatched-Called}
use provider_sdk.Outbound.Discovering.{discover_dispatched}
use provider_sdk.Outbound.Dispatched.{Dispatch, phase_discover_resources, phase_verify_connection}
use provider_sdk.Outbound.Verified.{VerificationCalled, verify_dispatched-Called}
use provider_sdk.Authorization.{validate_authorization_features}
use provider_sdk.Capability.{action_capability_digest, validate_capability, validate_schema}
use provider_sdk.Json.{decode_parameter_json, decode_stream, read_value}
use provider_sdk.Discovery.Page.{validate_page}
use provider_sdk.Json.Number.{check_number, rat_of}
use provider_sdk.Text.Patterns.{
  digest_pattern, environment_pattern, executable_pattern, identity_pattern, operation_pattern,
}

abbrev catalog : Manifest
catalog = record {
  protocol = manifest_protocol;
  publisher = record { id = bytes "acme"; key_id = bytes "k1" };
  compatibility = record { protocol = manifest_protocol; major = pos 2 };
  release = bytes "r1";
  provider = bytes "cloud";
  configuration_schema = Listings.any_object;
  credential = none;
  renderer = none;
  broker = record {
    protocol = broker_protocol;
    transport = outbound_pull;
    endpoint = [];
    runtime_artifacts =
        record { kind = bytes "oci"; reference = bytes "i"; digest = Listings.digest } ∷ [];
    connection_verification = connection_verification_protocol;
  };
  actions = Listings.browse ∷ [];
}

-- An implementation that counts its calls.
abbrev list_disks : Discoverer ℕ
list_disks n left request = (ok Listings.page, suc n)

abbrev pub lister : DiscoveryService ℕ
lister = record {
  manifest = catalog;
  manifest_digest = Listings.digest;
  implementation = some list_disks;
}

abbrev pub calm : Surroundings
calm = record { allowed = none; cancelled = none; elapsed = 2 * second; ended = none }

lists_disks :
    discover_resources ⦃urls = https_parser⦄ ⦃m = flat_encoder⦄ ⦃h = flat_sha256⦄
      ⦃p = Listings.lenient_json⦄ ⦃t = Listings.size_tokenizer⦄ ⦃k = flat_encoder⦄
      ⦃v = flat_encoder⦄ ⦃e = flat_encoder⦄ lister Listings.request Listings.now calm 0
    ≡ (ok Listings.page, 1)
unfolding discover_resources validate_page discovery_request_digest validate_discovery_request
    validate_capability list_beq identity_pattern operation_pattern action_capability_digest
    digest_of flat_sha256 digest_pattern discovery_text valid_string trim_space has_control
    decode_parameter_json decode_stream read_value check_number rat_of validate_manifest is_blank
    executable_pattern environment_pattern validate_schema validate_authorization_features
lists_disks = refl

discover_resources-IsCalled_example :
    IsRefused 0 (
      discover_resources ⦃urls = https_parser⦄ ⦃m = flat_encoder⦄ ⦃h = flat_sha256⦄
        ⦃p = Listings.lenient_json⦄ ⦃t = Listings.size_tokenizer⦄ ⦃k = flat_encoder⦄
        ⦃v = flat_encoder⦄ ⦃e = flat_encoder⦄ lister Listings.request Listings.now calm 0)
    ⊎ Called.IsCalled ⦃urls = https_parser⦄ ⦃m = flat_encoder⦄ ⦃h = flat_sha256⦄
        ⦃p = Listings.lenient_json⦄ ⦃t = Listings.size_tokenizer⦄ ⦃k = flat_encoder⦄
        ⦃v = flat_encoder⦄ ⦃e = flat_encoder⦄ lister Listings.request Listings.now calm 0
        (discover_resources ⦃urls = https_parser⦄ ⦃m = flat_encoder⦄ ⦃h = flat_sha256⦄
          ⦃p = Listings.lenient_json⦄ ⦃t = Listings.size_tokenizer⦄ ⦃k = flat_encoder⦄
          ⦃v = flat_encoder⦄ ⦃e = flat_encoder⦄ lister Listings.request Listings.now calm 0)
discover_resources-IsCalled_example =
    discover_resources-IsCalled ⦃urls = https_parser⦄ ⦃m = flat_encoder⦄ ⦃h = flat_sha256⦄
      ⦃p = Listings.lenient_json⦄ ⦃t = Listings.size_tokenizer⦄ ⦃k = flat_encoder⦄
      ⦃v = flat_encoder⦄ ⦃e = flat_encoder⦄ lister Listings.request Listings.now calm 0

abbrev check_request : VerifyRequest
check_request = record {
  request_id = bytes "q1";
  tenant_id = bytes "t";
  connection_id = bytes "c1";
  provider = bytes "cloud";
  release = bytes "r1";
  account_ref = bytes "account-1";
  configuration = Listings.three;
  now = Listings.now;
}

abbrev evidence : ConnectionVerificationResult
evidence = record {
  protocol = connection_verification_protocol;
  request_digest = Listings.digest;
  target_identity = bytes "account-1";
  verified_at = Listings.now + second;
  evidence_digest = Listings.digest;
}

abbrev probe_target : ConnectionVerifier ℕ
probe_target n left request = (ok evidence, suc n)

abbrev prober : ConnectionVerificationService ℕ
prober = record {
  manifest = catalog;
  manifest_digest = Listings.digest;
  implementation = some probe_target;
}

verify_connection-IsCalled_example :
    IsRefused 0 (
      verify_connection ⦃h = flat_sha256⦄ ⦃p = Listings.lenient_json⦄ ⦃t = Listings.size_tokenizer⦄
        ⦃v = flat_encoder⦄ ⦃q = flat_encoder⦄ ⦃urls = https_parser⦄ ⦃m = flat_encoder⦄ prober
        check_request Listings.now calm 0)
    ⊎ Verified.IsCalled ⦃urls = https_parser⦄ ⦃m = flat_encoder⦄ ⦃h = flat_sha256⦄
        ⦃p = Listings.lenient_json⦄ ⦃t = Listings.size_tokenizer⦄ ⦃v = flat_encoder⦄
        ⦃q = flat_encoder⦄ prober check_request Listings.now calm 0
        (verify_connection ⦃h = flat_sha256⦄ ⦃p = Listings.lenient_json⦄
          ⦃t = Listings.size_tokenizer⦄ ⦃v = flat_encoder⦄ ⦃q = flat_encoder⦄ ⦃urls = https_parser⦄
          ⦃m = flat_encoder⦄ prober check_request Listings.now calm 0)
verify_connection-IsCalled_example =
    verify_connection-IsCalled ⦃urls = https_parser⦄ ⦃m = flat_encoder⦄ ⦃h = flat_sha256⦄
      ⦃p = Listings.lenient_json⦄ ⦃t = Listings.size_tokenizer⦄ ⦃v = flat_encoder⦄
      ⦃q = flat_encoder⦄ prober check_request Listings.now calm 0

-- Each decodes one request from any text.
abbrev pub listing_decoder : Decoder DiscoveryRequest
listing_decoder = record { decode_first = λ s. ok (Listings.request, nothing) }

abbrev check_decoder : Decoder VerifyRequest
check_decoder = record { decode_first = λ s. ok (check_request, nothing) }

abbrev dispatch : Text → Dispatch
dispatch phase = record {
  protocol = outbound_runtime_protocol;
  id = bytes "d1";
  connection_id = bytes "c1";
  phase = phase;
  request = Listings.three;
  request_digest = Listings.digest;
  claim_token = bytes "t1";
  claimed_at = Listings.now;
  expires_at = Listings.now + 60 * second;
}

lists_disks_by_dispatch :
    discover_dispatched ⦃urls = https_parser⦄ ⦃m = flat_encoder⦄ ⦃h = flat_sha256⦄
      ⦃p = Listings.lenient_json⦄ ⦃t = Listings.size_tokenizer⦄ ⦃k = flat_encoder⦄
      ⦃v = flat_encoder⦄ ⦃e = flat_encoder⦄ ⦃d = listing_decoder⦄
      (dispatch phase_discover_resources)
      lister
      Listings.now
      calm
      0
    ≡ (ok Listings.page, 1)
unfolding discover_dispatched decode_strict validate_page discovery_request_digest
    validate_discovery_request validate_capability list_beq identity_pattern operation_pattern
    action_capability_digest digest_of flat_sha256 digest_pattern discovery_text valid_string
    trim_space has_control decode_parameter_json decode_stream read_value check_number rat_of
    validate_manifest is_blank executable_pattern environment_pattern validate_schema
    validate_authorization_features
lists_disks_by_dispatch = refl

probes_by_dispatch :
    verify_dispatched ⦃urls = https_parser⦄ ⦃m = flat_encoder⦄ ⦃h = flat_sha256⦄
      ⦃p = Listings.lenient_json⦄ ⦃t = Listings.size_tokenizer⦄ ⦃v = flat_encoder⦄
      ⦃q = flat_encoder⦄ ⦃d = check_decoder⦄
      (dispatch phase_verify_connection)
      prober
      Listings.now
      calm
      0
    ≡ (ok evidence, 1)
unfolding verify_dispatched decode_strict validate_page discovery_request_digest
    validate_discovery_request validate_capability list_beq identity_pattern operation_pattern
    action_capability_digest digest_of flat_sha256 digest_pattern discovery_text valid_string
    trim_space has_control decode_parameter_json decode_stream read_value check_number rat_of
    validate_manifest is_blank executable_pattern environment_pattern validate_schema
    validate_authorization_features
probes_by_dispatch = refl

discover_dispatched-Called_example :
    IsRefused 0 (
      discover_dispatched ⦃urls = https_parser⦄ ⦃m = flat_encoder⦄ ⦃h = flat_sha256⦄
        ⦃p = Listings.lenient_json⦄ ⦃t = Listings.size_tokenizer⦄ ⦃k = flat_encoder⦄
        ⦃v = flat_encoder⦄ ⦃e = flat_encoder⦄ ⦃d = listing_decoder⦄
        (dispatch phase_discover_resources)
        lister
        Listings.now
        calm
        0)
    ⊎ DiscoveryCalled ⦃urls = https_parser⦄ ⦃m = flat_encoder⦄ ⦃h = flat_sha256⦄
        ⦃p = Listings.lenient_json⦄ ⦃t = Listings.size_tokenizer⦄ ⦃k = flat_encoder⦄
        ⦃v = flat_encoder⦄ ⦃e = flat_encoder⦄ ⦃d = listing_decoder⦄ lister
        (dispatch phase_discover_resources)
        Listings.now
        calm
        0
        (discover_dispatched ⦃urls = https_parser⦄ ⦃m = flat_encoder⦄ ⦃h = flat_sha256⦄
          ⦃p = Listings.lenient_json⦄ ⦃t = Listings.size_tokenizer⦄ ⦃k = flat_encoder⦄
          ⦃v = flat_encoder⦄ ⦃e = flat_encoder⦄ ⦃d = listing_decoder⦄
          (dispatch phase_discover_resources)
          lister
          Listings.now
          calm
          0)
discover_dispatched-Called_example =
    discover_dispatched-Called ⦃urls = https_parser⦄ ⦃m = flat_encoder⦄ ⦃h = flat_sha256⦄
      ⦃p = Listings.lenient_json⦄ ⦃t = Listings.size_tokenizer⦄ ⦃k = flat_encoder⦄
      ⦃v = flat_encoder⦄ ⦃e = flat_encoder⦄ ⦃d = listing_decoder⦄ lister
      (dispatch phase_discover_resources) Listings.now calm 0

verify_dispatched-Called_example :
    IsRefused 0 (
      verify_dispatched ⦃urls = https_parser⦄ ⦃m = flat_encoder⦄ ⦃h = flat_sha256⦄
        ⦃p = Listings.lenient_json⦄ ⦃t = Listings.size_tokenizer⦄ ⦃v = flat_encoder⦄
        ⦃q = flat_encoder⦄ ⦃d = check_decoder⦄
        (dispatch phase_verify_connection)
        prober
        Listings.now
        calm
        0)
    ⊎ VerificationCalled ⦃urls = https_parser⦄ ⦃m = flat_encoder⦄ ⦃h = flat_sha256⦄
        ⦃p = Listings.lenient_json⦄ ⦃t = Listings.size_tokenizer⦄ ⦃v = flat_encoder⦄
        ⦃q = flat_encoder⦄ ⦃e = check_decoder⦄ prober
        (dispatch phase_verify_connection)
        Listings.now
        calm
        0
        (verify_dispatched ⦃urls = https_parser⦄ ⦃m = flat_encoder⦄ ⦃h = flat_sha256⦄
          ⦃p = Listings.lenient_json⦄ ⦃t = Listings.size_tokenizer⦄ ⦃v = flat_encoder⦄
          ⦃q = flat_encoder⦄ ⦃d = check_decoder⦄
          (dispatch phase_verify_connection)
          prober
          Listings.now
          calm
          0)
verify_dispatched-Called_example =
    verify_dispatched-Called ⦃urls = https_parser⦄ ⦃m = flat_encoder⦄ ⦃h = flat_sha256⦄
      ⦃p = Listings.lenient_json⦄ ⦃t = Listings.size_tokenizer⦄ ⦃v = flat_encoder⦄
      ⦃q = flat_encoder⦄ ⦃e = check_decoder⦄ prober (dispatch phase_verify_connection) Listings.now
      calm 0
