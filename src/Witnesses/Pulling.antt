-- ===== src/Witnesses/Pulling.antt =====
-- Examples of outbound work.
use provider_sdk.Base.{In, [], list_beq, none, pass, refl, some, true, ◌*◌, ◌↔◌, ◌∷◌, ◌≡◌}
use provider_sdk.Base.Int.{pos}
use provider_sdk.Json.{end, member, obj, str}
use provider_sdk.Capability.{Schema, encodes}
use provider_sdk.Manifest.{Manifest, broker_protocol, manifest_protocol, outbound_pull}
use provider_sdk.Outbound.{
  DispatchResult, RuntimeRegistration, outbound_phases, outbound_runtime_protocol,
  validate_registration, validate_result,
}
use provider_sdk.Platform.{PlainJson, digest_of}
use provider_sdk.Text.{Text, bytes, is_blank}
use provider_sdk.Time.{second}
use provider_sdk.Witnesses.{flat_encoder, flat_sha256}
use provider_sdk.Outbound.Admission.{IsAdmittedRuntime, validate_registration_iff}
use provider_sdk.Outbound.Outcome.{OneOutcome, validate_result-OneOutcome}
use provider_sdk.Text.Patterns.{authorization_digest_pattern}

abbrev digest : Text
digest = bytes "sha256:0000000000000000000000000000000000000000000000000000000000000000"

abbrev any_object : Schema
any_object = encodes (obj (member (bytes "type") (str (bytes "object")) end))

abbrev pulled : Manifest
pulled = record {
  protocol = manifest_protocol;
  publisher = record { id = bytes "acme"; key_id = bytes "k1" };
  compatibility = record { protocol = manifest_protocol; major = pos 2 };
  release = bytes "r1";
  provider = bytes "cloud";
  configuration_schema = any_object;
  credential = none;
  renderer = none;
  broker = record {
    protocol = broker_protocol;
    transport = outbound_pull;
    endpoint = [];
    runtime_artifacts = record { kind = bytes "oci"; reference = bytes "i"; digest = digest } ∷ [];
    connection_verification = [];
  };
  actions = [];
}

abbrev registration : RuntimeRegistration
registration = record {
  protocol = outbound_runtime_protocol;
  connection_id = bytes "c1";
  provider = bytes "cloud";
  release = bytes "r1";
  manifest_digest = digest;
  runtime_artifact_digest = digest;
  runtime_id = bytes "run-1";
}

validate_registration_iff_example :
    (validate_registration registration pulled digest ≡ pass)
    ↔ IsAdmittedRuntime registration pulled digest
validate_registration_iff_example = validate_registration_iff registration pulled digest

-- Every text is an empty object.
abbrev lenient_json : PlainJson
lenient_json = record { unmarshal = λ s. some (obj end); valid = λ s. true }

abbrev result : DispatchResult
result = record {
  protocol = outbound_runtime_protocol;
  dispatch_id = bytes "d1";
  connection_id = bytes "c1";
  runtime_id = bytes "run-1";
  phase = bytes "execute_action";
  request_digest = digest;
  claim_token = bytes "t1";
  response = bytes "{}";
  response_digest = digest;
  failure_text = [];
  completed_at = 60000000000 * second;
}

result_accepted :
    validate_result ⦃h = flat_sha256⦄ ⦃p = lenient_json⦄ ⦃v = flat_encoder⦄ result ≡ pass
unfolding validate_result list_beq is_blank authorization_digest_pattern digest_of flat_sha256
result_accepted = refl

validate_result-OneOutcome_example :
    In (bytes "execute_action") outbound_phases
    × (authorization_digest_pattern digest ≡ true)
    × OneOutcome ⦃h = flat_sha256⦄ ⦃p = lenient_json⦄ ⦃v = flat_encoder⦄ result
validate_result-OneOutcome_example =
    validate_result-OneOutcome ⦃h = flat_sha256⦄ ⦃p = lenient_json⦄ ⦃v = flat_encoder⦄ result
      result_accepted
