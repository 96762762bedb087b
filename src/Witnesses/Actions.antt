-- ===== src/Witnesses/Actions.antt =====
-- Examples of typed actions.
use provider_sdk.Base.{false, list_beq, none, pass, refl, some, true, ℕ, ◌*◌, ◌+◌, ◌≡◌, ◌⊎◌}
use provider_sdk.Witnesses.{flat_encoder, flat_sha256}
use provider_sdk.Base.Int.{pos}
use provider_sdk.Json.{Value, end, member, obj, str}
use provider_sdk.Capability.{ActionCapability, Schema, action_capability_digest, encodes}
use provider_sdk.Action.{ActionAuthority, ExecuteActionRequest, validate_execute_request}
use provider_sdk.Platform.{Collides, PlainJson, digest_of}
use provider_sdk.Text.{Text, bytes, is_blank}
use provider_sdk.Time.{second}
use provider_sdk.Action.Binding.{
  Encodes, IsBound, one_authority_one_action, validate_execute_request-IsBound,
}
use provider_sdk.Text.Patterns.{authorization_digest_pattern, identity_pattern, operation_pattern}
use provider_sdk.Assessment.{
  SimplePolicy, assess_policy, policy_review_changes, simple_policy_protocol,
}
use provider_sdk.Assessment.Restraint.{IsRestrained, assess_policy-IsRestrained}

abbrev empty_object : Value
empty_object = obj end

-- Every text is an empty object.
abbrev lenient_json : PlainJson
lenient_json = record { unmarshal = λ s. some empty_object; valid = λ s. true }

abbrev any_object : Schema
any_object = encodes (obj (member (bytes "type") (str (bytes "object")) end))

abbrev digest : Text
digest = bytes "sha256:0000000000000000000000000000000000000000000000000000000000000000"

abbrev resize : ActionCapability
resize = record {
  ref = bytes "disk.resize";
  operation = bytes "resize";
  maximum_ttl_seconds = pos 300;
  reversible = false;
  parameters_schema = any_object;
  execution_schema = any_object;
  verification_schema = any_object;
  discovery = none;
  semantics = none;
}

abbrev now : ℕ
now = 60000000000 * second

abbrev authority : ActionAuthority
authority = record {
  id = bytes "auth-1";
  action_digest = digest;
  capability_digest = digest;
  approved_by = bytes "alice";
  approved_at = now;
  expires_at = now + 300 * second;
}

abbrev request : ExecuteActionRequest
request = record {
  request_id = bytes "q1";
  connection_id = bytes "c1";
  provider = bytes "cloud";
  release = bytes "r1";
  account_ref = bytes "account-1";
  configuration = bytes "{}";
  subject = record {
    tenant_id = bytes "t";
    actor_id = bytes "a";
    device_id = bytes "d";
    session_id = bytes "s";
    profile_id = bytes "p";
    account_ref = bytes "account-1";
    environment = bytes "prod";
  };
  capability_ref = bytes "disk.resize";
  capability_digest = digest;
  action_id = bytes "a1";
  action_digest = digest;
  operation = bytes "resize";
  resource = bytes "disk-1";
  environment = bytes "prod";
  parameters = bytes "{}";
  authority = authority;
  now = now + second;
}

accepted :
    validate_execute_request ⦃h = flat_sha256⦄ ⦃p = lenient_json⦄ ⦃m = flat_encoder⦄
      ⦃k = flat_encoder⦄ request resize
    ≡ pass
unfolding validate_execute_request is_blank action_capability_digest identity_pattern
    operation_pattern list_beq authorization_digest_pattern digest_of flat_sha256
accepted = refl

validate_execute_request-IsBound_example :
    IsBound ⦃h = flat_sha256⦄ ⦃p = lenient_json⦄ ⦃m = flat_encoder⦄ ⦃k = flat_encoder⦄ request
      resize
validate_execute_request-IsBound_example =
    validate_execute_request-IsBound ⦃h = flat_sha256⦄ ⦃p = lenient_json⦄ ⦃m = flat_encoder⦄
      ⦃k = flat_encoder⦄ request resize accepted

one_authority_one_action_example :
    (a : Text) × (b : Text) × Encodes ⦃h = flat_sha256⦄ ⦃p = lenient_json⦄ ⦃m = flat_encoder⦄ digest
      (bytes "resize")
      (bytes "disk-1")
      (bytes "prod")
      (bytes "{}")
      a
    × Encodes ⦃h = flat_sha256⦄ ⦃p = lenient_json⦄ ⦃m = flat_encoder⦄ digest
        (bytes "resize")
        (bytes "disk-1")
        (bytes "prod")
        (bytes "{}")
        b
    × ((a ≡ b) ⊎ Collides ⦃h = flat_sha256⦄ a b)
one_authority_one_action_example =
    one_authority_one_action ⦃h = flat_sha256⦄ ⦃p = lenient_json⦄ ⦃m = flat_encoder⦄
      ⦃k = flat_encoder⦄ request request resize resize accepted accepted refl

abbrev cautious : SimplePolicy
cautious = record { protocol = simple_policy_protocol; preset = policy_review_changes }

assess_policy-IsRestrained_example :
    IsRestrained (assess_policy ⦃h = flat_sha256⦄ ⦃m = flat_encoder⦄ cautious resize).0
assess_policy-IsRestrained_example =
    assess_policy-IsRestrained ⦃s = flat_sha256⦄ ⦃m = flat_encoder⦄ cautious resize
