-- ===== src/Witnesses/Releases.antt =====
-- Examples of releases, of their signatures and of credential lifetimes.
use provider_sdk.Base.{
  [], arith, eq_refl, false, length, list_beq, list_eq, nat_eq, none, ok, pass, refl, some, ℕ, ◌*◌,
  ◌++◌, ◌+◌, ◌==◌, ◌∷◌, ◌≡◌, ◌≤◌, ◌⊎◌,
}
use provider_sdk.Witnesses.{flat_encoder, flat_sha256, zeros}
use provider_sdk.Base.Int.{pos}
use provider_sdk.Assessment.Ladder.{demand, demand_mono}
use provider_sdk.Base.{list_eq, nat_eq}
use provider_sdk.Base.{list_eq, nat_eq}
use provider_sdk.Json.{end, member, obj, str}
use provider_sdk.Manifest.Signing.{
  Base64, Ed25519, IsVerified, SignedManifest, TrustedPublisher, Trusts, canonical_manifest, sign,
  verify, verify-IsVerified, verify-digest_binds, verify-sign,
}
use provider_sdk.Capability.{
  Schema, action_semantics_protocol, effect_read, effect_write, encodes, validate_schema,
}
use provider_sdk.Assessment.{policy_review_changes}
use provider_sdk.Lifetime.{validate_issued_lifetime}
use provider_sdk.Manifest.{
  Broker, Credential, Manifest, Renderer, UrlParser, broker_protocol, credential_lifetime_protocol,
  manifest_protocol, renderer_protocol, validate_manifest,
}
use provider_sdk.Platform.{Collides, digest_of}
use provider_sdk.Requests.{IssueRequest, Material, Subject}
use provider_sdk.Selection.{selector_eq}
use provider_sdk.Text.{Text, bytes}
use provider_sdk.Time.{second}
use provider_sdk.Lifetime.Deadline.{IsBounded, validate_issued_lifetime-IsBounded}
use provider_sdk.Text.Patterns.{
  digest_pattern, environment_pattern, executable_pattern, identity_pattern,
}
use provider_sdk.Authorization.{validate_authorization_features}
use provider_sdk.Manifest.Published.{IsPublished, validate_manifest-IsPublished}

abbrev pub any_object : Schema
any_object = encodes (obj (member (bytes "type") (str (bytes "object")) end))

abbrev pub credential : Credential
credential = record {
  kind = bytes "token";
  maximum_ttl_seconds = pos 3600;
  revocation_semantics = bytes "expiry";
  payload_schema = any_object;
  authorization_features = [];
  lifetime_protocol = credential_lifetime_protocol;
}

abbrev digest : Text
digest = bytes "sha256:0000000000000000000000000000000000000000000000000000000000000000"

abbrev pub renderer : Renderer
renderer = record {
  protocol = renderer_protocol;
  executable = bytes "render";
  artifacts = record { os = bytes "linux"; arch = bytes "amd64"; digest = digest } ∷ [];
  sensitive_environment = bytes "CLOUD_TOKEN" ∷ [];
}

abbrev pub broker : Broker
broker = record {
  protocol = broker_protocol;
  transport = [];
  endpoint = bytes "https://adapter.example";
  runtime_artifacts = [];
  connection_verification = [];
}

abbrev pub release : Manifest
release = record {
  protocol = manifest_protocol;
  publisher = record { id = bytes "acme"; key_id = bytes "k1" };
  compatibility = record { protocol = manifest_protocol; major = pos 2 };
  release = bytes "r1";
  provider = bytes "cloud";
  configuration_schema = any_object;
  credential = some credential;
  renderer = some renderer;
  broker = broker;
  actions = [];
}

abbrev pub https_parser : UrlParser
https_parser = record {
  parse = λ s.
      some record {
        scheme = bytes "https";
        host = s;
        has_user = false;
        raw_query = [];
        fragment = [];
      };
}

length_twice : (s u : Text) → length (s ++ u) ≡ length s + length u
length_twice [] u = omega arith
length_twice (b ∷ s) u = omega (arith, length_twice s u)

twice_length : (s : Text) → length s ≡ 32 → length (s ++ s) ≡ 64
twice_length s h = omega (arith, h, length_twice s s)

-- A key is its seed twice, so that the first half is the public one; every message has the same
-- signature.
abbrev flat_ed25519 : Ed25519
unfolding zeros
flat_ed25519 = record {
  new_key = λ seed. seed ++ seed;
  sign_bytes = λ key message. zeros 64;
  verify_bytes = λ key message signature. signature == zeros 64;
  public_key = λ key. zeros 32;
  public_key_length = λ key h. refl;
  new_key_length = λ seed h. twice_length seed h;
  verifies_signed = λ seed message h. eq_refl (zeros 64);
}

abbrev plain_base64 : Base64
plain_base64 = record { encode = λ s. s; decode = λ s. some s; decode-encode = λ s. refl }

abbrev seed : Text
unfolding zeros
seed = zeros 32

abbrev private_key : Text
unfolding seed
private_key = seed ++ seed

length-seed : length seed ≡ 32
unfolding seed zeros
length-seed = refl

abbrev signed : SignedManifest
unfolding zeros
signed = record { manifest = release; digest = digest; signature = zeros 64 }

abbrev trusted : TrustedPublisher
unfolding zeros
trusted = record { id = bytes "acme"; key_id = bytes "k1"; public_key = zeros 32 }

release_signs :
    sign ⦃urls = https_parser⦄ ⦃m = flat_encoder⦄ ⦃h = flat_sha256⦄ ⦃keys = flat_ed25519⦄
      ⦃base = plain_base64⦄ release private_key
    ≡ ok signed
unfolding sign private_key canonical_manifest validate_manifest list_beq identity_pattern
    validate_authorization_features executable_pattern digest_pattern environment_pattern
    validate_schema digest_of
release_signs = refl

release_trusted :
    Trusts ⦃urls = https_parser⦄ ⦃m = flat_encoder⦄ ⦃h = flat_sha256⦄ ⦃keys = flat_ed25519⦄
      ⦃base = plain_base64⦄ trusted release private_key
unfolding trusted
release_trusted = record { same_id = refl; same_key_id = refl; same_key = refl }

release_valid : validate_manifest ⦃urls = https_parser⦄ release ≡ pass
unfolding list_beq validate_manifest identity_pattern validate_authorization_features
    executable_pattern digest_pattern environment_pattern validate_schema
release_valid = refl

validate_manifest-IsPublished_example : IsPublished ⦃urls = https_parser⦄ release
validate_manifest-IsPublished_example =
    validate_manifest-IsPublished ⦃urls = https_parser⦄ release release_valid

verify-sign_example :
    verify ⦃urls = https_parser⦄ ⦃m = flat_encoder⦄ ⦃h = flat_sha256⦄ ⦃keys = flat_ed25519⦄
      ⦃base = plain_base64⦄ signed trusted
    ≡ pass
unfolding flat_ed25519 private_key
verify-sign_example =
    verify-sign ⦃urls = https_parser⦄ ⦃m = flat_encoder⦄ ⦃h = flat_sha256⦄ ⦃keys = flat_ed25519⦄
      ⦃base = plain_base64⦄ release seed trusted signed length-seed release_signs release_trusted

release_verifies :
    verify ⦃urls = https_parser⦄ ⦃m = flat_encoder⦄ ⦃h = flat_sha256⦄ ⦃keys = flat_ed25519⦄
      ⦃base = plain_base64⦄ signed trusted
    ≡ pass
unfolding verify list_beq signed canonical_manifest validate_manifest identity_pattern
    validate_authorization_features executable_pattern digest_pattern environment_pattern
    validate_schema digest_of
release_verifies = refl

verify-IsVerified_example :
    IsVerified ⦃urls = https_parser⦄ ⦃m = flat_encoder⦄ ⦃h = flat_sha256⦄ ⦃keys = flat_ed25519⦄
      ⦃base = plain_base64⦄ signed trusted
verify-IsVerified_example =
    verify-IsVerified ⦃urls = https_parser⦄ ⦃m = flat_encoder⦄ ⦃h = flat_sha256⦄
      ⦃keys = flat_ed25519⦄ ⦃base = plain_base64⦄ signed trusted release_verifies

verify-digest_binds_example :
    (bytes "{}" ≡ bytes "{}") ⊎ Collides ⦃h = flat_sha256⦄ (bytes "{}") (bytes "{}")
verify-digest_binds_example =
    verify-digest_binds ⦃urls = https_parser⦄ ⦃m = flat_encoder⦄ ⦃h = flat_sha256⦄
      ⦃keys = flat_ed25519⦄ ⦃base = plain_base64⦄ signed signed trusted trusted (bytes "{}")
      (bytes "{}") release_verifies release_verifies refl refl refl

demand_mono_example :
    (demand policy_review_changes
        (some record { protocol = action_semantics_protocol; effects = effect_read ∷ [] })
      ≤ demand policy_review_changes (
          some record {
            protocol = action_semantics_protocol;
            effects = (effect_read ∷ []) ++ (effect_write ∷ []);
          }))
    × (demand policy_review_changes
          (some record { protocol = action_semantics_protocol; effects = effect_read ∷ [] })
        ≤ demand policy_review_changes none)
demand_mono_example =
    demand_mono policy_review_changes action_semantics_protocol (effect_read ∷ [])
      (effect_write ∷ [])

abbrev now : ℕ
now = 60000000000 * second

abbrev subject : Subject
subject = record {
  tenant_id = bytes "t";
  actor_id = bytes "a";
  device_id = bytes "d";
  session_id = bytes "s";
  profile_id = bytes "p";
  account_ref = bytes "account-1";
  environment = bytes "prod";
}

abbrev issue_request : IssueRequest
issue_request = record {
  request_id = bytes "q1";
  connection_id = bytes "c1";
  provider = bytes "cloud";
  release = bytes "r1";
  account_ref = bytes "account-1";
  configuration = bytes "{}";
  subject = subject;
  authorization = record {
    profile_digest = digest;
    policy_release = bytes "p1";
    provider = bytes "cloud";
    account_ref = bytes "account-1";
    environments = bytes "prod" ∷ [];
    resource_prefixes = [];
    resource_ids = none;
    rules = [];
  };
  authorization_digest = digest;
  now = now;
  lifetime =
      some
        record { protocol = credential_lifetime_protocol; task_expires_at = now + 1800 * second };
}

abbrev material : Material
material = record {
  kind = bytes "token";
  payload = bytes "{}";
  expires_at = now + 900 * second;
  target_identity = bytes "account-1";
  revocation_semantics = bytes "expiry";
  authorization_digest = digest;
}

issued : validate_issued_lifetime issue_request credential material (now + second) ≡ pass
unfolding validate_issued_lifetime list_beq
issued = refl

validate_issued_lifetime-IsBounded_example :
    IsBounded issue_request credential material (now + second)
validate_issued_lifetime-IsBounded_example =
    validate_issued_lifetime-IsBounded issue_request credential material (now + second) issued
