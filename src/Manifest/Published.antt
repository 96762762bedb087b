-- ===== src/Manifest/Published.antt =====
-- What a valid manifest publishes.
use mathlib.Core.Path.{subst}
use provider_sdk.Manifest.Entries.{
  action_refs, check_actions-pass, check_artifacts-pass, check_environment-pass, is_empty-eq-false,
  not_false, platforms,
}
use provider_sdk.Base.{
  >>-eq-ok, All, Bool, Distinct, Fresh-nil_iff, Option, String, [], ap, arith, false, is_empty,
  is_present, list_eq, nat_eq, none, not, pass, refl, reject, some, true, ◌!=◌, ◌&&◌, ◌||◌, ◌≡◌,
  ◌≢◌,
}
use provider_sdk.Authorization.{validate_authorization_features}
use provider_sdk.Capability.{validate_capability, validate_schema}
use provider_sdk.Manifest.{
  Credential, Manifest, Renderer, UrlParser, check_actions, check_artifacts, check_broker,
  check_credential, check_issuance, payload_schema_check, renderer_protocol,
  validate_lifetime_protocol, validate_manifest,
}
use provider_sdk.Selection.{selector_eq}
use provider_sdk.Base.Int.{between}
use provider_sdk.Text.Patterns.{digest_pattern, environment_pattern, executable_pattern}
use provider_sdk.Manifest.Transport.{IsReached, check_broker-IsReached}

-- A credential lives at most a day; its renderer has artifacts, with known digests and at most one for a
-- platform, and names no variable of the environment twice.
pub record IsIssued (c : Credential) (r : Renderer) : Type 0 where
  pub bounded : between 1 86400 c.maximum_ttl_seconds ≡ true
  pub built : r.artifacts ≢ []
  pub digests : All (λ a. digest_pattern a.digest ≡ true) r.artifacts
  pub each_platform : Distinct (platforms r.artifacts)
  pub named : All (λ n. environment_pattern n ≡ true) r.sensitive_environment
  pub each_name : Distinct r.sensitive_environment

-- The parts of a manifest that its users rely on.
pub record IsPublished ⦃urls : UrlParser⦄ (m : Manifest) : Type 0 where
  pub together : is_present m.credential ≡ is_present m.renderer
  pub issued :
      (c : Credential) (r : Renderer) → m.credential ≡ some c → m.renderer ≡ some r → IsIssued c r
  pub reached : IsReached m.broker
  pub usable : All (λ a. validate_capability a ≡ pass) m.actions
  pub each_action : Distinct (action_refs m.actions)
  pub offers : (m.credential ≡ none) → m.actions ≢ []

check_credential-IsIssued :
    (c : Credential) (r : Renderer) → check_credential c r ≡ pass → IsIssued c r
unfolding check_credential
check_credential-IsIssued c r h =
    let (_, h₁) = >>-eq-ok (validate_lifetime_protocol c.lifetime_protocol) _ h in
    let (_, h₂) = >>-eq-ok (validate_authorization_features c.authorization_features) _ h₁ in
    let (_, h₃) = >>-eq-ok (reject _ "credential kind is invalid") _ h₂ in
    let (_, h₄) = >>-eq-ok (reject _ "revocation semantics is invalid") _ h₃ in
    let (ttl, h₅) = >>-eq-ok (reject _ "maximum credential ttl is invalid") _ h₄ in
    let (contract, h₆) = >>-eq-ok (reject _ "renderer contract is invalid") _ h₅ in
    let (artifacts, environment) = >>-eq-ok (check_artifacts [] r.artifacts) _ h₆ in
    let (digests, platforms') = check_artifacts-pass [] r.artifacts artifacts in
    let (named, names) = check_environment-pass [] r.sensitive_environment environment in
    record {
      bounded =
          not_false (between 1 86400 c.maximum_ttl_seconds) "maximum credential ttl is invalid" ttl;
      built = is_empty-eq-false r.artifacts (
          last_of (r.protocol != renderer_protocol) (not (executable_pattern r.executable))
            (is_empty r.artifacts) "renderer contract is invalid" contract);
      digests = digests;
      each_platform = (Fresh-nil_iff (platforms r.artifacts)).0 platforms';
      named = named;
      each_name = (Fresh-nil_iff r.sensitive_environment).0 names;
    }
  where
    last_of : (a b c : Bool) (message : String) → reject (a || b || c) message ≡ pass → c ≡ false
    last_of a b c message e = ground arith

check_issuance-parts :
    (c : Option Credential) (r : Option Renderer)
    → check_issuance c r ≡ pass
    → (is_present c ≡ is_present r)
      × ((x : Credential) (y : Renderer) → c ≡ some x → r ≡ some y → IsIssued x y)
unfolding check_issuance
check_issuance-parts none none h = (refl, λ x y e f. absurd (cc e))
check_issuance-parts (some c) (some r) h = (
  refl,
  λ x y e f.
      let same : c ≡ x = cc e in
      let same' : r ≡ y = cc f in
      subst (λ q. IsIssued q y) same
        (subst (λ q. IsIssued c q) same' (check_credential-IsIssued c r h)),
)
check_issuance-parts none (some r) h = absurd (cc h)
check_issuance-parts (some c) none h = absurd (cc h)

-- A valid manifest publishes a credential exactly with its renderer, or else actions; the credential lives
-- at most a day, and the renderer has artifacts, at most one for a platform; the broker is reached at one
-- plain https endpoint, or pulls and has artifacts and no endpoint; the actions are valid and no two
-- share a reference.
pub validate_manifest-IsPublished :
    ⦃urls : UrlParser⦄ (m : Manifest) → validate_manifest m ≡ pass → IsPublished m
unfolding validate_manifest
validate_manifest-IsPublished m h =
    let (_, h₁) = >>-eq-ok (reject _ "provider adapter protocol is incompatible") _ h in
    let (_, h₂) = >>-eq-ok (reject _ "publisher id is invalid") _ h₁ in
    let (_, h₃) = >>-eq-ok (reject _ "publisher key id is invalid") _ h₂ in
    let (_, h₄) = >>-eq-ok (reject _ "release is invalid") _ h₃ in
    let (_, h₅) = >>-eq-ok (reject _ "provider is invalid") _ h₄ in
    let (issuance, h₆) = >>-eq-ok (check_issuance m.credential m.renderer) _ h₅ in
    let (broker, h₇) = >>-eq-ok (check_broker m.broker) _ h₆ in
    let (_, h₈) = >>-eq-ok (validate_schema m.configuration_schema "configuration") _ h₇ in
    let (_, h₉) = >>-eq-ok (payload_schema_check m.credential) _ h₈ in
    let (actions, something) = >>-eq-ok (check_actions [] m.actions) _ h₉ in
    let (together, issued) = check_issuance-parts m.credential m.renderer issuance in
    let (usable, refs_once) = check_actions-pass [] m.actions actions in
    record {
      together = together;
      issued = issued;
      reached = check_broker-IsReached m.broker broker;
      usable = usable;
      each_action = (Fresh-nil_iff (action_refs m.actions)).0 refs_once;
      offers = λ none_issued. is_empty-eq-false m.actions (
          offered (is_present m.credential) (is_empty m.actions)
            "provider release must publish credentials, actions, or both" something
            (ap is_present none_issued));
    }
  where
    offered :
        (c a : Bool) (message : String) → reject (not c && a) message ≡ pass → c ≡ false → a ≡ false
    offered c a message k e = ground arith
