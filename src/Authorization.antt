-- ===== src/Authorization.antt =====
-- protocol.go: the authorization that a credential must enforce, and its validation;
-- constraints.go: the constraints that an issuer must declare before it may issue.
pub mod Accepted
pub mod Digests
pub mod Support
use provider_sdk.Base.{
  Bool, Check, List, Option, [], any, contains, is_empty, is_present, list_eq, nat_eq, none, not,
  pass, reject, some, ◌&&◌, ◌++◌, ◌==◌, ◌>>=◌, ◌>>◌, ◌||◌, ◌∷◌,
}
use provider_sdk.Json.{Tokenizer}
use provider_sdk.Limits.{ParameterLimits, validate_limits}
use provider_sdk.Rules.{AuthorizationRule}
use provider_sdk.Selection.{selector_eq, validate_capability_selection, validate_resource_selection}
use provider_sdk.Text.{Text, bytes, is_blank}
use provider_sdk.Text.Patterns.{authorization_digest_pattern}

pub record Authorization : Type 0 where
  pub profile_digest : Text
  pub policy_release : Text
  pub provider : Text
  pub account_ref : Text
  pub environments : List Text
  pub resource_prefixes : List Text
  pub resource_ids : Option (List Text)
  pub rules : List AuthorizationRule

abbrev pub exact_resources_v1 : Text
exact_resources_v1 = bytes "exact_resources_v1"

abbrev pub parameter_limits_v1 : Text
parameter_limits_v1 = bytes "parameter_limits_v1"

abbrev pub capability_bindings_v1 : Text
capability_bindings_v1 = bytes "capability_bindings_v1"

abbrev pub authorization_features : List Text
authorization_features = exact_resources_v1 ∷ parameter_limits_v1 ∷ capability_bindings_v1 ∷ []

unfoldable pub check_features : List Text → List Text → Check
check_features seen [] = pass
check_features seen (feature ∷ features) = do
  reject (not (contains authorization_features feature) || contains seen feature)
      "unsupported or duplicate credential authorization feature"
  check_features (feature ∷ seen) features

-- `ValidateAuthorizationFeatures`
unfoldable pub validate_authorization_features : List Text → Check
unfolding check_features
validate_authorization_features features = check_features [] features

-- The rule effects that a parameter ceiling may stand beside.
abbrev pub takes_limits : Text → Bool
takes_limits effect = effect == bytes "allow" || effect == bytes "require_typed_capability"

abbrev pub rule_effects : List Text
rule_effects =
    bytes "allow"
    ∷ bytes "deny"
    ∷ bytes "require_approval"
    ∷ bytes "require_typed_capability"
    ∷ bytes "stop_session"
    ∷ []

module _ ⦃t : Tokenizer⦄ where
  unfoldable pub check_rule_limits : Text → Option ParameterLimits → Check
  check_rule_limits effect none = pass
  check_rule_limits effect (some limits) = do
    reject (not (takes_limits effect)) "parameter ceilings require an allow or typed rule"
    validate_limits limits

  -- One round of the loop over the rules, with the keys of `seen`.
  unfoldable pub check_rule : List Text → AuthorizationRule → Check
  unfolding check_rule_limits
  check_rule seen rule = do
    validate_capability_selection rule.capabilities
    validate_resource_selection rule.resource_prefixes rule.resource_ids
    check_rule_limits rule.effect rule.parameter_limits
    reject (is_blank rule.id) "authorization rule id is required"
    reject (contains seen rule.id) "authorization rule is duplicated"
    reject (not (contains rule_effects rule.effect)) "authorization rule effect is invalid"
    reject (any is_blank (rule.providers ++ (rule.operations ++ rule.resource_prefixes)))
        "authorization rule contains an empty matcher"

  unfoldable pub check_rules : List Text → List AuthorizationRule → Check
  unfolding check_rule
  check_rules seen [] = pass
  check_rules seen (rule ∷ rules) = do check_rule seen rule; check_rules (rule.id ∷ seen) rules

  -- `Authorization.Validate`; the first four tests are a loop over a map, so which of their messages
  -- is returned is left open there.
  unfoldable pub validate_authorization : Authorization → Check
  unfolding check_rules
  validate_authorization a = do
    validate_resource_selection a.resource_prefixes a.resource_ids
    reject (is_blank a.profile_digest) "profile digest is required"
    reject (is_blank a.policy_release) "policy release is required"
    reject (is_blank a.provider) "provider is required"
    reject (is_blank a.account_ref) "account ref is required"
    reject
        (not (authorization_digest_pattern a.profile_digest)
          || is_empty a.environments
          || is_empty a.rules)
        "authorization identity, environments, and rules are required"
    reject (any is_blank (a.environments ++ a.resource_prefixes))
        "authorization scope contains an empty matcher"
    check_rules [] a.rules

-- The three flags of `CheckAuthorizationSupport` after its loop over the rules.
abbrev pub uses_exact_resources : Authorization → Bool
uses_exact_resources a =
    is_present a.resource_ids || any (λ rule. is_present rule.resource_ids) a.rules

abbrev pub uses_parameter_limits : Authorization → Bool
uses_parameter_limits a = any (λ rule. is_present rule.parameter_limits) a.rules

abbrev pub uses_capabilities : Authorization → Bool
uses_capabilities a = any (λ rule. is_present rule.capabilities) a.rules

-- `CheckAuthorizationSupport`
unfoldable pub check_authorization_support : ⦃t : Tokenizer⦄ → Authorization → List Text → Check
check_authorization_support a features = do
  validate_authorization a
  validate_authorization_features features
  reject (uses_exact_resources a && not (contains features exact_resources_v1))
      "credential release does not enforce exact resources"
  reject (uses_parameter_limits a && not (contains features parameter_limits_v1))
      "credential release does not enforce parameter limits"
  reject (uses_capabilities a && not (contains features capability_bindings_v1))
      "credential release does not enforce capability bindings"
