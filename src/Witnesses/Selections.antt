-- ===== src/Witnesses/Selections.antt =====
-- Examples of selections and of authorizations.
use provider_sdk.Base.{
  All, In, List, [], list_beq, none, ok, pass, refl, some, true, ◌↔◌, ◌∷◌, ◌≡◌, ◌≢◌,
}
use provider_sdk.Authorization.{
  Authorization, authorization_features, check_authorization_support, exact_resources_v1,
  validate_authorization, validate_authorization_features,
}
use provider_sdk.Rules.{
  AuthorizationRule, Target, no_capability, parameters_within_capability_rules,
}
use provider_sdk.Selection.{
  CapabilitySelector, matches_capabilities, matches_resources, validate_capability_selection,
  validate_resource_selection,
}
use provider_sdk.Text.{Text, bytes, contains_any, is_blank}
use provider_sdk.Witnesses.{small_object, small_tokenizer}
use provider_sdk.Authorization.Accepted.{IsAuthorization, validate_authorization_iff}
use provider_sdk.Authorization.Support.{RuleEnforced, check_authorization_support-enforced}
use provider_sdk.Rules.Ceilings.{AllUnderCeiling, parameters_within_capability_rules_iff}
use provider_sdk.Selection.Resources.{IsSelection, Selects, matches_resources_iff}
use provider_sdk.Text.Patterns.{authorization_digest_pattern, identity_pattern}

abbrev prefixes : List Text
prefixes = bytes "projects/a" ∷ []

abbrev chosen : CapabilitySelector
chosen = record {
  ref = bytes "disk.resize";
  digest = bytes "sha256:0000000000000000000000000000000000000000000000000000000000000000";
}

matches_resources_iff_example :
    (matches_resources (bytes "projects/a/disks/1") prefixes none ≡ true)
    ↔ (IsSelection prefixes none × Selects (bytes "projects/a/disks/1") prefixes none)
matches_resources_iff_example = matches_resources_iff (bytes "projects/a/disks/1") prefixes none

chosen_matches : matches_capabilities chosen (some (chosen ∷ [])) ≡ true
unfolding matches_capabilities identity_pattern authorization_digest_pattern list_beq
chosen_matches = refl

abbrev resize_rule : AuthorizationRule
resize_rule = record {
  id = bytes "rule-1";
  effect = bytes "allow";
  providers = [];
  operations = bytes "resize" ∷ [];
  capabilities = none;
  resource_prefixes = [];
  resource_ids = some (bytes "disk-1" ∷ []);
  parameter_limits = none;
}

abbrev resize : Target
resize = record {
  provider = bytes "cloud";
  operation = bytes "resize";
  resource = bytes "disk-1";
  capability = no_capability;
}

parameters_within_capability_rules_iff_example :
    (parameters_within_capability_rules ⦃t = small_tokenizer⦄ resize small_object (resize_rule ∷ [])
      ≡ ok true)
    ↔ AllUnderCeiling ⦃t = small_tokenizer⦄ resize small_object (resize_rule ∷ [])
parameters_within_capability_rules_iff_example =
    parameters_within_capability_rules_iff ⦃t = small_tokenizer⦄ resize small_object
      (resize_rule ∷ [])

abbrev chosen_rule : AuthorizationRule
chosen_rule = record {
  id = bytes "rule-2";
  effect = bytes "allow";
  providers = [];
  operations = [];
  capabilities = some (chosen ∷ []);
  resource_prefixes = [];
  resource_ids = none;
  parameter_limits = none;
}

abbrev authorization : Authorization
authorization = record {
  profile_digest = chosen.digest;
  policy_release = bytes "p1";
  provider = bytes "cloud";
  account_ref = bytes "account-1";
  environments = bytes "prod" ∷ [];
  resource_prefixes = [];
  resource_ids = none;
  rules = resize_rule ∷ chosen_rule ∷ [];
}

validate_authorization_iff_example :
    (validate_authorization ⦃t = small_tokenizer⦄ authorization ≡ pass)
    ↔ IsAuthorization ⦃t = small_tokenizer⦄ authorization
validate_authorization_iff_example = validate_authorization_iff ⦃t = small_tokenizer⦄ authorization

supported :
    check_authorization_support ⦃t = small_tokenizer⦄ authorization authorization_features ≡ pass
unfolding check_authorization_support validate_authorization validate_resource_selection is_blank
    authorization_digest_pattern validate_capability_selection list_beq contains_any
    identity_pattern validate_authorization_features
supported = refl

check_authorization_support-enforced_example :
    (validate_authorization ⦃t = small_tokenizer⦄ authorization ≡ pass)
    × (validate_authorization_features authorization_features ≡ pass)
    × (authorization.resource_ids ≢ none → In exact_resources_v1 authorization_features)
    × All (RuleEnforced authorization_features) authorization.rules
check_authorization_support-enforced_example =
    check_authorization_support-enforced ⦃t = small_tokenizer⦄ authorization authorization_features
      supported
