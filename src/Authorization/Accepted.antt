-- ===== src/Authorization/Accepted.antt =====
-- What an accepted authorization is.

use provider_sdk.Base.{
  >>-eq-ok, All, Distinct, Fresh, Fresh-cons_iff, Fresh-nil_iff, In, List, Option, [], any, arith,
  contains_iff, eq_iff, false, list_eq, nat_eq, none, pass, refl, some, true, ◌++◌, ◌↔◌, ◌∷◌, ◌≡◌,
  ◌≢◌, ◌⊎◌,
}
use provider_sdk.Authorization.{
  Authorization, check_rule, check_rule_limits, check_rules, rule_effects, validate_authorization,
}
use provider_sdk.Json.{Tokenizer}
use provider_sdk.Limits.{ParameterLimits, validate_limits}
use provider_sdk.Rules.{AuthorizationRule}
use provider_sdk.Selection.{selector_eq}
use provider_sdk.Text.{Text, bytes, is_blank}
use provider_sdk.Selection.Capabilities.{IsCapabilitySelection, validate_capability_selection_iff}
use provider_sdk.Selection.Resources.{IsSelection, validate_resource_selection_iff}
use provider_sdk.Text.Patterns.{authorization_digest_pattern}

module _ ⦃t : Tokenizer⦄ where
  -- A ceiling is valid and stands only in a rule that allows or that requires a typed capability.
  abbrev pub CeilingFits : Text → Option ParameterLimits → Type 0
  CeilingFits effect none = Unit
  CeilingFits effect (some limits) =
      ((effect ≡ bytes "allow") ⊎ (effect ≡ bytes "require_typed_capability"))
      × (validate_limits limits ≡ pass)

  pub record IsRule (rule : AuthorizationRule) : Type 0 where
    pub named : is_blank rule.id ≡ false
    pub effect_known : In rule.effect rule_effects
    pub capabilities_fit : IsCapabilitySelection rule.capabilities
    pub resources_fit : IsSelection rule.resource_prefixes rule.resource_ids
    pub ceiling_fits : CeilingFits rule.effect rule.parameter_limits
    pub matchers :
        any is_blank (rule.providers ++ (rule.operations ++ rule.resource_prefixes)) ≡ false

  abbrev pub rule_ids : List AuthorizationRule → List Text
  rule_ids [] = []
  rule_ids (rule ∷ rules) = rule.id ∷ rule_ids rules

  pub record IsAuthorization (a : Authorization) : Type 0 where
    pub scope : IsSelection a.resource_prefixes a.resource_ids
    pub digest : authorization_digest_pattern a.profile_digest ≡ true
    pub profile : is_blank a.profile_digest ≡ false
    pub policy : is_blank a.policy_release ≡ false
    pub provider : is_blank a.provider ≡ false
    pub account : is_blank a.account_ref ≡ false
    pub somewhere : a.environments ≢ []
    pub matchers : any is_blank (a.environments ++ a.resource_prefixes) ≡ false
    pub ruled : a.rules ≢ []
    pub rules : All IsRule a.rules
    pub distinct : Distinct (rule_ids a.rules)

  check_rule_limits_iff :
      (effect : Text) (limits : Option ParameterLimits)
      → (check_rule_limits effect limits ≡ pass) ↔ CeilingFits effect limits
  unfolding check_rule_limits
  check_rule_limits_iff effect none = (λ _. tt, λ _. refl)
  check_rule_limits_iff effect (some limits) =
      ground
        (arith, eq_iff effect (bytes "allow"), eq_iff effect (bytes "require_typed_capability"))

  check_rule_iff :
      (seen : List Text) (rule : AuthorizationRule)
      → (check_rule seen rule ≡ pass) ↔ (IsRule rule × (¬ In rule.id seen))
  unfolding check_rule
  check_rule_iff seen rule = ground (
    arith,
    validate_capability_selection_iff rule.capabilities,
    validate_resource_selection_iff rule.resource_prefixes rule.resource_ids,
    check_rule_limits_iff rule.effect rule.parameter_limits,
    contains_iff seen rule.id,
    contains_iff rule_effects rule.effect,
  )

  check_rules-cons_iff :
      (seen : List Text) (rule : AuthorizationRule) (rules : List AuthorizationRule)
      → (check_rules seen (rule ∷ rules) ≡ pass)
        ↔ (IsRule rule × (¬ In rule.id seen) × (check_rules (rule.id ∷ seen) rules ≡ pass))
  check_rules-cons_iff seen rule rules =
      let (to, from) = check_rule_iff seen rule in
      unfold check_rules in
      (
        λ h.
            let (here, later) =
              >>-eq-ok (check_rule seen rule) (check_rules (rule.id ∷ seen) rules) h in
            ((to here).0, (to here).1, later),
        λ h. rw (from (h.0, h.1)) h.2,
      )

  check_rules_iff :
      (seen : List Text) (rules : List AuthorizationRule)
      → (check_rules seen rules ≡ pass) ↔ (All IsRule rules × Fresh seen (rule_ids rules))
  check_rules_iff seen [] = unfold check_rules in ground arith
  check_rules_iff seen (rule ∷ rules) = ground (
    arith,
    check_rules-cons_iff seen rule rules,
    check_rules_iff (rule.id ∷ seen) rules,
    Fresh-cons_iff seen rule.id (rule_ids rules),
  )

  -- An authorization is accepted exactly if its scope is an accepted selection, its identity and its
  -- environments are given, and it has rules, with distinct identities, each of which is named, has a
  -- known effect, selects capabilities and resources well-formedly, has no blank matcher, and has a
  -- ceiling only where the effect allows one, a valid one.
  pub validate_authorization_iff :
      (a : Authorization) → (validate_authorization a ≡ pass) ↔ IsAuthorization a
  unfolding validate_authorization
  validate_authorization_iff a = ground (
    arith,
    validate_resource_selection_iff a.resource_prefixes a.resource_ids,
    check_rules_iff [] a.rules,
    Fresh-nil_iff (rule_ids a.rules),
  )
