-- ===== src/Rules.antt =====
-- Authorization rules (protocol.go): which requests a rule matches (capability_selection.go) and
-- the parameter ceilings of all matching rules (constraints.go).
pub mod Matching
pub mod Ceilings
use provider_sdk.Base.{
  Bool, List, Option, Result, [], any, contains, false, if◌then◌else◌, is_empty, is_ok, is_present,
  list_eq, nat_eq, none, not, ok, some, true, ◌&&◌, ◌>>=◌, ◌>>◌, ◌||◌, ◌∷◌,
}
use provider_sdk.Json.{Tokenizer}
use provider_sdk.Limits.{ParameterLimits, matches_limits}
use provider_sdk.Selection.{
  CapabilitySelector, matches_capabilities, matches_resources, selector_eq,
  validate_capability_selection, validate_selector,
}
use provider_sdk.Text.{Text}

pub record AuthorizationRule : Type 0 where
  pub id : Text
  pub effect : Text
  pub providers : List Text
  pub operations : List Text
  pub capabilities : Option (List CapabilitySelector)
  pub resource_prefixes : List Text
  pub resource_ids : Option (List Text)
  pub parameter_limits : Option ParameterLimits

-- What is asked of a rule: the arguments of `MatchesAuthorizationRule` besides the rule.
pub record Target : Type 0 where
  pub provider : Text
  pub operation : Text
  pub resource : Text
  pub capability : CapabilitySelector

-- `len(xs) == 0 || slices.Contains(xs, x)`
abbrev pub open_or_contains : List Text → Text → Bool
open_or_contains xs x = is_empty xs || contains xs x

unfoldable pub matches_authorization_rule : AuthorizationRule → Target → Bool
matches_authorization_rule rule target =
    open_or_contains rule.providers target.provider
    && open_or_contains rule.operations target.operation
    && matches_resources target.resource rule.resource_prefixes rule.resource_ids
    && matches_capabilities target.capability rule.capabilities

-- `ValidateCapabilitySelection(...) != nil || (rule.Capabilities != nil && capability.Validate() != nil)`
unfoldable pub is_unreadable : AuthorizationRule → CapabilitySelector → Bool
is_unreadable rule capability =
    not (is_ok (validate_capability_selection rule.capabilities))
    || (is_present rule.capabilities && not (is_ok (validate_selector capability)))

module _ ⦃t : Tokenizer⦄ (target : Target) (parameters : Text) where
  -- One round of the loop: true to go on with the other rules.
  unfoldable pub within_rule : AuthorizationRule → Option ParameterLimits → Result Bool
  unfolding is_unreadable matches_authorization_rule
  within_rule rule none = ok (not (is_unreadable rule target.capability))
  within_rule rule (some limits) =
      if is_unreadable rule target.capability
      then ok false
      else if matches_authorization_rule rule target
      then matches_limits limits parameters
      else ok true

  -- `ParametersWithinCapabilityRules`
  unfoldable pub parameters_within_capability_rules : List AuthorizationRule → Result Bool
  unfolding within_rule
  parameters_within_capability_rules [] = ok true
  parameters_within_capability_rules (rule ∷ rules) = do
    good ← within_rule rule rule.parameter_limits
    if good then parameters_within_capability_rules rules else ok false

-- `CapabilitySelector{}`
abbrev pub no_capability : CapabilitySelector
no_capability = record { ref = []; digest = [] }

-- `ParametersWithinRules`
unfoldable pub parameters_within_rules :
    ⦃t : Tokenizer⦄
    → List AuthorizationRule
    → (provider operation resource parameters : Text) → Result Bool
unfolding parameters_within_capability_rules
parameters_within_rules rules provider operation resource parameters =
    let target : Target = record {
      provider = provider;
      operation = operation;
      resource = resource;
      capability = no_capability;
    } in
    if any (λ rule. is_present rule.capabilities) rules
    then ok false
    else parameters_within_capability_rules target parameters rules
