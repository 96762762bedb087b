-- ===== src/Rules/Ceilings.antt =====
-- The parameter ceilings of all matching rules intersect.
use provider_sdk.Base.{
  All, All-append_iff, Any, Bool, List, Option, Result, [], and_then-eq-true, any_of_Any, arith,
  false, if◌then◌else◌, is_ok_iff, is_present, none, not, ok, refl, some, true, ◌++◌, ◌↔◌, ◌∷◌, ◌≡◌,
  ◌⊎◌,
}
use provider_sdk.Json.{Tokenizer}
use provider_sdk.Limits.{ParameterLimits, matches_limits}
use provider_sdk.Rules.{
  AuthorizationRule, Target, is_unreadable, matches_authorization_rule,
  parameters_within_capability_rules, parameters_within_rules, within_rule,
}
use provider_sdk.Selection.{validate_capability_selection, validate_selector}
use provider_sdk.Text.{Text}
use provider_sdk.Rules.Matching.{IsMatch, matches_authorization_rule_iff}
use provider_sdk.Selection.Capabilities.{
  IsCapabilitySelection, IsExact, validate_capability_selection_iff, validate_selector_iff,
}

-- The capabilities of a rule can be read, and so can the target's if they are to be compared.
pub record IsLegible (rule : AuthorizationRule) (target : Target) : Type 0 where
  pub selection : IsCapabilitySelection rule.capabilities
  pub exact : (is_present rule.capabilities ≡ false) ⊎ IsExact target.capability

is_unreadable-eq-false_iff :
    (rule : AuthorizationRule) (target : Target)
    → (is_unreadable rule target.capability ≡ false) ↔ IsLegible rule target
unfolding is_unreadable
is_unreadable-eq-false_iff rule target = ground (
  arith,
  is_ok_iff (validate_capability_selection rule.capabilities),
  validate_capability_selection_iff rule.capabilities,
  is_ok_iff (validate_selector target.capability),
  validate_selector_iff target.capability,
)

module _ ⦃t : Tokenizer⦄ (target : Target) (parameters : Text) where
  -- A rule with no ceiling admits any parameters; the ceiling of a rule that matches must admit them.
  abbrev pub UnderCeiling : AuthorizationRule → Option ParameterLimits → Type 0
  UnderCeiling rule none = Unit
  UnderCeiling rule (some limits) = IsMatch rule target → matches_limits limits parameters ≡ ok true

  guarded_iff :
      (refused applies : Bool) (r : Result Bool)
      → ((if refused then ok false else if applies then r else ok true) ≡ ok true)
        ↔ ((refused ≡ false) × (applies ≡ true → r ≡ ok true))
  guarded_iff true applies r = ground arith
  guarded_iff false true r = (λ h. (refl, λ _. h), λ h. h.1 refl)
  guarded_iff false false r = (λ h. (refl, λ e. ground arith), λ h. refl)

  not_iff : (b : Bool) → (ok (not b) ≡ ok true) ↔ (b ≡ false)
  not_iff b = ground arith

  within_rule_iff :
      (rule : AuthorizationRule) (limits : Option ParameterLimits)
      → (within_rule target parameters rule limits ≡ ok true)
        ↔ (IsLegible rule target × UnderCeiling rule limits)
  within_rule_iff rule none =
      let (legible, good) = is_unreadable-eq-false_iff rule target in
      let (to, from) = not_iff (is_unreadable rule target.capability) in
      unfold within_rule in (λ h. (legible (to h), tt), λ h. from (good h.0))
  within_rule_iff rule (some limits) =
      let (legible, good) = is_unreadable-eq-false_iff rule target in
      let (match, matched) = matches_authorization_rule_iff rule target in
      let (to, from) =
        guarded_iff (is_unreadable rule target.capability) (matches_authorization_rule rule target)
          (matches_limits limits parameters) in
      unfold within_rule in
      (λ h. (legible (to h).0, λ m. (to h).1 (matched m)), λ h. from (good h.0, λ e. h.1 (match e)))

  -- The loop says yes exactly if it says so of every rule.
  abbrev pub AllUnderCeiling : List AuthorizationRule → Type 0
  AllUnderCeiling rules =
      All (λ rule. IsLegible rule target × UnderCeiling rule rule.parameter_limits) rules

  -- Parameters are within the rules exactly if every rule has legible capabilities and, where it
  -- has a ceiling and matches the target, its ceiling admits them. So no rule lifts the ceiling of
  -- another one, and the order of the rules does not matter.
  pub parameters_within_capability_rules_iff :
      (rules : List AuthorizationRule)
      → (parameters_within_capability_rules target parameters rules ≡ ok true)
        ↔ AllUnderCeiling rules
  unfolding parameters_within_capability_rules
  parameters_within_capability_rules_iff [] = (λ _. tt, λ _. refl)
  parameters_within_capability_rules_iff (rule ∷ rules) =
      let (to, from) = within_rule_iff rule rule.parameter_limits in
      let (to_rest, from_rest) = parameters_within_capability_rules_iff rules in
      (
        λ h.
            let (here, later) =
              and_then-eq-true (within_rule target parameters rule rule.parameter_limits)
                (parameters_within_capability_rules target parameters rules) h in
            (to here, to_rest later),
        λ h. rw (from h.0) (from_rest h.1),
      )

  -- More rules only narrow: parameters within the rules of two lists together are those within the
  -- rules of each.
  pub parameters_within_capability_rules-append :
      (rules others : List AuthorizationRule)
      → (parameters_within_capability_rules target parameters (rules ++ others) ≡ ok true) ↔ (
          (parameters_within_capability_rules target parameters rules ≡ ok true)
          × (parameters_within_capability_rules target parameters others ≡ ok true))
  parameters_within_capability_rules-append rules others =
      let (to_both, from_both) = parameters_within_capability_rules_iff (rules ++ others) in
      let (to_left, from_left) = parameters_within_capability_rules_iff rules in
      let (to_right, from_right) = parameters_within_capability_rules_iff others in
      let (split, join) =
        All-append_iff (λ rule. IsLegible rule target × UnderCeiling rule rule.parameter_limits)
          rules others in
      (
        λ h. (from_left (split (to_both h)).0, from_right (split (to_both h)).1),
        λ h. from_both (join (to_left h.0, to_right h.1)),
      )

-- The entry point without a capability refuses every list in which some rule selects capabilities,
-- whatever its other rules say.
pub parameters_within_rules-refuses :
    ⦃t : Tokenizer⦄ (rules : List AuthorizationRule) (provider operation resource parameters : Text)
    → Any (λ rule. is_present rule.capabilities ≡ true) rules
    → parameters_within_rules rules provider operation resource parameters ≡ ok false
unfolding parameters_within_rules
parameters_within_rules-refuses rules provider operation resource parameters h =
    rw (any_of_Any (λ rule. is_present rule.capabilities) rules h)
