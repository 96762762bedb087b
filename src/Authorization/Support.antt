-- ===== src/Authorization/Support.antt =====
-- What an issuer has declared when the check of its support passes.
use provider_sdk.Base.{
  All, Bool, Distinct, Fresh, Fresh-cons_iff, Fresh-nil_iff, In, List, Option, [], any, arith,
  contains, contains_iff, false, is_present, list_eq, nat_eq, none, not, pass, refl, some, true,
  ◌&&◌, ◌↔◌, ◌∷◌, ◌≡◌, ◌≢◌,
}
use provider_sdk.Authorization.{
  Authorization, authorization_features, capability_bindings_v1, check_authorization_support,
  check_features, exact_resources_v1, parameter_limits_v1, uses_capabilities, uses_exact_resources,
  uses_parameter_limits, validate_authorization, validate_authorization_features,
}
use provider_sdk.Json.{Tokenizer}
use provider_sdk.Rules.{AuthorizationRule}
use provider_sdk.Selection.{selector_eq}
use provider_sdk.Text.{Text}

check_features-cons_iff :
    (seen : List Text) (feature : Text) (features : List Text)
    → (check_features seen (feature ∷ features) ≡ pass) ↔ (
        In feature authorization_features
        × (¬ In feature seen)
        × (check_features (feature ∷ seen) features ≡ pass))
unfolding check_features
check_features-cons_iff seen feature features =
    ground (arith, contains_iff seen feature, contains_iff authorization_features feature)

check_features_iff :
    (seen features : List Text)
    → (check_features seen features ≡ pass)
      ↔ (All (λ f. In f authorization_features) features × Fresh seen features)
check_features_iff seen [] = unfold check_features in ground arith
check_features_iff seen (feature ∷ features) = ground (
  arith,
  check_features-cons_iff seen feature features,
  check_features_iff (feature ∷ seen) features,
  Fresh-cons_iff seen feature features,
)

-- Declared features are accepted exactly if they are known and none is declared twice.
pub validate_authorization_features_iff :
    (features : List Text)
    → (validate_authorization_features features ≡ pass)
      ↔ (All (λ f. In f authorization_features) features × Distinct features)
unfolding validate_authorization_features
validate_authorization_features_iff features =
    ground (arith, check_features_iff [] features, Fresh-nil_iff features)

-- The exact resources, the parameter limits and the capability bindings that a rule of the
-- authorization carries are declared features.
pub record RuleEnforced (features : List Text) (rule : AuthorizationRule) : Type 0 where
  pub resources : rule.resource_ids ≢ none → In exact_resources_v1 features
  pub limits : rule.parameter_limits ≢ none → In parameter_limits_v1 features
  pub capabilities : rule.capabilities ≢ none → In capability_bindings_v1 features

is_present_of : {A : Type 0} (o : Option A) → o ≢ none → is_present o ≡ true
is_present_of none h = absurd (h refl)
is_present_of (some a) h = refl

module _ (features : List Text) where
  -- A use of a feature by some rule is a use that the check sees.
  demanded :
      (use_of : AuthorizationRule → Bool) (feature : Text) (rules : List AuthorizationRule)
      → (any use_of rules && not (contains features feature)) ≡ false
      → All (λ rule. use_of rule ≡ true → In feature features) rules
  demanded use_of feature [] h = tt
  demanded use_of feature (rule ∷ rules) h = (
    λ used. (contains_iff features feature).0 (ground arith),
    demanded use_of feature rules (ground arith),
  )

  All-enforced :
      (rules : List AuthorizationRule)
      → All (λ rule. is_present rule.resource_ids ≡ true → In exact_resources_v1 features) rules
      → All
          (λ rule. is_present rule.parameter_limits ≡ true → In parameter_limits_v1 features)
          rules
      → All (λ rule. is_present rule.capabilities ≡ true → In capability_bindings_v1 features) rules
      → All (RuleEnforced features) rules
  All-enforced [] r l c = tt
  All-enforced (rule ∷ rules) (r, rs) (l, ls) (c, cs) = (
    record {
      resources = λ h. r (is_present_of rule.resource_ids h);
      limits = λ h. l (is_present_of rule.parameter_limits h);
      capabilities = λ h. c (is_present_of rule.capabilities h);
    },
    All-enforced rules rs ls cs,
  )

check_authorization_support_parts :
    ⦃t : Tokenizer⦄ (a : Authorization) (features : List Text)
    → check_authorization_support a features ≡ pass
    → (validate_authorization a ≡ pass)
      × (validate_authorization_features features ≡ pass)
      × ((uses_exact_resources a && not (contains features exact_resources_v1)) ≡ false)
      × ((uses_parameter_limits a && not (contains features parameter_limits_v1)) ≡ false)
      × ((uses_capabilities a && not (contains features capability_bindings_v1)) ≡ false)
unfolding check_authorization_support
check_authorization_support_parts a features h = ground arith

scope_enforced :
    (a : Authorization) (features : List Text)
    → (uses_exact_resources a && not (contains features exact_resources_v1)) ≡ false
    → a.resource_ids ≢ none
    → In exact_resources_v1 features
scope_enforced a features h present =
    (contains_iff features exact_resources_v1).0
      (ground (arith, is_present_of a.resource_ids present))

rules_use :
    (a : Authorization) (features : List Text)
    → (uses_exact_resources a && not (contains features exact_resources_v1)) ≡ false
    → (any (λ rule. is_present rule.resource_ids) a.rules
        && not (contains features exact_resources_v1))
      ≡ false
rules_use a features h = ground arith

-- When the check passes, the authorization and the declared features pass their own validations.
-- If the authorization or one of its rules lists exact resources, or a rule has parameter limits or
-- capability bindings, then the feature for it is among the declared ones.
pub check_authorization_support-enforced :
    ⦃t : Tokenizer⦄ (a : Authorization) (features : List Text)
    → check_authorization_support a features ≡ pass
    → (validate_authorization a ≡ pass)
      × (validate_authorization_features features ≡ pass)
      × (a.resource_ids ≢ none → In exact_resources_v1 features)
      × All (RuleEnforced features) a.rules
check_authorization_support-enforced a features h =
    let (valid, known, e, l, c) = check_authorization_support_parts a features h in
    (
      valid,
      known,
      scope_enforced a features e,
      All-enforced features a.rules
          (demanded features (λ rule. is_present rule.resource_ids) exact_resources_v1 a.rules
            (rules_use a features e))
          (demanded features (λ rule. is_present rule.parameter_limits) parameter_limits_v1 a.rules
            l)
          (demanded features (λ rule. is_present rule.capabilities) capability_bindings_v1 a.rules
            c),
    )
