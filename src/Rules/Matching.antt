-- ===== src/Rules/Matching.antt =====
-- When a rule matches.
use provider_sdk.Base.{
  Bool, In, List, [], arith, contains_iff, inl, list_eq, nat_eq, refl, true, ◌&&◌, ◌↔◌, ◌∷◌, ◌≡◌,
  ◌⊎◌,
}
use provider_sdk.Rules.{AuthorizationRule, Target, matches_authorization_rule, open_or_contains}
use provider_sdk.Selection.{selector_eq}
use provider_sdk.Text.{Text}
use provider_sdk.Selection.Capabilities.{
  IsCapabilitySelection, SelectsCapability, matches_capabilities_iff,
}
use provider_sdk.Selection.Resources.{IsSelection, Selects, matches_resources_iff}

abbrev pub OpenOrIn : List Text → Text → Type 0
OpenOrIn xs x = (xs ≡ []) ⊎ In x xs

-- Every selector of a rule selects its part of the target.
pub record IsMatch (rule : AuthorizationRule) (target : Target) : Type 0 where
  pub provider : OpenOrIn rule.providers target.provider
  pub operation : OpenOrIn rule.operations target.operation
  pub resources : IsSelection rule.resource_prefixes rule.resource_ids
  pub resource : Selects target.resource rule.resource_prefixes rule.resource_ids
  pub capabilities : IsCapabilitySelection rule.capabilities
  pub capability : SelectsCapability target.capability rule.capabilities

open_or_contains_iff : (xs : List Text) (x : Text) → (open_or_contains xs x ≡ true) ↔ OpenOrIn xs x
open_or_contains_iff [] x = (λ _. inl refl, λ _. refl)
open_or_contains_iff (y ∷ xs) x = ground (arith, contains_iff (y ∷ xs) x)

and₄-eq-true :
    {a b c d : Bool} → (a && b && c && d) ≡ true → (a ≡ true) × (b ≡ true) × (c ≡ true) × (d ≡ true)
and₄-eq-true h = ground arith

true-and₄ : {a b c d : Bool} → a ≡ true → b ≡ true → c ≡ true → d ≡ true → (a && b && c && d) ≡ true
true-and₄ p q r s = ground arith

-- A rule matches exactly if each of its selectors does: the provider and the operation are listed or
-- the list is empty, and its selections of resources and of capabilities are well-formed and select
-- the target's. So each selector only narrows what the others select.
pub matches_authorization_rule_iff :
    (rule : AuthorizationRule) (target : Target)
    → (matches_authorization_rule rule target ≡ true) ↔ IsMatch rule target
unfolding matches_authorization_rule
matches_authorization_rule_iff rule target =
    let (to_p, of_p) = open_or_contains_iff rule.providers target.provider in
    let (to_o, of_o) = open_or_contains_iff rule.operations target.operation in
    let (to_r, of_r) =
      matches_resources_iff target.resource rule.resource_prefixes rule.resource_ids in
    let (to_c, of_c) = matches_capabilities_iff target.capability rule.capabilities in
    (
      λ h.
          let (p, o, r, c) = and₄-eq-true h in
          record {
            provider = to_p p;
            operation = to_o o;
            resources = (to_r r).0;
            resource = (to_r r).1;
            capabilities = (to_c c).0;
            capability = (to_c c).1;
          },
      λ m.
          true-and₄ (of_p m.provider) (of_o m.operation) (of_r (m.resources, m.resource))
            (of_c (m.capabilities, m.capability)),
    )
