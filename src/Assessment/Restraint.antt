-- ===== src/Assessment/Restraint.antt =====
-- What a simple policy can never demand too little of.
use provider_sdk.Assessment.{
  EffectAssessment, Flags, SimplePolicy, assess_capability_effects, assess_digest, assess_policy,
  assess_valid, blocked, conclude, delegation, effect_flags, initial_assessment, policy_presets,
  policy_read_only, policy_review_changes, validate_policy,
}
use provider_sdk.Base.{
  Bool-cases, Check, Option, Result, arith, contains, err, false, hang, inl, inr, list_eq, nat_eq,
  ok, panic, pass, refl, true, ◌==◌, ◌||◌, ◌≡◌, ◌≢◌,
}
use provider_sdk.Selection.{selector_eq}
use provider_sdk.Text.{Text}
use provider_sdk.Capability.{ActionCapability, ActionSemantics, action_capability_digest}
use provider_sdk.Platform.{Encoder, Sha256}

-- The presets that SimplePolicy releases never come down to delegation.
conclude_never_delegates :
    (preset : Text) (f : Flags)
    → ((preset == policy_read_only || preset == policy_review_changes) ≡ true)
    → (conclude preset f).0 ≢ delegation
unfolding conclude
conclude_never_delegates preset f h = λ e. ground arith

validate_policy_released :
    (p : SimplePolicy)
    → validate_policy p ≡ pass
    → (p.preset == policy_read_only || p.preset == policy_review_changes) ≡ true
unfolding validate_policy
validate_policy_released p h = ground arith

-- An assessment that neither grants authority nor comes down to delegation.
abbrev pub IsRestrained : EffectAssessment → Type 0
IsRestrained a = (a.requirement ≢ delegation) × (a.authority_granted ≡ false)

blocked_no_delegation : blocked ≢ delegation
blocked_no_delegation e = cc e

initial_assessment-IsRestrained : (preset : Text) → IsRestrained (initial_assessment preset)
initial_assessment-IsRestrained preset = (blocked_no_delegation, refl)

assess_digest-IsRestrained :
    (preset : Text) (semantics : Option ActionSemantics) (digest : Result Text)
    → ((preset == policy_read_only || preset == policy_review_changes) ≡ true)
    → IsRestrained (assess_digest preset semantics digest).0
assess_digest-IsRestrained preset semantics (ok d) h =
    (conclude_never_delegates preset (effect_flags semantics) h, refl)
assess_digest-IsRestrained preset semantics (err message) h = initial_assessment-IsRestrained preset
assess_digest-IsRestrained preset semantics panic h = initial_assessment-IsRestrained preset
assess_digest-IsRestrained preset semantics hang h = initial_assessment-IsRestrained preset

module _ ⦃s : Sha256⦄ ⦃m : Encoder ActionCapability⦄ where
  assess_capability_effects-IsRestrained :
      (preset : Text) (capability : ActionCapability)
      → ((preset == policy_read_only || preset == policy_review_changes) ≡ true)
      → IsRestrained (assess_capability_effects preset capability).0
  unfolding assess_capability_effects
  assess_capability_effects-IsRestrained preset capability h =
      elim (Bool-cases (contains policy_presets preset)) [
        | inl known ↦ rw known (
            assess_digest-IsRestrained preset capability.semantics
              (action_capability_digest capability) h)
        | inr unknown ↦ rw unknown (initial_assessment-IsRestrained preset)
      ]

  assess_valid-IsRestrained :
      (preset : Text) (valid : Check) (assessed : EffectAssessment × Check)
      → (valid ≡ pass → IsRestrained assessed.0)
      → IsRestrained (assess_valid preset valid assessed).0
  assess_valid-IsRestrained preset (ok tt) assessed h = h refl
  assess_valid-IsRestrained preset (err message) assessed h = (blocked_no_delegation, refl)
  assess_valid-IsRestrained preset panic assessed h = (blocked_no_delegation, refl)
  assess_valid-IsRestrained preset hang assessed h = (blocked_no_delegation, refl)

-- Whatever the policy and the capability, valid or not, the assessment of a simple policy grants no
-- authority and never asks for delegation alone.
pub assess_policy-IsRestrained :
    ⦃s : Sha256⦄ ⦃m : Encoder ActionCapability⦄ (p : SimplePolicy) (capability : ActionCapability)
    → IsRestrained (assess_policy p capability).0
unfolding assess_policy
assess_policy-IsRestrained p capability =
    assess_valid-IsRestrained p.preset (validate_policy p)
      (assess_capability_effects p.preset capability)
      (λ valid.
        assess_capability_effects-IsRestrained p.preset capability
          (validate_policy_released p valid))
