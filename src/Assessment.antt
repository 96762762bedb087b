-- ===== src/Assessment.antt =====
-- assessment.go and policy_binding.go: the prerequisites that a policy adds to a capability.
pub mod Ladder
pub mod Restraint
use provider_sdk.Base.{
  Bool, Check, List, Option, Result, String, [], contains, err, false, hang, if◌then◌else◌, list_eq,
  nat_eq, none, not, ok, panic, pass, reject, some, true, ◌!=◌, ◌&&◌, ◌==◌, ◌>>=◌, ◌>>◌, ◌||◌, ◌∷◌,
}
use provider_sdk.Capability.{
  ActionCapability, ActionSemantics, action_capability_digest, consequential_effects,
  effect_unknown, effect_write,
}
use provider_sdk.Platform.{Encoder, Sha256}
use provider_sdk.Selection.{selector_eq}
use provider_sdk.Text.{Text, bytes}

abbrev pub action_assessment_protocol : Text
action_assessment_protocol = bytes "misconfig.action-assessment/v1"

abbrev pub policy_read_only : Text
policy_read_only = bytes "read_only"

abbrev pub policy_review_changes : Text
policy_review_changes = bytes "review_changes"

abbrev pub policy_delegated_changes : Text
policy_delegated_changes = bytes "delegated_changes"

abbrev pub policy_presets : List Text
policy_presets = policy_read_only ∷ policy_review_changes ∷ policy_delegated_changes ∷ []

-- `AssessmentRequirement`
pub data Requirement : Type 0 where
  existing_checks review delegation resolution blocked : Requirement

pub record EffectAssessment : Type 0 where
  pub protocol : Text
  pub policy : Text
  pub capability_digest : Text
  pub requirement : Requirement
  pub reason : String
  pub authority_granted : Bool

-- The three flags of `AssessCapabilityEffects`.
pub record Flags : Type 0 where
  pub unknown : Bool
  pub changed : Bool
  pub consequential : Bool

-- One round of the loop over the effects.
unfoldable pub note_effect : Text → Flags → Flags
note_effect effect f =
    if effect == effect_unknown
    then record f { unknown = true }
    else if effect == effect_write
    then record f { changed = true }
    else if contains consequential_effects effect
    then record f { changed = true; consequential = true }
    else f

unfoldable pub note_effects : List Text → Flags → Flags
unfolding note_effect
note_effects [] f = f
note_effects (effect ∷ effects) f = note_effects effects (note_effect effect f)

unfoldable pub effect_flags : Option ActionSemantics → Flags
unfolding note_effects
effect_flags none = record { unknown = true; changed = false; consequential = false }
effect_flags (some s) =
    note_effects s.effects (record { unknown = false; changed = false; consequential = false })

-- The ladder of early returns.
unfoldable pub conclude : Text → Flags → Requirement × String
conclude preset f =
    if preset == policy_read_only && (f.unknown || f.changed)
    then (blocked, "Read-only policy does not permit changes or unclassified effects.")
    else if f.unknown
    then (
      resolution,
      "Effects are not known. Resolve them through a supported capability before execution.",
    )
    else if not f.changed
    then (existing_checks, "Declared read; existing access and data restrictions still apply.")
    else if preset == policy_review_changes || f.consequential
    then (review, "Review the exact action and its impact within existing access.")
    else (delegation, "Existing exact-action delegation and all execution checks are required.")

abbrev pub initial_assessment : Text → EffectAssessment
initial_assessment preset = record {
  protocol = action_assessment_protocol;
  policy = preset;
  capability_digest = [];
  requirement = blocked;
  reason = "Invalid policy or capability.";
  authority_granted = false;
}

abbrev pub concluded : Text → Text → Requirement × String → EffectAssessment
concluded preset digest (requirement, reason) = record {
  protocol = action_assessment_protocol;
  policy = preset;
  capability_digest = digest;
  requirement = requirement;
  reason = reason;
  authority_granted = false;
}

-- The assessment, given the digest or the error of `ActionCapabilityDigest`.
abbrev pub assess_digest : Text → Option ActionSemantics → Result Text → EffectAssessment × Check
assess_digest preset semantics (ok digest) =
    (concluded preset digest (conclude preset (effect_flags semantics)), pass)
assess_digest preset semantics (err message) = (initial_assessment preset, err message)
assess_digest preset semantics panic = (initial_assessment preset, panic)
assess_digest preset semantics hang = (initial_assessment preset, hang)

-- `AssessCapabilityEffects` returns an assessment beside its error.
unfoldable pub assess_capability_effects :
    ⦃h : Sha256⦄ ⦃m : Encoder ActionCapability⦄ → Text → ActionCapability → EffectAssessment × Check
unfolding effect_flags conclude
assess_capability_effects preset capability =
    if contains policy_presets preset
    then assess_digest preset capability.semantics (action_capability_digest capability)
    else (initial_assessment preset, err "policy preset is unsupported")

pub record SimplePolicy : Type 0 where
  pub protocol : Text
  pub preset : Text

abbrev pub simple_policy_protocol : Text
simple_policy_protocol = bytes "misconfig.simple-policy/v1"

-- `SimplePolicy.Validate`
unfoldable pub validate_policy : SimplePolicy → Check
validate_policy p = do
  reject (p.protocol != simple_policy_protocol) "simple policy protocol is incompatible"
  reject (not (p.preset == policy_read_only || p.preset == policy_review_changes))
      "simple policy preset is not released"

abbrev pub blocked_because : Text → String → EffectAssessment
blocked_because preset reason = record (initial_assessment preset) { reason = reason }

abbrev pub assess_valid : Text → Check → EffectAssessment × Check → EffectAssessment × Check
assess_valid preset (ok _) assessed = assessed
assess_valid preset (err message) assessed = (blocked_because preset message, err message)
assess_valid preset panic assessed = (initial_assessment preset, panic)
assess_valid preset hang assessed = (initial_assessment preset, hang)

-- `SimplePolicy.Assess`
unfoldable pub assess_policy :
    ⦃h : Sha256⦄ ⦃m : Encoder ActionCapability⦄
    → SimplePolicy
    → ActionCapability
    → EffectAssessment × Check
unfolding validate_policy assess_capability_effects
assess_policy p capability =
    assess_valid p.preset (validate_policy p) (assess_capability_effects p.preset capability)
