-- ===== src/Manifest/Entries.antt =====
-- What the loops of a manifest's validation accept.
use provider_sdk.Manifest.{
  RendererArtifact, RuntimeArtifact, check_actions, check_artifacts, check_environment,
  check_runtime_artifacts, joined, runtime_reference_valid,
}
use provider_sdk.Base.{
  >>-eq-ok, All, Bool, Fresh, Fresh-cons_iff, List, String, [], arith, contains,
  contains-eq-false_iff, false, is_empty, list_eq, nat_eq, not, pass, refl, reject, reject-eq-ok,
  true, ◌||◌, ◌∷◌, ◌≡◌, ◌≢◌,
}
use provider_sdk.Capability.{ActionCapability, validate_capability}
use provider_sdk.Selection.{selector_eq}
use provider_sdk.Text.{Text}
use provider_sdk.Text.Patterns.{
  digest_pattern, environment_pattern, executable_pattern, identity_pattern,
}

-- Of the loops that keep a map of the keys met.
Fresh-step :
    (seen : List Text) (x : Text) (xs : List Text) (message : String)
    → reject (contains seen x) message ≡ pass
    → Fresh (x ∷ seen) xs
    → Fresh seen (x ∷ xs)
Fresh-step seen x xs message new rest =
    (Fresh-cons_iff seen x xs).1
      ((contains-eq-false_iff seen x).0 (reject-eq-ok (contains seen x) message new), rest)

abbrev pub platforms : List RendererArtifact → List Text
platforms [] = []
platforms (a ∷ artifacts) = joined a.os a.arch ∷ platforms artifacts

abbrev pub references : List RuntimeArtifact → List Text
references [] = []
references (a ∷ artifacts) = joined a.kind a.reference ∷ references artifacts

abbrev pub action_refs : List ActionCapability → List Text
action_refs [] = []
action_refs (a ∷ actions) = a.ref ∷ action_refs actions

pub check_actions-pass :
    (seen : List Text) (actions : List ActionCapability)
    → check_actions seen actions ≡ pass
    → All (λ a. validate_capability a ≡ pass) actions × Fresh seen (action_refs actions)
unfolding check_actions
check_actions-pass seen [] h = (tt, (tt, tt))
check_actions-pass seen (a ∷ actions) h =
    let (valid, h₁) = >>-eq-ok (validate_capability a) _ h in
    let (new, h₂) = >>-eq-ok (reject _ "action capability is duplicated") _ h₁ in
    let (others, rest) = check_actions-pass (a.ref ∷ seen) actions h₂ in
    (
      (valid, others),
      Fresh-step seen a.ref (action_refs actions) "action capability is duplicated" new rest,
    )

last_good :
    (a b c : Bool) (message : String) → reject (not a || not b || not c) message ≡ pass → c ≡ true
last_good a b c message h = ground arith

pub check_artifacts-pass :
    (seen : List Text) (artifacts : List RendererArtifact)
    → check_artifacts seen artifacts ≡ pass
    → All (λ a. digest_pattern a.digest ≡ true) artifacts × Fresh seen (platforms artifacts)
unfolding check_artifacts
check_artifacts-pass seen [] h = (tt, (tt, tt))
check_artifacts-pass seen (a ∷ artifacts) h =
    let (good, h₁) = >>-eq-ok (reject _ "renderer artifact contract is invalid") _ h in
    let (new, h₂) = >>-eq-ok (reject _ "renderer artifact platform is duplicated") _ h₁ in
    let (others, rest) = check_artifacts-pass (joined a.os a.arch ∷ seen) artifacts h₂ in
    (
      (
        last_good (executable_pattern a.os) (executable_pattern a.arch) (digest_pattern a.digest)
            "renderer artifact contract is invalid" good,
        others,
      ),
      Fresh-step seen (joined a.os a.arch) (platforms artifacts)
          "renderer artifact platform is duplicated" new rest,
    )

pub check_runtime_artifacts-pass :
    (seen : List Text) (artifacts : List RuntimeArtifact)
    → check_runtime_artifacts seen artifacts ≡ pass
    → All (λ a. digest_pattern a.digest ≡ true) artifacts × Fresh seen (references artifacts)
unfolding check_runtime_artifacts
check_runtime_artifacts-pass seen [] h = (tt, (tt, tt))
check_runtime_artifacts-pass seen (a ∷ artifacts) h =
    let (good, h₁) = >>-eq-ok (reject _ "outbound runtime artifact contract is invalid") _ h in
    let (new, h₂) = >>-eq-ok (reject _ "outbound runtime artifact is duplicated") _ h₁ in
    let (others, rest) =
      check_runtime_artifacts-pass (joined a.kind a.reference ∷ seen) artifacts h₂ in
    (
      (
        last_good (identity_pattern a.kind) (runtime_reference_valid a.reference)
            (digest_pattern a.digest) "outbound runtime artifact contract is invalid" good,
        others,
      ),
      Fresh-step seen (joined a.kind a.reference) (references artifacts)
          "outbound runtime artifact is duplicated" new rest,
    )

pub check_environment-pass :
    (seen names : List Text)
    → check_environment seen names ≡ pass
    → All (λ n. environment_pattern n ≡ true) names × Fresh seen names
unfolding check_environment
check_environment-pass seen [] h = (tt, (tt, tt))
check_environment-pass seen (n ∷ names) h =
    let (good, h₁) = >>-eq-ok (reject _ "renderer sensitive environment contract is invalid") _ h in
    let (new, h₂) =
      >>-eq-ok (reject _ "renderer sensitive environment contract is duplicated") _ h₁ in
    let (others, rest) = check_environment-pass (n ∷ seen) names h₂ in
    (
      (
        only_good (environment_pattern n) "renderer sensitive environment contract is invalid" good,
        others,
      ),
      Fresh-step seen n names "renderer sensitive environment contract is duplicated" new rest,
    )
  where
    only_good : (a : Bool) (message : String) → reject (not a) message ≡ pass → a ≡ true
    only_good a message h = ground arith

pub not_false : (a : Bool) (message : String) → reject (not a) message ≡ pass → a ≡ true
not_false a message h = ground arith

pub is_empty-eq-false : {A : Type 0} (xs : List A) → is_empty xs ≡ false → xs ≢ []
is_empty-eq-false [] h e = cc h
is_empty-eq-false (x ∷ xs) h e = cc e

pub is_empty-eq-true : {A : Type 0} (xs : List A) → is_empty xs ≡ true → xs ≡ []
is_empty-eq-true [] h = refl
is_empty-eq-true (x ∷ xs) h = absurd (cc h)
