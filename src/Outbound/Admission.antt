-- ===== src/Outbound/Admission.antt =====
-- Which runtimes a signed release admits.
use provider_sdk.Outbound.{
  RuntimeRegistration, find_artifact, outbound_runtime_protocol, validate_registration,
}
use provider_sdk.Base.{
  Any, List, [], arith, eq_iff, false, list_eq, nat_eq, pass, true, ◌↔◌, ◌∷◌, ◌≡◌,
}
use provider_sdk.Manifest.{Manifest, RuntimeArtifact, outbound_pull, transport_mode}
use provider_sdk.Selection.{selector_eq}
use provider_sdk.Text.{Text, is_blank}
use provider_sdk.Text.Patterns.{digest_pattern}

-- The registration names this release, is for a release that is pulled from, and runs one of its
-- artifacts.
pub record IsAdmittedRuntime (r : RuntimeRegistration) (manifest : Manifest) (digest : Text)
    : Type 0 where
  pub speaks : r.protocol ≡ outbound_runtime_protocol
  pub pulls : transport_mode manifest.broker ≡ outbound_pull
  pub of_provider : r.provider ≡ manifest.provider
  pub of_release : r.release ≡ manifest.release
  pub of_manifest : r.manifest_digest ≡ digest
  pub connected : is_blank r.connection_id ≡ false
  pub identified : is_blank r.runtime_id ≡ false
  pub digested : digest_pattern r.runtime_artifact_digest ≡ true
  pub runs : Any (λ a. a.digest ≡ r.runtime_artifact_digest) manifest.broker.runtime_artifacts

find_artifact_iff :
    (digest : Text) (artifacts : List RuntimeArtifact)
    → (find_artifact digest artifacts ≡ pass) ↔ Any (λ a. a.digest ≡ digest) artifacts
unfolding find_artifact
find_artifact_iff digest [] = ground arith
find_artifact_iff digest (a ∷ artifacts) =
    ground (arith, eq_iff a.digest digest, find_artifact_iff digest artifacts)

-- A registration is accepted exactly if it speaks the protocol, names the provider, the release and
-- the digest of a manifest whose broker is pulled from, is identified, and runs an artifact that
-- this manifest lists.
pub validate_registration_iff :
    (r : RuntimeRegistration) (manifest : Manifest) (digest : Text)
    → (validate_registration r manifest digest ≡ pass) ↔ IsAdmittedRuntime r manifest digest
unfolding validate_registration
validate_registration_iff r manifest digest = ground (
  arith,
  eq_iff r.protocol outbound_runtime_protocol,
  eq_iff (transport_mode manifest.broker) outbound_pull,
  eq_iff r.provider manifest.provider,
  eq_iff r.release manifest.release,
  eq_iff r.manifest_digest digest,
  find_artifact_iff r.runtime_artifact_digest manifest.broker.runtime_artifacts,
)
