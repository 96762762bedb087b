-- ===== src/Lifetime/Deadline.antt =====
-- What the lifetime checks promise of an issued credential.
use provider_sdk.Base.{
  >>-eq-ok, Option, arith, eq_iff, false, is_present, list_eq, nat_eq, none, pass, refl, some, true,
  ℕ, ◌*◌, ◌+◌, ◌<◌, ◌==◌, ◌≡◌, ◌≤◌,
}
use provider_sdk.Lifetime.{
  deadline_stands, outlives, validate_issue_lifetime, validate_issued_lifetime,
}
use provider_sdk.Manifest.{Credential, credential_lifetime_protocol, validate_lifetime_protocol}
use provider_sdk.Requests.{CredentialLifetime, IssueRequest, Material}
use provider_sdk.Time.{second, seconds}
use provider_sdk.Base.Int.{between}
use provider_sdk.Selection.{selector_eq}
use provider_sdk.Text.{bytes}

abbrev WithinTask : Option CredentialLifetime → ℕ → Type 0
WithinTask none expires_at = Unit
WithinTask (some l) expires_at = expires_at ≤ l.task_expires_at

-- A live credential that ends within its release's maximum, at most a day after the request, and
-- no later than its task.
pub record IsBounded (request : IssueRequest) (credential : Credential) (material : Material)
    (now : ℕ) : Type 0 where
  pub live : now < material.expires_at
  pub within_release : material.expires_at ≤ request.now + seconds credential.maximum_ttl_seconds
  pub within_day : material.expires_at ≤ request.now + 86400 * second
  pub within_task : WithinTask request.lifetime material.expires_at
  pub declared :
      is_present request.lifetime ≡ (credential.lifetime_protocol == credential_lifetime_protocol)

module _ (request : IssueRequest) (credential : Credential) (material : Material) (now : ℕ) where
  issue_part :
      validate_issued_lifetime request credential material now ≡ pass
      → validate_issue_lifetime request credential now ≡ pass
  unfolding validate_issued_lifetime
  issue_part h = (>>-eq-ok (validate_issue_lifetime request credential now) _ h).0

  -- What the last two tests of an accepted credential say.
  bounds_part :
      validate_issued_lifetime request credential material now ≡ pass
      → (now < material.expires_at)
        × (material.expires_at ≤ request.now + seconds credential.maximum_ttl_seconds)
        × (between 1 86400 credential.maximum_ttl_seconds ≡ true)
        × (outlives request.lifetime material.expires_at ≡ false)
  unfolding validate_issued_lifetime
  bounds_part h =
      let rest = (>>-eq-ok (validate_issue_lifetime request credential now) _ h).1 in ground arith

  within_day_lem :
      between 1 86400 credential.maximum_ttl_seconds ≡ true
      → seconds credential.maximum_ttl_seconds ≤ 86400 * second
  within_day_lem h = ground arith

  not_outlives :
      (l : Option CredentialLifetime)
      → outlives l material.expires_at ≡ false
      → WithinTask l material.expires_at
  not_outlives none h = tt
  not_outlives (some l) h = ground arith

  stands-is_present :
      (l : Option CredentialLifetime) → deadline_stands request l now ≡ true → is_present l ≡ true
  stands-is_present none h = h
  stands-is_present (some l) h = refl

  declared_lem :
      validate_issue_lifetime request credential now ≡ pass
      → is_present request.lifetime ≡ (credential.lifetime_protocol == credential_lifetime_protocol)
  unfolding validate_issue_lifetime validate_lifetime_protocol
  declared_lem h =
      let present = stands-is_present request.lifetime in
      ground (
        arith,
        eq_iff credential.lifetime_protocol (bytes ""),
        eq_iff credential.lifetime_protocol credential_lifetime_protocol,
      )

-- A credential that ValidateIssuedLifetime accepts is live, ends within its release's maximum and
-- within a day after the request, and no later than the task; and the request declares a task
-- exactly when the credential's release supports task deadlines.
pub validate_issued_lifetime-IsBounded :
    (request : IssueRequest) (credential : Credential) (material : Material) (now : ℕ)
    → validate_issued_lifetime request credential material now ≡ pass
    → IsBounded request credential material now
validate_issued_lifetime-IsBounded request credential material now h =
    let issue = issue_part request credential material now h in
    let (live, within_release, ttl, shut) = bounds_part request credential material now h in
    let day = within_day_lem request credential material now ttl in
    record {
      live = live;
      within_release = within_release;
      within_day = omega arith;
      within_task = not_outlives request credential material now request.lifetime shut;
      declared = declared_lem request credential material now issue;
    }
