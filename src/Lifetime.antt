-- ===== src/Lifetime.antt =====
-- credential_lifetime.go: the deadline of a task and the lifetime of what is issued for it.
pub mod Deadline
use provider_sdk.Base.{
  Bool, Check, Option, false, if◌then◌else◌, is_empty, is_present, list_eq, nat_eq, none, not,
  reject, some, ℕ, ◌!=◌, ◌*◌, ◌+◌, ◌>>=◌, ◌>>◌, ◌||◌,
}
use provider_sdk.Manifest.{Credential, credential_lifetime_protocol, validate_lifetime_protocol}
use provider_sdk.Requests.{CredentialLifetime, IssueRequest, Material}
use provider_sdk.Selection.{selector_eq}
use provider_sdk.Time.{is_after, is_zero_time, minute, second, seconds}
use provider_sdk.Base.Int.{between}

-- The deadline is declared, the request is neither ahead of the clock nor older than a minute, and
-- the deadline lies after both.
abbrev pub deadline_stands : IssueRequest → Option CredentialLifetime → ℕ → Bool
deadline_stands request none now = false
deadline_stands request (some l) now = not (
    l.protocol != credential_lifetime_protocol
    || is_zero_time now
    || is_zero_time request.now
    || is_after request.now (now + 30 * second)
    || not (is_after (request.now + minute) now)
    || not (is_after l.task_expires_at now)
    || not (is_after l.task_expires_at request.now))

-- `ValidateIssueLifetime`
unfoldable pub validate_issue_lifetime : IssueRequest → Credential → ℕ → Check
unfolding validate_lifetime_protocol
validate_issue_lifetime request credential now = do
  validate_lifetime_protocol credential.lifetime_protocol
  if is_empty credential.lifetime_protocol
      then reject (is_present request.lifetime) "issuer does not support a task deadline"
      else reject (not (deadline_stands request request.lifetime now))
          "credential task deadline is missing, invalid or expired"

-- `request.Lifetime != nil && material.ExpiresAt.After(request.Lifetime.TaskExpiresAt)`
abbrev pub outlives : Option CredentialLifetime → ℕ → Bool
outlives none expires_at = false
outlives (some l) expires_at = is_after expires_at l.task_expires_at

-- `ValidateIssuedLifetime`
unfoldable pub validate_issued_lifetime : IssueRequest → Credential → Material → ℕ → Check
unfolding validate_issue_lifetime
validate_issued_lifetime request credential material now = do
  validate_issue_lifetime request credential now
  reject
      (is_zero_time request.now
        || is_zero_time now
        || not (between 1 86400 credential.maximum_ttl_seconds)
        || not (is_after material.expires_at now)
        || is_after material.expires_at (request.now + seconds credential.maximum_ttl_seconds))
      "issued credential lifetime exceeds its release or is no longer live"
  reject (outlives request.lifetime material.expires_at)
      "issued native credential outlives its task"
