-- ===== src/Requests.antt =====
-- The requests and the material of protocol.go.
pub mod Rendering
use provider_sdk.Base.{Option, ℕ}
use provider_sdk.Authorization.{Authorization}
use provider_sdk.Text.{Text}

pub record Subject : Type 0 where
  pub tenant_id : Text
  pub actor_id : Text
  pub device_id : Text
  pub session_id : Text
  pub profile_id : Text
  pub account_ref : Text
  pub environment : Text

-- credential_lifetime.go
pub record CredentialLifetime : Type 0 where
  pub protocol : Text
  pub task_expires_at : ℕ

pub record PrepareRequest : Type 0 where
  pub request_id : Text
  pub tenant_id : Text
  pub connection_id : Text
  pub provider : Text
  pub release : Text
  pub account_ref : Text
  pub name : Text
  pub input : Text
  pub now : ℕ

pub record Connection : Type 0 where
  pub configuration : Text
  pub onboarding : Text

pub record VerifyRequest : Type 0 where
  pub request_id : Text
  pub tenant_id : Text
  pub connection_id : Text
  pub provider : Text
  pub release : Text
  pub account_ref : Text
  pub configuration : Text
  pub now : ℕ

pub record Verification : Type 0 where
  pub target_identity : Text
  pub verified_at : ℕ

pub record IssueRequest : Type 0 where
  pub request_id : Text
  pub connection_id : Text
  pub provider : Text
  pub release : Text
  pub account_ref : Text
  pub configuration : Text
  pub subject : Subject
  pub authorization : Authorization
  pub authorization_digest : Text
  pub now : ℕ
  pub lifetime : Option CredentialLifetime

pub record Material : Type 0 where
  pub kind : Text
  pub payload : Text
  pub expires_at : ℕ
  pub target_identity : Text
  pub revocation_semantics : Text
  pub authorization_digest : Text
