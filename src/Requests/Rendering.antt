-- ===== src/Requests/Rendering.antt =====
-- What the runtime and a renderer exchange: the records of protocol.go.
use provider_sdk.Base.{List, Option, ℕ}
use provider_sdk.Text.{Text}

pub record ConfigureRequest : Type 0 where
  pub protocol : Text
  pub release : Text
  pub manifest_digest : Text
  pub provider : Text
  pub credential_kind : Text
  pub session_id : Text
  pub account_ref : Text
  pub environments : List Text
  pub resource_prefixes : List Text
  pub resource_ids : Option (List Text)
  pub active_path : Text
  pub runtime_executable : Text
  pub renderer_executable : Text
  pub runtime_directory : Text
  pub lease_command : List Text

pub record RenderRequest : Type 0 where
  pub protocol : Text
  pub release : Text
  pub manifest_digest : Text
  pub session_id : Text
  pub active_path : Text
  pub runtime_path : Text
  pub material : Text

pub record RenderedMaterial : Type 0 where
  pub stdout : Text

-- The mode is a number of 32 bits.
pub record RenderedFile : Type 0 where
  pub name : Text
  pub content : Text
  pub mode : ℕ

pub record RenderedEnvironment : Type 0 where
  pub remove : List Text
  pub set : List (Text × Text)
  pub files : List RenderedFile
