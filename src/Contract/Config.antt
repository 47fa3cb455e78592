-- ===== src/Contract/Config.antt =====
-- crates/sdkwork-discovery-contract/src/registry.rs: drafts, releases and effective values of the
-- configuration.
use sdkwork_discovery.Prelude.{ℕ, String, Bool, true, Option, ◌&&◌}
use sdkwork_discovery.Prelude.Map.{Map}
use sdkwork_discovery.Prelude.Tests.{◌==◌, text_eq}

pub data ConfigFormat : Type 0 where
  text json toml : ConfigFormat

pub data ConfigScope : Type 0 where
  namespace_scope : ConfigScope
  application_scope : String → ConfigScope
  service_scope : String → String → ConfigScope

unfoldable pub specificity : ConfigScope → ℕ
specificity namespace_scope = 0
specificity (application_scope application) = 1
specificity (service_scope application service_name) = 2

unfoldable pub applies_to : ConfigScope → String → String → Bool
applies_to namespace_scope application service_name = true
applies_to (application_scope scope_application) application service_name =
    scope_application == application
applies_to (service_scope scope_application scope_service) application service_name =
    scope_application == application && scope_service == service_name

pub record IdempotencyContext : Type 0 where
  pub operation_id : String
  pub key : String
  pub request_hash : String

pub record CreateConfigDraftCommand : Type 0 where
  pub namespace : String
  pub environment : String
  pub group : String
  pub key : String
  pub format : ConfigFormat
  pub value : String
  pub scope : ConfigScope
  pub created_by : String
  pub idempotency : Option IdempotencyContext

pub record ConfigDraft : Type 0 where
  pub draft_id : String
  pub namespace : String
  pub environment : String
  pub group : String
  pub key : String
  pub format : ConfigFormat
  pub value : String
  pub scope : ConfigScope
  pub created_by : String
  pub content_hash : String
  pub published : Bool

pub record PublishConfigCommand : Type 0 where
  pub draft_id : String
  pub published_by : String
  pub now_ms : ℕ
  pub idempotency : Option IdempotencyContext

pub record RollbackConfigCommand : Type 0 where
  pub source_release_id : String
  pub rolled_back_by : String
  pub now_ms : ℕ
  pub idempotency : Option IdempotencyContext

pub record ConfigRelease : Type 0 where
  pub release_id : String
  pub draft_id : String
  pub namespace : String
  pub environment : String
  pub group : String
  pub key : String
  pub format : ConfigFormat
  pub value : String
  pub scope : ConfigScope
  pub content_hash : String
  pub published_by : String
  pub published_at_ms : ℕ
  pub revision : ℕ

pub record RetrieveEffectiveConfigQuery : Type 0 where
  pub namespace : String
  pub environment : String
  pub application : String
  pub service_name : String
  pub group : String

pub record EffectiveConfigValue : Type 0 where
  pub value : String
  pub format : ConfigFormat
  pub source_release_id : String
  pub source_specificity : ℕ
  pub source_revision : ℕ

pub record EffectiveConfig : Type 0 where
  pub revision : ℕ
  pub values : Map String EffectiveConfigValue
