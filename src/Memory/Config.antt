-- ===== src/Memory/Config.antt =====
-- crates/sdkwork-discovery-storage-memory/src/config.rs: drafts, releases and effective values.
-- The hash of a value comes from another package and is the parameter `content_hash`.
pub mod Read
use sdkwork_discovery.Prelude.{
  ℕ, String, Bool, true, false, not, ◌&&◌, ◌||◌, Option, none, some, List, [], ◌∷◌, ◌++◌, max,
}
use sdkwork_discovery.Prelude.Lists.{retain, find}
use sdkwork_discovery.Prelude.Map.{get, insert}
use sdkwork_discovery.Prelude.Tests.{◌==◌, ltb, leb, nat_beq, if◌then◌else◌, text_eq}
use sdkwork_discovery.Contract.Error.{
  DiscoveryResult, ok, err, ◌>>=◌, ◌>>◌, ensure, ok_or, invalid_argument, invalid_config, not_found,
  already_published, Op,
}
use sdkwork_discovery.Contract.Config.{
  ConfigScope, namespace_scope, application_scope, service_scope, specificity, applies_to,
  IdempotencyContext, CreateConfigDraftCommand, ConfigDraft, PublishConfigCommand,
  RollbackConfigCommand, ConfigRelease, RetrieveEffectiveConfigQuery, EffectiveConfigValue,
  EffectiveConfig,
}
use sdkwork_discovery.Contract.Event.{
  DiscoveryEvent, DiscoveryEventKind, config_published, config_rolled_back,
}
use sdkwork_discovery.Memory.Store.{
  MemoryDiscoveryStore, IdempotencyKey, idempotency_key_eq, next_revision, next_id,
  validate_non_empty,
}
use sdkwork_discovery.Memory.Register.{push_event}

unfoldable pub validate_idempotency_context : Option IdempotencyContext → DiscoveryResult (Unit {0})
validate_idempotency_context none = ok tt
validate_idempotency_context (some c) = do
  validate_non_empty "operation_id" c.operation_id
  validate_non_empty "idempotency key" c.key
  validate_non_empty "request_hash" c.request_hash

unfoldable pub validate_config_scope : ConfigScope → DiscoveryResult (Unit {0})
validate_config_scope namespace_scope = ok tt
validate_config_scope (application_scope application) = validate_non_empty "application" application
validate_config_scope (service_scope application service_name) = do
  validate_non_empty "application" application
  validate_non_empty "service_name" service_name

unfoldable pub validate_config_draft_command : CreateConfigDraftCommand → DiscoveryResult (Unit {0})
validate_config_draft_command c = do
  validate_non_empty "namespace" c.namespace
  validate_non_empty "environment" c.environment
  validate_non_empty "group" c.group
  validate_non_empty "key" c.key
  validate_non_empty "created_by" c.created_by
  validate_config_scope c.scope
  validate_idempotency_context c.idempotency

unfoldable pub validate_publish_config_command : PublishConfigCommand → DiscoveryResult (Unit {0})
validate_publish_config_command c = do
  validate_non_empty "draft_id" c.draft_id
  validate_non_empty "published_by" c.published_by
  validate_idempotency_context c.idempotency

unfoldable pub validate_rollback_config_command : RollbackConfigCommand → DiscoveryResult (Unit {0})
validate_rollback_config_command c = do
  validate_non_empty "source_release_id" c.source_release_id
  validate_non_empty "rolled_back_by" c.rolled_back_by
  validate_idempotency_context c.idempotency

unfoldable pub validate_idempotency_hash : String → String → DiscoveryResult (Unit {0})
validate_idempotency_hash stored provided =
    ensure (stored == provided)
      (invalid_argument "idempotency request hash does not match original request")

abbrev pub idempotency_key : IdempotencyContext → IdempotencyKey
idempotency_key c = record { operation_id = c.operation_id; key = c.key }

-- The resource that an earlier request with the same key made, if there was one.
unfoldable pub replay_target :
    Option IdempotencyContext → MemoryDiscoveryStore → DiscoveryResult (Option String)
unfolding validate_idempotency_hash
replay_target none s = ok none
replay_target (some c) s = elim (get (idempotency_key c) s.idempotency) [
  | none ↦ ok none
  | some r ↦ do validate_idempotency_hash r.request_hash c.request_hash; ok (some r.resource_id)
]

abbrev pub has_release_id : String → ConfigRelease → Bool
has_release_id release_id r = r.release_id == release_id

abbrev found_draft : Option String → MemoryDiscoveryStore → DiscoveryResult (Option ConfigDraft)
found_draft none s = ok none
found_draft (some resource_id) s = do
  draft ← ok_or (get resource_id s.drafts) (invalid_config "idempotency draft target is missing")
  ok (some draft)

unfoldable pub replay_config_draft :
    Option IdempotencyContext → MemoryDiscoveryStore → DiscoveryResult (Option ConfigDraft)
unfolding replay_target
replay_config_draft idempotency s = do target ← replay_target idempotency s; found_draft target s

abbrev found_release : Option String → MemoryDiscoveryStore → DiscoveryResult (Option ConfigRelease)
found_release none s = ok none
found_release (some resource_id) s = do
  release ←
      ok_or (find (has_release_id resource_id) s.releases)
        (invalid_config "idempotency release target is missing")
  ok (some release)

unfoldable pub replay_config_release :
    Option IdempotencyContext → MemoryDiscoveryStore → DiscoveryResult (Option ConfigRelease)
unfolding replay_target
replay_config_release idempotency s = do
  target ← replay_target idempotency s
  found_release target s

unfoldable pub record_idempotency :
    Option IdempotencyContext → String → MemoryDiscoveryStore → MemoryDiscoveryStore
record_idempotency none resource_id s = s
record_idempotency (some c) resource_id s = record s {
  idempotency =
      insert (idempotency_key c)
        (record { request_hash = c.request_hash; resource_id = resource_id }) s.idempotency;
}

abbrev new_draft : (String → String) → CreateConfigDraftCommand → String → ConfigDraft
new_draft content_hash c draft_id = record {
  draft_id = draft_id;
  namespace = c.namespace;
  environment = c.environment;
  group = c.group;
  key = c.key;
  format = c.format;
  value = c.value;
  scope = c.scope;
  created_by = c.created_by;
  content_hash = content_hash c.value;
  published = false;
}

unfoldable pub store_draft :
    (String → String)
    → CreateConfigDraftCommand
    → MemoryDiscoveryStore
    → ConfigDraft × MemoryDiscoveryStore
store_draft content_hash c s =
    let (draft_id, s1) = next_id "draft" s in
    let draft = new_draft content_hash c draft_id in
    (
      draft,
      record_idempotency c.idempotency draft_id
          (record s1 { drafts = insert draft_id draft s1.drafts }),
    )

unfoldable pub create_config_draft :
    (String → String) → CreateConfigDraftCommand → Op MemoryDiscoveryStore ConfigDraft
create_config_draft content_hash c s =
    elim (validate_config_draft_command c >> replay_config_draft c.idempotency s) [
      | err e ↦ (err e, s)
      | ok (some draft) ↦ (ok draft, s)
      | ok none ↦ let (draft, s1) = store_draft content_hash c s in (ok draft, s1)
    ]

unfoldable pub config_application_from_scope : ConfigScope → Option String
config_application_from_scope namespace_scope = none
config_application_from_scope (application_scope application) = some application
config_application_from_scope (service_scope application service_name) = some application

abbrev service_from_scope : ConfigScope → Option String
service_from_scope namespace_scope = none
service_from_scope (application_scope application) = none
service_from_scope (service_scope application service_name) = some service_name

abbrev pub release_event : DiscoveryEventKind → ConfigRelease → DiscoveryEvent
release_event kind r = record {
  revision = r.revision;
  namespace = r.namespace;
  environment = r.environment;
  kind = kind;
  resource_id = r.release_id;
  service_name = service_from_scope r.scope;
  config_group = some r.group;
  config_key = some r.key;
  config_application = config_application_from_scope r.scope;
}

-- A release goes to the end of the list, with its event and its idempotency record.
unfoldable pub push_release :
    DiscoveryEventKind
    → Option IdempotencyContext
    → ConfigRelease
    → MemoryDiscoveryStore
    → MemoryDiscoveryStore
push_release kind idempotency r s =
    record_idempotency idempotency r.release_id
      (push_event (release_event kind r) (record s { releases = s.releases ++ r ∷ [] }))

abbrev pub release_of_draft : ConfigDraft → String → String → ℕ → ℕ → ConfigRelease
release_of_draft d release_id published_by now_ms revision = record {
  release_id = release_id;
  draft_id = d.draft_id;
  namespace = d.namespace;
  environment = d.environment;
  group = d.group;
  key = d.key;
  format = d.format;
  value = d.value;
  scope = d.scope;
  content_hash = d.content_hash;
  published_by = published_by;
  published_at_ms = now_ms;
  revision = revision;
}

-- `publish_config` for an unpublished draft.
unfoldable pub publish_draft :
    PublishConfigCommand → ConfigDraft → MemoryDiscoveryStore → ConfigRelease × MemoryDiscoveryStore
unfolding push_release
publish_draft c d s =
    let (revision, s1) = next_revision s in
    let (release_id, s2) = next_id "release" s1 in
    let r = release_of_draft d release_id c.published_by c.now_ms revision in
    let s3 = record s2 { drafts = insert c.draft_id (record d { published = true }) s2.drafts } in
    (r, push_release config_published c.idempotency r s3)

unfoldable pub unpublished_draft : String → MemoryDiscoveryStore → DiscoveryResult ConfigDraft
unpublished_draft draft_id s = do
  draft ← ok_or (get draft_id s.drafts) (not_found "config draft not found")
  ensure (not draft.published) (already_published "config draft is already published")
  ok draft

unfoldable pub publish_config : PublishConfigCommand → Op MemoryDiscoveryStore ConfigRelease
publish_config c s =
    elim (validate_publish_config_command c >> replay_config_release c.idempotency s) [
      | err e ↦ (err e, s)
      | ok (some release) ↦ (ok release, s)
      | ok none ↦ elim (unpublished_draft c.draft_id s) [
        | err e ↦ (err e, s)
        | ok d ↦ let (r, s1) = publish_draft c d s in (ok r, s1)
      ]
    ]

-- `rollback_config` for a found release: a copy of it under a new id and revision.
unfoldable pub republish :
    RollbackConfigCommand
    → ConfigRelease
    → MemoryDiscoveryStore
    → ConfigRelease × MemoryDiscoveryStore
unfolding push_release
republish c source s =
    let (revision, s1) = next_revision s in
    let (release_id, s2) = next_id "release" s1 in
    let r = record source {
      release_id = release_id;
      published_by = c.rolled_back_by;
      published_at_ms = c.now_ms;
      revision = revision;
    } in
    (r, push_release config_rolled_back c.idempotency r s2)

unfoldable pub rollback_config : RollbackConfigCommand → Op MemoryDiscoveryStore ConfigRelease
rollback_config c s =
    elim (validate_rollback_config_command c >> replay_config_release c.idempotency s) [
      | err e ↦ (err e, s)
      | ok (some release) ↦ (ok release, s)
      | ok none ↦ elim (find (has_release_id c.source_release_id) s.releases) [
        | none ↦ (err (not_found "config release not found"), s)
        | some source ↦ let (r, s1) = republish c source s in (ok r, s1)
      ]
    ]
