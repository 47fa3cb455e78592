-- ===== src/Tests/Config.antt =====
-- Concrete inputs for the theorems on the log and on the configuration.
use sdkwork_discovery.Prelude.{
  ℕ, ◌+◌, ◌≤◌, ◌<◌, ◌≡◌, refl, String, true, false, none, some, List, [], ◌∷◌, arith,
}
use sdkwork_discovery.Prelude.Lists.{retain, take, drop, length}
use sdkwork_discovery.Prelude.Map.{get}
use sdkwork_discovery.Prelude.Tests.{text_eq}
use sdkwork_discovery.Contract.Error.{ok}
use sdkwork_discovery.Contract.Event.{DiscoveryEvent, WatchEventsQuery, matches_event}
use sdkwork_discovery.Contract.Config.{
  text, namespace_scope, application_scope, IdempotencyContext, ConfigDraft, ConfigRelease,
  PublishConfigCommand, RetrieveEffectiveConfigQuery, EffectiveConfig,
}
use sdkwork_discovery.Memory.Store.{MemoryDiscoveryStore, new}
use sdkwork_discovery.Memory.Config.{publish_config, release_of_draft}
use sdkwork_discovery.Memory.Config.Read.{retrieve_effective_config, is_in_scope, effective_value}
use sdkwork_discovery.Memory.Watch.{watch_events, gc_watch_events}
use sdkwork_discovery.Memory.Call.{registers, run}
use sdkwork_discovery.Memory.Log.{IsOrdered}
use sdkwork_discovery.Memory.Log.Steps.{run-IsOrdered}
use sdkwork_discovery.Memory.Log.Resume.{watch-resumes, resume}
use sdkwork_discovery.Memory.Effective.{effective-IsBest, IsBest}
use sdkwork_discovery.Memory.Collect.{gc_outcome, is_recent, is_old}
use sdkwork_discovery.Memory.Rollback.{rollback-effective, rolled_back}
use sdkwork_discovery.Contract.Config.{RollbackConfigCommand}
use sdkwork_discovery.Memory.Config.{rollback_config}
use sdkwork_discovery.Memory.Replay.{publish-replays}
use sdkwork_discovery.Tests.Data.{reg, event_1, store_1}

abbrev hash_text : String → String
hash_text value = value

run-IsOrdered_example : IsOrdered (run hash_text (registers reg ∷ registers reg ∷ []) new)
run-IsOrdered_example = run-IsOrdered hash_text (registers reg ∷ registers reg ∷ []) (omega arith)

abbrev event_2 : DiscoveryEvent
event_2 = record event_1 { revision = 2 }

abbrev store_2 : MemoryDiscoveryStore
store_2 = record store_1 { revision = 2; events = event_1 ∷ event_2 ∷ [] }

store_2-IsOrdered : IsOrdered store_2
store_2-IsOrdered = record {
  ascending = ((omega arith, tt), (tt, tt));
  bounded = (omega arith, (omega arith, tt));
}

abbrev query : WatchEventsQuery
query = record {
  namespace = "acme";
  environment = "prod";
  from_revision = 0;
  service_name = some "orders";
  config_group = none;
  config_application = none;
  max_events = 1;
}

watched : watch_events store_2 query ≡ ok (event_1 ∷ [])
unfolding watch_events sdkwork_discovery.Memory.Watch.validate_watch_query
    sdkwork_discovery.Memory.Store.validate_non_empty sdkwork_discovery.Prelude.Text.is_blank
    sdkwork_discovery.Memory.Reads.validate_optional_filter matches_event
watched = refl

watch-resumes_example :
    (event_1 ∷ [] ≡ take 1 (retain (matches_event query) store_2.events))
    × (watch_events store_2 (resume query event_1)
        ≡ ok (take 1 (drop 1 (retain (matches_event query) store_2.events))))
watch-resumes_example =
    watch-resumes store_2 query (event_1 ∷ []) event_1 store_2-IsOrdered watched refl

gc_outcome_example :
    (kept : List DiscoveryEvent) × (removed : ℕ) × (gc_watch_events 1 5 store_2
      ≡ (ok removed, record store_2 { events = kept }))
    × (retain (is_recent 1) kept ≡ retain (is_recent 1) store_2.events)
    × (retain (is_old 1) kept ≡ drop 5 (retain (is_old 1) store_2.events))
    × (length kept + removed ≡ length store_2.events)
    × (removed ≤ 5)
gc_outcome_example = gc_outcome store_2 1 5 (omega arith)

-- A draft, its release, and a more specific release.
abbrev draft : ConfigDraft
draft = record {
  draft_id = "draft-1";
  namespace = "acme";
  environment = "prod";
  group = "db";
  key = "url";
  format = text;
  value = "one";
  scope = namespace_scope;
  created_by = "ann";
  content_hash = "one";
  published = false;
}

abbrev release : ConfigRelease
release = release_of_draft draft "release-2" "bob" 5000 1

abbrev special : ConfigRelease
special = record release {
  release_id = "release-3";
  value = "two";
  scope = application_scope "shop";
  revision = 2;
}

abbrev store_releases : MemoryDiscoveryStore
store_releases = record new { revision = 2; next_sequence = 3; releases = release ∷ special ∷ [] }

abbrev effective_query : RetrieveEffectiveConfigQuery
effective_query = record {
  namespace = "acme";
  environment = "prod";
  application = "shop";
  service_name = "orders";
  group = "db";
}

abbrev effective : EffectiveConfig
effective = record { revision = 2; values = ("url", effective_value special) ∷ [] }

retrieved : retrieve_effective_config store_releases effective_query ≡ ok effective
unfolding retrieve_effective_config sdkwork_discovery.Memory.Config.Read.validate_effective_query
    sdkwork_discovery.Memory.Store.validate_non_empty sdkwork_discovery.Prelude.Text.is_blank
    sdkwork_discovery.Memory.Config.Read.fold_releases is_in_scope
    sdkwork_discovery.Contract.Config.applies_to get sdkwork_discovery.Prelude.Map.insert
    sdkwork_discovery.Contract.Config.specificity
retrieved = refl

effective-IsBest_example :
    IsBest "url"
      (retain (is_in_scope effective_query) store_releases.releases)
      (get "url" effective.values)
effective-IsBest_example = effective-IsBest store_releases effective_query effective "url" retrieved

abbrev context : IdempotencyContext
context = record { operation_id = "publish"; key = "k1"; request_hash = "h1" }

abbrev publication : PublishConfigCommand
publication = record {
  draft_id = "draft-1";
  published_by = "bob";
  now_ms = 5000;
  idempotency = some context;
}

abbrev store_draft : MemoryDiscoveryStore
store_draft = record new { next_sequence = 1; drafts = ("draft-1", draft) ∷ [] }

published_once :
    publish_config publication store_draft
    ≡ (ok release, (publish_config publication store_draft).1)
unfolding publish_config sdkwork_discovery.Memory.Config.validate_publish_config_command
    sdkwork_discovery.Memory.Store.validate_non_empty sdkwork_discovery.Prelude.Text.is_blank
    sdkwork_discovery.Memory.Config.validate_idempotency_context
    sdkwork_discovery.Memory.Config.replay_config_release get
    sdkwork_discovery.Memory.Config.unpublished_draft sdkwork_discovery.Memory.Config.publish_draft
    sdkwork_discovery.Memory.Store.next_id sdkwork_discovery.Memory.Store.next_revision
    sdkwork_discovery.Memory.Store.id_text sdkwork_discovery.Prelude.Text.decimal
published_once = refl

publish-replays_example :
    publish_config (record publication { now_ms = 9000 }) (publish_config publication store_draft).1
    ≡ (ok release, (publish_config publication store_draft).1)
unfolding publish_config sdkwork_discovery.Memory.Config.validate_publish_config_command
    sdkwork_discovery.Memory.Store.validate_non_empty sdkwork_discovery.Prelude.Text.is_blank
    sdkwork_discovery.Memory.Config.validate_idempotency_context
publish-replays_example =
    publish-replays publication (record publication { now_ms = 9000 }) context store_draft
      (publish_config publication store_draft).1 release refl refl refl refl published_once

abbrev rollback : RollbackConfigCommand
rollback = record {
  source_release_id = "release-2";
  rolled_back_by = "bob";
  now_ms = 7000;
  idempotency = none;
}

-- Two releases of the same scope; the older one is published again.
abbrev newer : ConfigRelease
newer = record release { release_id = "release-3"; value = "two"; revision = 2 }

abbrev store_newer : MemoryDiscoveryStore
store_newer = record new { revision = 2; next_sequence = 3; releases = release ∷ newer ∷ [] }

rollback-effective_example :
    (e : EffectiveConfig) × (retrieve_effective_config
        (rollback_config rollback store_newer).1
        effective_query
      ≡ ok e)
    × (get "url" e.values ≡ some (effective_value (rolled_back rollback release store_newer)))
unfolding is_in_scope sdkwork_discovery.Memory.Config.validate_rollback_config_command
    sdkwork_discovery.Memory.Store.validate_non_empty sdkwork_discovery.Prelude.Text.is_blank
    sdkwork_discovery.Memory.Config.validate_idempotency_context
    sdkwork_discovery.Memory.Config.replay_config_release
    sdkwork_discovery.Memory.Config.Read.validate_effective_query
    sdkwork_discovery.Contract.Config.applies_to sdkwork_discovery.Contract.Config.specificity
    sdkwork_discovery.Memory.Store.next_revision
rollback-effective_example =
    rollback-effective rollback store_newer release effective_query refl refl refl refl
      (refl, (refl, tt))
