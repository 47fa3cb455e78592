-- ===== src/Rpc/Watch.antt =====
-- crates/sdkwork-discovery-rpc/src/watch.rs: the events of a revision, and the two watch streams.
-- The broadcast channel is another package's: publishing is appending to the events streamed.
use sdkwork_discovery.Prelude.{
  ℕ, ◌-◌, String, Bool, true, false, ◌&&◌, Option, none, some, List, [],
}
use sdkwork_discovery.Prelude.Lists.{retain}
use sdkwork_discovery.Prelude.Tests.{nat_beq, option_beq, if◌then◌else◌, text_eq}
use sdkwork_discovery.Contract.Error.{DiscoveryResult, ok, ◌>>=◌}
use sdkwork_discovery.Contract.Event.{
  DiscoveryEvent, DiscoveryEventKind, WatchEventsQuery, matches_event, instance_registered,
  instance_updated, instance_status_reported, instance_renewed, instance_deregistered,
  config_published, config_rolled_back,
}
use sdkwork_discovery.Core.Store.{StoreOps}

unfoldable pub revision_query : String → String → ℕ → WatchEventsQuery
revision_query namespace environment revision = record {
  namespace = namespace;
  environment = environment;
  from_revision = revision - 1;
  service_name = none;
  config_group = none;
  config_application = none;
  max_events = 1;
}

unfoldable pub events_for_revision :
    {S : Type 0} → StoreOps S → S → String → String → ℕ → DiscoveryResult (List DiscoveryEvent)
unfolding revision_query
events_for_revision ops s namespace environment revision =
    if nat_beq revision 0
    then ok []
    else (ops.watch_events s (revision_query namespace environment revision) >>= λ events.
        ok (retain (λ e. nat_beq e.revision revision) events))

unfoldable pub is_service_event : DiscoveryEventKind → Bool
is_service_event instance_registered = true
is_service_event instance_updated = true
is_service_event instance_status_reported = true
is_service_event instance_renewed = true
is_service_event instance_deregistered = true
is_service_event config_published = false
is_service_event config_rolled_back = false

unfoldable pub is_config_event : DiscoveryEventKind → Bool
is_config_event config_published = true
is_config_event config_rolled_back = true
is_config_event instance_registered = false
is_config_event instance_updated = false
is_config_event instance_status_reported = false
is_config_event instance_renewed = false
is_config_event instance_deregistered = false

-- `is_none_or(|name| actual == Some(name))`
abbrev names_service : Option String → Option String → Bool
names_service none actual = true
names_service (some wanted) actual = option_beq actual (some wanted)

unfoldable pub event_matches_service_watch : DiscoveryEvent → WatchEventsQuery → Bool
unfolding is_service_event matches_event
event_matches_service_watch event query =
    matches_event query event
    && names_service query.service_name event.service_name
    && is_service_event event.kind

unfoldable pub event_matches_config_watch : DiscoveryEvent → WatchEventsQuery → Bool
unfolding is_config_event matches_event
event_matches_config_watch event query = matches_event query event && is_config_event event.kind
