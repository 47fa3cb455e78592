-- ===== src/Contract/Event.antt =====
-- crates/sdkwork-discovery-contract/src/registry.rs: events and watch queries.
use sdkwork_discovery.Prelude.{ℕ, String, Bool, true, Option, none, some, ◌&&◌}
use sdkwork_discovery.Prelude.Tests.{◌==◌, ltb, option_beq, text_eq}

pub data DiscoveryEventKind : Type 0 where
  instance_registered instance_updated instance_status_reported : DiscoveryEventKind
  instance_renewed instance_deregistered : DiscoveryEventKind
  config_published config_rolled_back : DiscoveryEventKind

pub record DiscoveryEvent : Type 0 where
  pub revision : ℕ
  pub namespace : String
  pub environment : String
  pub kind : DiscoveryEventKind
  pub resource_id : String
  pub service_name : Option String
  pub config_group : Option String
  pub config_key : Option String
  pub config_application : Option String

pub record WatchEventsQuery : Type 0 where
  pub namespace : String
  pub environment : String
  pub from_revision : ℕ
  pub service_name : Option String
  pub config_group : Option String
  pub config_application : Option String
  pub max_events : ℕ

-- `wanted.is_none_or(|w| actual.is_none_or(|a| a == w))`
abbrev pub service_matches : Option String → Option String → Bool
service_matches none actual = true
service_matches (some wanted) none = true
service_matches (some wanted) (some actual) = actual == wanted

-- `wanted.is_none_or(|w| actual == Some(w))`
abbrev pub field_matches : Option String → Option String → Bool
field_matches none actual = true
field_matches (some wanted) actual = option_beq actual (some wanted)

unfoldable pub matches_event : WatchEventsQuery → DiscoveryEvent → Bool
matches_event query event =
    event.namespace == query.namespace
    && event.environment == query.environment
    && ltb query.from_revision event.revision
    && service_matches query.service_name event.service_name
    && field_matches query.config_group event.config_group
    && field_matches query.config_application event.config_application
