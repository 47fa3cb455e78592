-- ===== src/Rpc/Stream/Watch.antt =====
-- crates/sdkwork-discovery-rpc/src/services.rs: the streams of services and of configuration. The
-- limiter of the streams is a number of permits, one of which a stream holds until it ends. Metrics
-- and log lines are left out, but for the gauge of active streams.
use sdkwork_discovery.Prelude.{ℕ, String, Bool, true, false, Option, none, some, [], List}
use sdkwork_discovery.Prelude.Tests.{if◌then◌else◌}
use sdkwork_discovery.Contract.Error.{DiscoveryError, DiscoveryResult, ok, err}
use sdkwork_discovery.Contract.Registry.{ServiceInstance}
use sdkwork_discovery.Contract.Context.{CallerContext}
use sdkwork_discovery.Contract.Event.{
  DiscoveryEvent, DiscoveryEventKind, WatchEventsQuery, instance_registered, instance_updated,
  instance_status_reported, instance_renewed, instance_deregistered, config_published,
  config_rolled_back,
}
use sdkwork_discovery.Rpc.Actor.{Runtime, RuntimeCommand}
use sdkwork_discovery.Rpc.Actor
use sdkwork_discovery.Rpc.Actor.Dispatch.{dispatch_command}
use sdkwork_discovery.Rpc.Status.{
  Status, failed_precondition, attach_correlation_metadata, map_discovery_error_to_rpc_status,
}
use sdkwork_discovery.Rpc.Watch.{event_matches_service_watch, event_matches_config_watch}
use sdkwork_discovery.Rpc.Codec.Proto
use sdkwork_discovery.Rpc.Codec.Responses
use sdkwork_discovery.Rpc.Service.{RpcResult, response, failure, Server}
use sdkwork_discovery.Rpc.Stream.{
  Moment, WatchTask, StreamState, drain_persisted_events, Wake, spawn,
}

-- `unwrap_or_default()`
abbrev or_default : Option String → String
or_default none = ""
or_default (some text) = text

abbrev heartbeat_type : ℕ
heartbeat_type = 8

abbrev is_deregistered : DiscoveryEventKind → Bool
is_deregistered instance_registered = false
is_deregistered instance_updated = false
is_deregistered instance_status_reported = false
is_deregistered instance_renewed = false
is_deregistered instance_deregistered = true
is_deregistered config_published = false
is_deregistered config_rolled_back = false

unfoldable pub service_watch_identity_tombstone : DiscoveryEvent → Proto.ServiceInstance
service_watch_identity_tombstone event = record {
  namespace = event.namespace;
  environment = event.environment;
  service_name = or_default event.service_name;
  instance_id = event.resource_id;
  endpoint = "";
  protocol = "";
  version = "";
  region = "";
  zone = "";
  weight = 0;
  priority = 0;
  status = 3;
  metadata = [];
  lease_id = "";
  expires_at = none;
  revision = event.revision;
  health_check = none;
}

module _ {S : Type 0} (server : Server S) (request_id trace_id : String) where
  abbrev failed : DiscoveryError → Status
  failed e = map_discovery_error_to_rpc_status server.parse_value e request_id trace_id

  abbrev correlated : Status → Status
  correlated s = attach_correlation_metadata server.parse_value s request_id trace_id

  abbrev instance_or_tombstone :
      DiscoveryEvent
      → DiscoveryResult (Option ServiceInstance)
      → RpcResult (Option Proto.ServiceInstance)
  instance_or_tombstone event (err e) = failure (failed e)
  instance_or_tombstone event (ok none) = response (some (service_watch_identity_tombstone event))
  instance_or_tombstone event (ok (some i)) =
      response (some (Responses.service_instance_to_proto i))

  abbrev retrieved :
      CallerContext
      → Moment S
      → DiscoveryEvent
      → Option String
      → Runtime S
      → RpcResult (Option Proto.ServiceInstance) × Runtime S
  retrieved caller m event none r = (
    failure (
        correlated (record {
          code = failed_precondition;
          message = "registry watch event is missing service_name";
          metadata = [];
        })),
    r,
  )
  retrieved caller m event (some service_name) r =
      let command =
        Actor.retrieve_instance caller
          (record {
            namespace = event.namespace;
            environment = event.environment;
            service_name = service_name;
            instance_id = event.resource_id;
          })
          m.now_ms in
      let (found, r1) =
        dispatch_command server.debug server.ops server.plane m.readings command r in
      (instance_or_tombstone event found, r1)

  unfoldable pub service_watch_instance :
      CallerContext
      → Moment S
      → DiscoveryEvent
      → Runtime S
      → RpcResult (Option Proto.ServiceInstance) × Runtime S
  service_watch_instance caller m event r =
      if is_deregistered event.kind
      then (response (some (service_watch_identity_tombstone event)), r)
      else retrieved caller m event event.service_name r

  abbrev pub watch_message :
      Moment S
      → DiscoveryEvent
      → RpcResult (Option Proto.ServiceInstance)
      → RpcResult Proto.WatchServiceResponse
  watch_message m event (failure e) = failure e
  watch_message m event (response i) = response (record {
    event_type = Responses.watch_event_type event.kind;
    instance = i;
    metadata = some (Responses.response_metadata m.server_now request_id trace_id event.revision);
  })

  unfoldable pub service_watch_response :
      CallerContext
      → Moment S
      → DiscoveryEvent
      → Runtime S
      → RpcResult Proto.WatchServiceResponse × Runtime S
  service_watch_response caller m event r =
      let (i, r1) = service_watch_instance caller m event r in (watch_message m event i, r1)

  unfoldable pub service_watch_heartbeat : ℕ → ℕ → Proto.WatchServiceResponse
  service_watch_heartbeat now revision = record {
    event_type = heartbeat_type;
    instance = none;
    metadata = some (Responses.response_metadata now request_id trace_id revision);
  }

  unfoldable pub config_watch_response : ℕ → DiscoveryEvent → Proto.WatchConfigResponse
  config_watch_response now event = record {
    event_type = Responses.watch_event_type event.kind;
    release_id = event.resource_id;
    group = or_default event.config_group;
    key = or_default event.config_key;
    metadata = some (Responses.response_metadata now request_id trace_id event.revision);
  }

  unfoldable pub config_watch_heartbeat : ℕ → ℕ → Proto.WatchConfigResponse
  config_watch_heartbeat now revision = record {
    event_type = heartbeat_type;
    release_id = "";
    group = "";
    key = "";
    metadata = some (Responses.response_metadata now request_id trace_id revision);
  }

  -- The channel to the client and the course of the stream are of the surroundings.
  unfoldable pub service_task :
      (ℕ → Bool)
      → (ℕ → Moment S)
      → CallerContext
      → WatchEventsQuery
      → WatchTask S Proto.WatchServiceResponse
  service_task accepts moments caller query = record {
    query = query;
    poll = λ m q r.
        dispatch_command server.debug server.ops server.plane m.readings
          (Actor.watch_registry_events caller q) r;
    matches = λ event. event_matches_service_watch event query;
    respond = λ m event r. service_watch_response caller m event r;
    heartbeat = service_watch_heartbeat;
    failed = failed;
    accepts = accepts;
    moments = moments;
  }

  unfoldable pub config_task :
      (ℕ → Bool)
      → (ℕ → Moment S)
      → CallerContext
      → WatchEventsQuery
      → WatchTask S Proto.WatchConfigResponse
  config_task accepts moments caller query = record {
    query = query;
    poll = λ m q r.
        dispatch_command server.debug server.ops server.plane m.readings
          (Actor.watch_config_events caller q) r;
    matches = λ event. event_matches_config_watch event query;
    respond = λ m event r. (response (config_watch_response m.server_now event), r);
    heartbeat = config_watch_heartbeat;
    failed = failed;
    accepts = accepts;
    moments = moments;
  }

  module _ (accepts : ℕ → Bool) (moments : ℕ → Moment S) (caller : CallerContext)
      (query : WatchEventsQuery) where
    -- The two copies of the drain, and the task of a stream of configuration.
    unfoldable pub drain_persisted_service_events :
        StreamState S Proto.WatchServiceResponse → Bool × StreamState S Proto.WatchServiceResponse
    drain_persisted_service_events =
        drain_persisted_events (service_task accepts moments caller query)

    unfoldable pub drain_persisted_config_events :
        StreamState S Proto.WatchConfigResponse → Bool × StreamState S Proto.WatchConfigResponse
    drain_persisted_config_events =
        drain_persisted_events (config_task accepts moments caller query)

    unfoldable pub spawn_config :
        List DiscoveryEvent → List Wake → Runtime S → Bool × StreamState S Proto.WatchConfigResponse
    spawn_config = spawn (config_task accepts moments caller query)
