-- ===== src/Rpc/Stream/Open.antt =====
-- crates/sdkwork-discovery-rpc/src/services.rs: the requests for a watch stream. What is left of a
-- request is its task and the events to start with.
use sdkwork_discovery.Prelude.{ℕ, suc, ◌-◌, String, Bool, true, not, Option, none, some, List, []}
use sdkwork_discovery.Prelude.Tests.{nat_beq, if◌then◌else◌}
use sdkwork_discovery.Contract.Error.{DiscoveryResult, ok, err, ◌>>=◌, ◌>>◌}
use sdkwork_discovery.Contract.Context.{CallerContext}
use sdkwork_discovery.Contract.Event.{DiscoveryEvent}
use sdkwork_discovery.Rpc.Actor.{Runtime}
use sdkwork_discovery.Rpc.Context.{registry_reader_from_metadata, config_reader_from_metadata}
use sdkwork_discovery.Rpc.Correlation.{request_id_from_metadata, trace_id_from_metadata}
use sdkwork_discovery.Rpc.Status.{
  Status, code_resource_exhausted, unimplemented, attach_correlation_metadata,
  map_discovery_error_to_status, map_discovery_error_to_rpc_status,
}
use sdkwork_discovery.Rpc.Codec.Proto
use sdkwork_discovery.Rpc.Codec.Fields.{validate_identity_field}
use sdkwork_discovery.Rpc.Service.{RpcResult, response, failure, Server, Call}
use sdkwork_discovery.Rpc.Stream.{Moment, WatchTask}
use sdkwork_discovery.Rpc.Stream.Watch.{service_task, config_task}

pub record DiscoveryWatchServiceConfig : Type 0 where
  pub enabled : Bool
  pub max_streams : ℕ
  pub event_buffer_size : ℕ
  pub heartbeat_interval_ms : ℕ
  pub durable_poll_interval_ms : ℕ
  pub durable_replay_batch_size : ℕ

-- `DiscoveryWatchServiceConfig::default`
unfoldable pub default_config : DiscoveryWatchServiceConfig
default_config = record {
  enabled = true;
  max_streams = 10000;
  event_buffer_size = 1024;
  heartbeat_interval_ms = 15000;
  durable_poll_interval_ms = 1000;
  durable_replay_batch_size = 1000;
}

-- The runtime, the permits of the limiter that are free, and the gauge of active streams.
pub record WatchHost (S : Type 0) : Type 0 where
  pub runtime : Runtime S
  pub available_permits : ℕ
  pub active_streams : ℕ

-- A host with a limiter of its own, or one that is shared.
unfoldable pub with_watch_limiter :
    {S : Type 0} → Runtime S → DiscoveryWatchServiceConfig → Option ℕ → WatchHost S
with_watch_limiter runtime config none = record {
  runtime = runtime;
  available_permits = config.max_streams;
  active_streams = 0;
}
with_watch_limiter runtime config (some permits) = record {
  runtime = runtime;
  available_permits = permits;
  active_streams = 0;
}

unfoldable pub validate_service_watch : Proto.WatchServiceRequest → DiscoveryResult (Unit {0})
validate_service_watch r = do
  validate_identity_field "namespace" r.namespace
  validate_identity_field "environment" r.environment
  validate_identity_field "service_name" r.service_name

unfoldable pub validate_config_watch : Proto.WatchConfigRequest → DiscoveryResult (Unit {0})
validate_config_watch r = do
  validate_identity_field "namespace" r.namespace
  validate_identity_field "environment" r.environment
  validate_identity_field "application" r.application
  validate_identity_field "service_name" r.service_name
  validate_identity_field "group" r.group

module _ {S : Type 0} (server : Server S) (call : Call) (config : DiscoveryWatchServiceConfig) where
  abbrev this_moment : Moment S
  this_moment = record {
    others = λ r. r;
    now_ms = call.now_ms;
    server_now = call.server_now;
    readings = call.readings;
  }

  abbrev limit_exceeded : Status
  limit_exceeded = record {
    code = code_resource_exhausted;
    message = "watch stream limit exceeded";
    metadata = [];
  }

  abbrev disabled : String → String → String → Status
  disabled message request_id trace_id =
      attach_correlation_metadata server.parse_value
        (record { code = unimplemented; message = message; metadata = [] }) request_id trace_id

  abbrev pub start :
      {M : Type 0}
      → WatchTask S M
      → WatchHost S
      → DiscoveryResult (List DiscoveryEvent) × Runtime S
      → RpcResult (WatchTask S M × List DiscoveryEvent) × WatchHost S
  start task host (ok events, r) = (
    response (task, events),
    record host {
      runtime = r;
      available_permits = host.available_permits - 1;
      active_streams = suc host.active_streams;
    },
  )
  start task host (err e, r) = (failure (task.failed e), record host { runtime = r })

  -- A permit is taken first, and given back when the events cannot be read.
  unfoldable pub start_stream :
      {M : Type 0}
      → WatchTask S M
      → WatchHost S
      → RpcResult (WatchTask S M × List DiscoveryEvent) × WatchHost S
  start_stream task host =
      if nat_beq host.available_permits 0
      then (failure limit_exceeded, host)
      else start task host (task.poll this_moment task.query host.runtime)

  -- The frame of both requests.
  unfoldable pub open_stream :
      {M : Type 0}
      → String
      → DiscoveryResult CallerContext
      → (String → String → CallerContext → WatchTask S M)
      → WatchHost S
      → RpcResult (WatchTask S M × List DiscoveryEvent) × WatchHost S
  open_stream disabled_message prepared task_of host =
      elim (request_id_from_metadata call.generated_id call.metadata) [
        | err e ↦ (failure (map_discovery_error_to_status server.parse_value e), host)
        | ok request_id ↦ elim (trace_id_from_metadata call.metadata) [
          | err e ↦
              (failure (map_discovery_error_to_rpc_status server.parse_value e request_id ""), host)
          | ok trace_id ↦
              if not config.enabled
              then (failure (disabled disabled_message request_id trace_id), host)
              else elim prepared [
                | err e ↦ (
                  failure
                      (map_discovery_error_to_rpc_status server.parse_value e request_id trace_id),
                  host,
                )
                | ok caller ↦ start_stream (task_of request_id trace_id caller) host
              ]
        ]
      ]

  module _ (accepts : ℕ → Bool) (moments : ℕ → Moment S) where
    unfoldable pub watch_service :
        Proto.WatchServiceRequest
        → WatchHost S
        → RpcResult (WatchTask S Proto.WatchServiceResponse × List DiscoveryEvent) × WatchHost S
    watch_service request =
        open_stream "discovery watch service is disabled"
          (registry_reader_from_metadata server.decoders call.token_now call.metadata
              server.context_policy
            >>= λ caller. validate_service_watch request >> ok caller)
          (λ request_id trace_id caller.
            service_task server request_id trace_id accepts moments caller (record {
              namespace = request.namespace;
              environment = request.environment;
              from_revision = request.from_revision;
              service_name = some request.service_name;
              config_group = none;
              config_application = none;
              max_events = config.durable_replay_batch_size;
            }))

    unfoldable pub watch_config :
        Proto.WatchConfigRequest
        → WatchHost S
        → RpcResult (WatchTask S Proto.WatchConfigResponse × List DiscoveryEvent) × WatchHost S
    watch_config request =
        open_stream "discovery config watch is disabled"
          (config_reader_from_metadata server.decoders call.token_now call.metadata
              server.context_policy
            >>= λ caller. validate_config_watch request >> ok caller)
          (λ request_id trace_id caller.
            config_task server request_id trace_id accepts moments caller (record {
              namespace = request.namespace;
              environment = request.environment;
              from_revision = request.from_revision;
              service_name = some request.service_name;
              config_group = some request.group;
              config_application = some request.application;
              max_events = config.durable_replay_batch_size;
            }))
