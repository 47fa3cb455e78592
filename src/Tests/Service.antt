-- ===== src/Tests/Service.antt =====
-- Concrete inputs for the theorems on the services, the codec and the watch streams.
use sdkwork_discovery.Prelude.{ℕ, ◌≡◌, Bool, true, none, some, List, [], ◌∷◌, arith}
use sdkwork_discovery.Memory.Store.{MemoryDiscoveryStore}
use sdkwork_discovery.Core.Store.{memory_ops}
use sdkwork_discovery.Rpc.Codec.Proto
use sdkwork_discovery.Rpc.Service.{Server, Call}
use sdkwork_discovery.Prelude.{◌+◌}
use sdkwork_discovery.Prelude.Tests.{ltb, if◌then◌else◌}
use sdkwork_discovery.Contract.Error.{DiscoveryResult, ok, ◌>>=◌}
use sdkwork_discovery.Contract.Event.{WatchEventsQuery, DiscoveryEvent, instance_registered}
use sdkwork_discovery.Contract.Health.{HealthCheckConfig, http}
use sdkwork_discovery.Rpc.Codec.Requests.{health_check_from_proto}
use sdkwork_discovery.Rpc.Codec.Responses.{health_check_to_proto}
use sdkwork_discovery.Rpc.Codec.RoundTrip.{health_check-roundtrip}
use sdkwork_discovery.Rpc.Stream.{
  Moment, WatchTask, StreamState, Wake, live_event, persisted_events, heartbeat_tick, turn, spawn,
}
use sdkwork_discovery.Rpc.Stream.Watch.{service_task}
use sdkwork_discovery.Rpc.Stream.Open.{
  DiscoveryWatchServiceConfig, WatchHost, watch_service, watch_config,
}
use sdkwork_discovery.Rpc.Stream.Order.{IsInOrder}
use sdkwork_discovery.Rpc.Stream.Sent.{service_stamp, service_watch-IsInOrder}
use sdkwork_discovery.Rpc.Stream.Gauge.{drains_on, turn-decrements}
use sdkwork_discovery.Rpc.Stream.Permits.{Opens, watch-Opens}
use sdkwork_discovery.Tests.Data.{reg}
use sdkwork_discovery.Prelude.{false, refl}
use sdkwork_discovery.Prelude.Text.{str_append}
use sdkwork_discovery.Rpc.Context.{caller_from_metadata}
use sdkwork_discovery.Rpc.Correlation.{request_id_from_metadata, trace_id_from_metadata}
use sdkwork_discovery.Rpc.Service
use sdkwork_discovery.Rpc.Service.{response}
use sdkwork_discovery.Contract.Registry.{RegisterInstanceCommand}
use sdkwork_discovery.Rpc.Codec.Responses
use sdkwork_discovery.Rpc.Actor
use sdkwork_discovery.Rpc.Callers.{SpeaksFor}
use sdkwork_discovery.Rpc.Tenancy.{unary-answers, registers, write-own_tenant}
use sdkwork_discovery.Contract.Context.{CallerContext}
use sdkwork_discovery.Rpc.Actor.Dispatch.{dispatch_command}
use sdkwork_discovery.Rpc.Token.{verify}
use sdkwork_discovery.Rpc.Codec.Requests.{register_instance_command}
use sdkwork_discovery.Tests.Core.{hash, hash_text, plane}
use sdkwork_discovery.Tests.Actor.{debug, started, readings}
use sdkwork_discovery.Tests.Token.{config, decoders, metadata, policy, caller}
use sdkwork_discovery.Contract.Error.{DiscoveryResult, ok, ◌>>=◌}

abbrev server : Server MemoryDiscoveryStore
server = record {
  debug = debug;
  ops = memory_ops hash hash_text;
  plane = plane;
  decoders = decoders;
  context_policy = policy;
  parse_value = λ t. some t;
}

abbrev call : Call
call = record {
  metadata = metadata;
  generated_id = "r1";
  token_now = 5000;
  now_ms = 1000;
  server_now = 1000;
  readings = readings;
}

abbrev accepts : ℕ → Bool
accepts n = ltb n 2

abbrev moments : ℕ → Moment MemoryDiscoveryStore
moments n = record { others = λ r. r; now_ms = 1000; server_now = 1000; readings = readings }

abbrev query : WatchEventsQuery
query = record {
  namespace = "acme";
  environment = "prod";
  from_revision = 0;
  service_name = some "orders";
  config_group = none;
  config_application = none;
  max_events = 10;
}

abbrev event_1 : DiscoveryEvent
event_1 = record {
  revision = 1;
  namespace = "acme";
  environment = "prod";
  kind = instance_registered;
  resource_id = "orders-1";
  service_name = some "orders";
  config_group = none;
  config_key = none;
  config_application = none;
}

abbrev wakes : List Wake
wakes = heartbeat_tick ∷ persisted_events ∷ live_event none ∷ []

abbrev task : WatchTask MemoryDiscoveryStore Proto.WatchServiceResponse
task = service_task server "r1" "" accepts moments caller query

service_watch-IsInOrder_example :
    IsInOrder task service_stamp (spawn task (event_1 ∷ []) wakes started)
service_watch-IsInOrder_example =
    service_watch-IsInOrder server "r1" "" accepts moments caller query (event_1 ∷ []) wakes started

abbrev stream : StreamState MemoryDiscoveryStore Proto.WatchServiceResponse
stream = record { runtime = started; cursor_revision = 0; sent = []; decrements = 0; asked = 0 }

turn-decrements_example :
    (turn task persisted_events stream).1.decrements
    ≡ (if (turn task persisted_events stream).0
        then (if drains_on task stream persisted_events then 2 else 1)
        else 0)
      + 0
turn-decrements_example = turn-decrements task persisted_events stream

abbrev host : WatchHost MemoryDiscoveryStore
host = record { runtime = started; available_permits = 1; active_streams = 0 }

abbrev service_request : Proto.WatchServiceRequest
service_request = record {
  namespace = "acme";
  environment = "prod";
  service_name = "orders";
  from_revision = 0;
}

abbrev config_request : Proto.WatchConfigRequest
config_request = record {
  namespace = "acme";
  environment = "prod";
  application = "shop";
  service_name = "orders";
  group = "runtime";
  from_revision = 0;
}

abbrev watch_options : DiscoveryWatchServiceConfig
watch_options = record {
  enabled = true;
  max_streams = 1;
  event_buffer_size = 16;
  heartbeat_interval_ms = 15000;
  durable_poll_interval_ms = 1000;
  durable_replay_batch_size = 100;
}

watch-Opens_example :
    Opens host (watch_service server call watch_options accepts moments service_request host)
    × Opens host (watch_config server call watch_options accepts moments config_request host)
watch-Opens_example =
    watch-Opens server call watch_options accepts moments host service_request config_request

abbrev health_check : HealthCheckConfig
health_check = record {
  probe = http "/health" 204;
  interval_ms = 5000;
  timeout_ms = 1000;
  unhealthy_threshold = 3;
  healthy_threshold = 2;
}

health_check-roundtrip_example :
    health_check_from_proto (health_check_to_proto health_check) ≡ ok health_check
health_check-roundtrip_example = health_check-roundtrip health_check (omega arith)

abbrev registration : Proto.RegisterInstanceRequest
registration = record {
  namespace = "acme";
  environment = "prod";
  service_name = "orders";
  instance_id = "orders-1";
  endpoint = "10.0.0.1:80";
  protocol = "http";
  version = "1";
  region = "eu";
  zone = "a";
  weight = 10;
  priority = 0;
  status = 1;
  metadata = [];
  lease_ttl_seconds = 30;
  expected_revision = none;
  persistent = false;
  health_check = none;
}

abbrev registered : Proto.RegisterInstanceResponse
registered = record {
  lease_id = "lease-1";
  expires_at = some (record { seconds = 31; nanos = 0 });
  metadata = some (record {
    request_id = "r1";
    trace_id = "";
    server_time = some (record { seconds = 1; nanos = 0 });
    revision = 1;
  });
}

caller_found : caller_from_metadata decoders 5000 metadata policy ≡ ok caller
unfolding sdkwork_discovery.Rpc.Context.caller_from_metadata
    sdkwork_discovery.Rpc.Context.authenticated_metadata
    sdkwork_discovery.Rpc.Context.authenticated_tokens
    sdkwork_discovery.Rpc.Context.optional_metadata_value sdkwork_discovery.Rpc.Context.bearer_token
    sdkwork_discovery.Rpc.Context.strip_prefix
    sdkwork_discovery.Rpc.Context.has_unsigned_context_metadata
    sdkwork_discovery.Rpc.Context.caller_from_authenticated_metadata verify
    sdkwork_discovery.Rpc.Token.parse sdkwork_discovery.Rpc.Token.parse_parts
    sdkwork_discovery.Prelude.Text.split_on sdkwork_discovery.Prelude.Text.trim
    sdkwork_discovery.Prelude.Text.trim_start sdkwork_discovery.Prelude.Text.trim_end
    sdkwork_discovery.Prelude.Text.is_blank sdkwork_discovery.Prelude.Text.is_whitespace
    sdkwork_discovery.Rpc.Token.validate_config sdkwork_discovery.Rpc.Token.validate_header
    sdkwork_discovery.Rpc.Token.verify_signature sdkwork_discovery.Rpc.Token.decode_json_part
    sdkwork_discovery.Rpc.Token.validate_claims sdkwork_discovery.Rpc.Token.caller_from_claims
    sdkwork_discovery.Rpc.Token.add_registry_permissions
    sdkwork_discovery.Rpc.Token.add_config_permissions
    sdkwork_discovery.Rpc.Token.parse_registry_permission
    sdkwork_discovery.Contract.Context.new_caller sdkwork_discovery.Contract.Context.with_tenant_id
    sdkwork_discovery.Contract.Context.with_registry_permission
caller_found = refl

command_made : register_instance_command 1000 registration ≡ ok reg
unfolding register_instance_command sdkwork_discovery.Rpc.Codec.Requests.validate_registration
    sdkwork_discovery.Rpc.Codec.Requests.validate_instance_fields
    sdkwork_discovery.Rpc.Codec.Requests.instance_status_from_proto
    sdkwork_discovery.Rpc.Codec.Fields.validate_identity_field
    sdkwork_discovery.Rpc.Codec.Fields.validate_endpoint_field
    sdkwork_discovery.Rpc.Codec.Fields.validate_short_text_field
    sdkwork_discovery.Rpc.Codec.Fields.validate_metadata
    sdkwork_discovery.Rpc.Codec.Fields.validate_entries
    sdkwork_discovery.Rpc.Codec.Fields.validate_required_field
    sdkwork_discovery.Rpc.Codec.Fields.at_most sdkwork_discovery.Rpc.Codec.Fields.no_byte
    sdkwork_discovery.Rpc.Codec.Fields.utf8_bytes
    sdkwork_discovery.Rpc.Codec.Fields.is_identity_char
    sdkwork_discovery.Rpc.Codec.Fields.is_printable_ascii
    sdkwork_discovery.Rpc.Codec.Fields.is_control_char sdkwork_discovery.Prelude.Text.is_blank
    sdkwork_discovery.Prelude.Text.is_whitespace
command_made = refl

request_identified : request_id_from_metadata "r1" metadata ≡ ok "r1"
unfolding request_id_from_metadata sdkwork_discovery.Rpc.Context.optional_metadata_value
request_identified = refl

trace_identified : trace_id_from_metadata metadata ≡ ok ""
unfolding trace_id_from_metadata sdkwork_discovery.Rpc.Context.optional_metadata_value
    sdkwork_discovery.Rpc.Correlation.parse_trace_id_from_traceparent
    sdkwork_discovery.Prelude.Text.trim sdkwork_discovery.Prelude.Text.trim_end
    sdkwork_discovery.Prelude.Text.trim_start
trace_identified = refl

dispatched :
    (dispatch_command debug
      (memory_ops hash hash_text)
      plane
      readings
      (Actor.register_instance caller reg)
      started).0
    ≡ ok (record {
      lease_id = "lease-1";
      namespace = "acme";
      environment = "prod";
      service_name = "orders";
      instance_id = "orders-1";
      expires_at_ms = 31000;
      revision = 1;
    })
unfolding dispatch_command sdkwork_discovery.Rpc.Actor.write_command
    sdkwork_discovery.Rpc.Actor.finish_write sdkwork_discovery.Rpc.Resilience.gate
    sdkwork_discovery.Rpc.Resilience.allows sdkwork_discovery.Rpc.Breaker.allow_request
    sdkwork_discovery.Core.Plane.register_instance sdkwork_discovery.Core.Plane.check_register
    sdkwork_discovery.Core.Policy.require_registry_permission
    sdkwork_discovery.Core.Policy.require_namespace_tenant_access
    sdkwork_discovery.Core.Policy.belongs_to
    sdkwork_discovery.Core.Policy.validate_registry_lease_ttl
    sdkwork_discovery.Memory.Register.register_instance
    sdkwork_discovery.Memory.Register.register_checked
    sdkwork_discovery.Memory.Register.write_registration
    sdkwork_discovery.Memory.Register.register_expiry sdkwork_discovery.Memory.Register.live_lease
    sdkwork_discovery.Memory.Register.assign_lease sdkwork_discovery.Prelude.Text.is_blank
    sdkwork_discovery.Memory.Register.check_expected
    sdkwork_discovery.Memory.Store.lease_expires_at_ms
    sdkwork_discovery.Memory.Register.new_instance sdkwork_discovery.Prelude.Map.get
    sdkwork_discovery.Memory.Store.id_text sdkwork_discovery.Prelude.Text.decimal
    sdkwork_discovery.Memory.Store.next_id sdkwork_discovery.Memory.Store.next_revision
    sdkwork_discovery.Contract.Context.has_registry_permission
    sdkwork_discovery.Memory.Register.validate_register
    sdkwork_discovery.Memory.Store.validate_non_empty
dispatched = refl

abbrev paired : DiscoveryResult (CallerContext × RegisterInstanceCommand)
paired = caller_from_metadata decoders 5000 metadata policy >>= λ who.
    register_instance_command 1000 registration >>= λ c. ok (who, c)

prepared : paired ≡ ok (caller, reg)
prepared = rw (caller_found, command_made) refl

registration_answered :
    (Service.register_instance server call registration started).0 ≡ response registered
unfolding Service.register_instance Service.unary
    sdkwork_discovery.Rpc.Codec.Responses.register_instance_response
    sdkwork_discovery.Rpc.Codec.Responses.response_metadata
    sdkwork_discovery.Rpc.Codec.Responses.timestamp_from_millis
registration_answered =
    unary-answers server call paired
      (λ k.
        dispatch_command debug (memory_ops hash hash_text) plane readings
          (Actor.register_instance k.0 k.1))
      (λ rid tid a. ok (Responses.register_instance_response 1000 rid tid a)) started
      request_identified trace_identified prepared dispatched refl

write-own_tenant_example :
    (who : CallerContext) × SpeaksFor decoders 5000 metadata config who
    × (who.tenant_id ≡ some "acme")
write-own_tenant_example =
    write-own_tenant server call started config (registers registration) refl
      (registered, registration_answered)
