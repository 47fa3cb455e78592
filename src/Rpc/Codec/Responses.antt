-- ===== src/Rpc/Codec/Responses.antt =====
-- crates/sdkwork-discovery-rpc/src/codec.rs: the messages of the answers. `server_now` is the clock.
use sdkwork_discovery.Prelude.{
  ℕ, ◌*◌, ◌/◌, ◌%◌, ◌^◌, ◌-◌, String, Option, none, some, List, map, min,
}
use sdkwork_discovery.Prelude.Lists.{last}
use sdkwork_discovery.Prelude.Map.{Map}
use sdkwork_discovery.Contract.Health.{HealthCheckProbe, tcp, http, grpc, HealthCheckConfig}
use sdkwork_discovery.Contract.Registry.{
  RegisterInstanceResult, BatchRegisterResult, BatchOperationError, RenewLeaseResult,
  ReportInstanceStatusResult, ServiceInstance, ServiceSummary, InstanceStatus, serving, degraded,
  not_serving, DiscoverInstancesResult, ListServicesResult,
}
use sdkwork_discovery.Contract.Config.{
  ConfigFormat, text, json, toml, ConfigScope, namespace_scope, application_scope, service_scope,
  ConfigRelease, EffectiveConfig, EffectiveConfigValue,
}
use sdkwork_discovery.Contract.Event.{
  DiscoveryEventKind, instance_registered, instance_updated, instance_status_reported,
  instance_renewed, instance_deregistered, config_published, config_rolled_back,
}
use sdkwork_discovery.Rpc.Codec.Proto
use sdkwork_discovery.Prelude.Sort.{sort_by}
use sdkwork_discovery.Prelude.Text.{text_leb}
use mathlib.Core.Option

unfoldable pub timestamp_from_millis : ℕ → Proto.Timestamp
timestamp_from_millis milliseconds = record {
  seconds = min (milliseconds / 1000) (2 ^ 63 - 1);
  nanos = milliseconds % 1000 * 1000000;
}

unfoldable pub instance_status_to_proto : InstanceStatus → ℕ
instance_status_to_proto serving = 1
instance_status_to_proto degraded = 2
instance_status_to_proto not_serving = 3

unfoldable pub config_format_to_proto : ConfigFormat → ℕ
config_format_to_proto text = 1
config_format_to_proto json = 2
config_format_to_proto toml = 3

unfoldable pub config_scope_to_proto_fields : ConfigScope → ℕ × String × String
config_scope_to_proto_fields namespace_scope = (1, "", "")
config_scope_to_proto_fields (application_scope application) = (2, application, "")
config_scope_to_proto_fields (service_scope application service_name) =
    (3, application, service_name)

unfoldable pub probe_to_proto : HealthCheckProbe → Proto.HealthCheckProbe
probe_to_proto tcp = record {
  kind = 1;
  http_path = "";
  http_expected_status = 0;
  grpc_service_name = "";
}
probe_to_proto (http path expected_status) = record {
  kind = 2;
  http_path = path;
  http_expected_status = expected_status;
  grpc_service_name = "";
}
probe_to_proto (grpc service_name) = record {
  kind = 3;
  http_path = "";
  http_expected_status = 0;
  grpc_service_name = service_name;
}

unfoldable pub health_check_to_proto : HealthCheckConfig → Proto.HealthCheckConfig
health_check_to_proto c = record {
  probe = some (probe_to_proto c.probe);
  interval_ms = c.interval_ms;
  timeout_ms = c.timeout_ms;
  unhealthy_threshold = c.unhealthy_threshold;
  healthy_threshold = c.healthy_threshold;
}

unfoldable pub watch_event_type : DiscoveryEventKind → ℕ
watch_event_type instance_registered = 1
watch_event_type instance_updated = 2
watch_event_type instance_status_reported = 3
watch_event_type instance_renewed = 4
watch_event_type instance_deregistered = 5
watch_event_type config_published = 6
watch_event_type config_rolled_back = 7

unfoldable pub service_instance_to_proto : ServiceInstance → Proto.ServiceInstance
service_instance_to_proto i = record {
  namespace = i.namespace;
  environment = i.environment;
  service_name = i.service_name;
  instance_id = i.instance_id;
  endpoint = i.endpoint;
  protocol = i.protocol;
  version = i.version;
  region = i.region;
  zone = i.zone;
  weight = i.weight;
  priority = i.priority;
  status = instance_status_to_proto i.status;
  metadata = i.metadata;
  lease_id = i.lease_id;
  expires_at = some (timestamp_from_millis i.expires_at_ms);
  revision = i.revision;
  health_check = Option.map health_check_to_proto i.health_check;
}

unfoldable pub service_summary_to_proto : ServiceSummary → Proto.ServiceSummary
service_summary_to_proto s = record {
  namespace = s.namespace;
  environment = s.environment;
  service_name = s.service_name;
  active_instance_count = s.active_instance_count;
  latest_revision = s.latest_revision;
}

unfoldable pub config_release_to_proto : ConfigRelease → Proto.ConfigRelease
config_release_to_proto r =
    let (scope_type, application, service_name) = config_scope_to_proto_fields r.scope in
    record {
      release_id = r.release_id;
      draft_id = r.draft_id;
      namespace = r.namespace;
      environment = r.environment;
      group = r.group;
      key = r.key;
      format = config_format_to_proto r.format;
      value = r.value;
      scope_type = scope_type;
      application = application;
      service_name = service_name;
      content_hash = r.content_hash;
      published_by = r.published_by;
      published_at = some (timestamp_from_millis r.published_at_ms);
      revision = r.revision;
    }

abbrev config_value : String × EffectiveConfigValue → Proto.ConfigValue
config_value (key, v) = record {
  key = key;
  value = v.value;
  format = config_format_to_proto v.format;
  source_release_id = v.source_release_id;
  source_specificity = v.source_specificity;
  source_revision = v.source_revision;
}

-- The values come from a `BTreeMap`, in the order of their keys.
unfoldable pub effective_values_to_proto : Map String EffectiveConfigValue → List Proto.ConfigValue
effective_values_to_proto values = map config_value (sort_by (λ a b. text_leb a.0 b.0) values)

abbrev or_empty : Option String → String
or_empty none = ""
or_empty (some s) = s

abbrev last_revision : Option RegisterInstanceResult → ℕ
last_revision none = 0
last_revision (some r) = r.revision

-- `as u32` of the index of a batch keeps the lower 32 bits.
abbrev batch_error : BatchOperationError → Proto.BatchOperationError
batch_error e = record {
  index = e.index % 2 ^ 32;
  error_code = e.error_code;
  error_message = e.error_message;
}

abbrev registered_item : RegisterInstanceResult → Proto.RegisterInstanceResponse
registered_item r = record {
  lease_id = r.lease_id;
  expires_at = some (timestamp_from_millis r.expires_at_ms);
  metadata = none;
}

module _ (server_now : ℕ) (request_id trace_id : String) where
  unfoldable pub response_metadata : ℕ → Proto.ResponseMetadata
  response_metadata revision = record {
    request_id = request_id;
    trace_id = trace_id;
    server_time = some (timestamp_from_millis server_now);
    revision = revision;
  }

  unfoldable pub register_instance_response :
      RegisterInstanceResult → Proto.RegisterInstanceResponse
  register_instance_response r = record {
    lease_id = r.lease_id;
    expires_at = some (timestamp_from_millis r.expires_at_ms);
    metadata = some (response_metadata r.revision);
  }

  unfoldable pub batch_register_instances_response :
      BatchRegisterResult → Proto.BatchRegisterInstancesResponse
  batch_register_instances_response r = record {
    results = map registered_item r.results;
    errors = map batch_error r.errors;
    metadata = some (response_metadata (last_revision (last r.results)));
  }

  unfoldable pub renew_lease_response : RenewLeaseResult → Proto.RenewLeaseResponse
  renew_lease_response r = record {
    lease_id = r.lease_id;
    expires_at = some (timestamp_from_millis r.expires_at_ms);
    metadata = some (response_metadata r.revision);
  }

  unfoldable pub report_status_response :
      ReportInstanceStatusResult → Proto.ReportInstanceStatusResponse
  report_status_response r = record { metadata = some (response_metadata r.revision) }

  unfoldable pub discover_instances_response :
      DiscoverInstancesResult → Proto.DiscoverInstancesResponse
  discover_instances_response r = record {
    instances = map service_instance_to_proto r.instances;
    metadata = some (response_metadata r.revision);
    page = some (record { next_page_token = or_empty r.next_page_token });
  }

  unfoldable pub retrieve_instance_response : ServiceInstance → Proto.RetrieveInstanceResponse
  retrieve_instance_response i = record {
    instance = some (service_instance_to_proto i);
    metadata = some (response_metadata i.revision);
  }

  unfoldable pub retrieve_effective_config_response :
      EffectiveConfig → Proto.RetrieveEffectiveConfigResponse
  retrieve_effective_config_response r = record {
    values = effective_values_to_proto r.values;
    metadata = some (response_metadata r.revision);
  }

  unfoldable pub create_config_draft_response : String → String → Proto.CreateConfigDraftResponse
  create_config_draft_response draft_id content_hash = record {
    draft_id = draft_id;
    content_hash = content_hash;
    metadata = some (response_metadata 0);
  }

  unfoldable pub publish_config_response : ConfigRelease → Proto.PublishConfigResponse
  publish_config_response r = record {
    release_id = r.release_id;
    metadata = some (response_metadata r.revision);
  }

  unfoldable pub rollback_config_response : ConfigRelease → Proto.RollbackConfigResponse
  rollback_config_response r = record {
    release = some (config_release_to_proto r);
    metadata = some (response_metadata r.revision);
  }

  unfoldable pub list_services_response : ListServicesResult → Proto.ListServicesResponse
  list_services_response r = record {
    services = map service_summary_to_proto r.services;
    metadata = some (response_metadata r.revision);
    page = some (record { next_page_token = or_empty r.next_page_token });
  }
