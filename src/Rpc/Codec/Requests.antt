-- ===== src/Rpc/Codec/Requests.antt =====
-- crates/sdkwork-discovery-rpc/src/codec.rs: the commands and queries of the requests.
use sdkwork_discovery.Prelude.{
  ℕ, ◌%◌, ◌^◌, String, ◌&&◌, ◌||◌, not, Option, none, some, List, [], ◌∷◌, map,
}
use sdkwork_discovery.Prelude.Tests.{◌==◌, nat_beq, if◌then◌else◌, text_eq}
use sdkwork_discovery.Prelude.Text.{is_blank}
use sdkwork_discovery.Contract.Error.{
  DiscoveryResult, ok, err, ◌>>=◌, ◌>>◌, ensure, invalid_argument,
}
use sdkwork_discovery.Contract.Health.{HealthCheckProbe, tcp, http, grpc, HealthCheckConfig}
use sdkwork_discovery.Contract.Registry.{
  RegisterInstanceCommand, RenewLeaseCommand, ReportInstanceStatusCommand, InstanceStatus, serving,
  degraded, not_serving, DiscoverInstancesQuery, RetrieveInstanceQuery, ListServicesQuery,
  LabelFilter, LabelFilterOp, eq, not_eq, in_list, exists, DiscoverSortBy, by_instance_id,
  by_priority, by_weight, by_weighted_random,
}
use sdkwork_discovery.Contract.Config.{
  ConfigFormat, text, json, toml, ConfigScope, namespace_scope, application_scope, service_scope,
  IdempotencyContext, CreateConfigDraftCommand, PublishConfigCommand, RollbackConfigCommand,
  RetrieveEffectiveConfigQuery,
}
use sdkwork_discovery.Contract.Pagination.{normalize_page_token}
use sdkwork_discovery.Rpc.Codec.Proto
use sdkwork_discovery.Rpc.Codec.Fields.{
  validate_identity_field, validate_endpoint_field, validate_short_text_field,
  validate_optional_short_text_field, validate_metadata, validate_label_filters,
}

unfoldable pub empty_string_as_none : String → Option String
empty_string_as_none value = if is_blank value then none else some value

unfoldable pub instance_status_from_proto : ℕ → DiscoveryResult InstanceStatus
instance_status_from_proto value =
    if nat_beq value 1
    then ok serving
    else if nat_beq value 2
    then ok degraded
    else if nat_beq value 3
    then ok not_serving
    else if nat_beq value 0
    then err (invalid_argument "instance status must be specified")
    else err (invalid_argument "instance status is not recognized")

unfoldable pub config_format_from_proto : ℕ → DiscoveryResult ConfigFormat
config_format_from_proto value =
    if nat_beq value 1
    then ok text
    else if nat_beq value 2
    then ok json
    else if nat_beq value 3
    then ok toml
    else if nat_beq value 0
    then err (invalid_argument "config format must be specified")
    else err (invalid_argument "config format is not recognized")

unfoldable pub config_scope_from_proto : ℕ → String → String → DiscoveryResult ConfigScope
config_scope_from_proto value application service_name =
    if nat_beq value 1
    then ok namespace_scope
    else if nat_beq value 2
    then (ensure (not (is_blank application))
          (invalid_argument "application config scope requires application")
        >> ok (application_scope application))
    else if nat_beq value 3
    then (ensure (not (is_blank application || is_blank service_name))
          (invalid_argument "service config scope requires application and service_name")
        >> ok (service_scope application service_name))
    else if nat_beq value 0
    then err (invalid_argument "config scope type must be specified")
    else err (invalid_argument "config scope type is not recognized")

-- `as u16` keeps the lower 16 bits.
unfoldable pub health_check_probe_from_proto :
    Proto.HealthCheckProbe → DiscoveryResult HealthCheckProbe
health_check_probe_from_proto p =
    if nat_beq p.kind 1
    then ok tcp
    else if nat_beq p.kind 2
    then ok (http p.http_path (p.http_expected_status % 2 ^ 16))
    else if nat_beq p.kind 3
    then ok (grpc p.grpc_service_name)
    else err (invalid_argument "health_check.probe kind is required")

abbrev probe_of : Option Proto.HealthCheckProbe → DiscoveryResult HealthCheckProbe
probe_of none = err (invalid_argument "health_check.probe is required")
probe_of (some p) = health_check_probe_from_proto p

unfoldable pub health_check_from_proto : Proto.HealthCheckConfig → DiscoveryResult HealthCheckConfig
health_check_from_proto c = do
  probe ← probe_of c.probe
  ok (record {
    probe = probe;
    interval_ms = c.interval_ms;
    timeout_ms = c.timeout_ms;
    unhealthy_threshold = c.unhealthy_threshold;
    healthy_threshold = c.healthy_threshold;
  })

-- `map(health_check_from_proto).transpose()`
abbrev pub health_check_if_some :
    Option Proto.HealthCheckConfig → DiscoveryResult (Option HealthCheckConfig)
health_check_if_some none = ok none
health_check_if_some (some c) = health_check_from_proto c >>= λ h. ok (some h)

unfoldable pub validate_instance_fields :
    String → String → String → String → DiscoveryResult (Unit {0})
validate_instance_fields namespace environment service_name instance_id = do
  validate_identity_field "namespace" namespace
  validate_identity_field "environment" environment
  validate_identity_field "service_name" service_name
  validate_identity_field "instance_id" instance_id

unfoldable pub validate_registration : Proto.RegisterInstanceRequest → DiscoveryResult (Unit {0})
validate_registration r = do
  validate_instance_fields r.namespace r.environment r.service_name r.instance_id
  validate_endpoint_field "endpoint" r.endpoint
  validate_short_text_field "protocol" r.protocol
  validate_short_text_field "version" r.version
  validate_short_text_field "region" r.region
  validate_short_text_field "zone" r.zone
  validate_metadata r.metadata
  ensure (not (nat_beq r.lease_ttl_seconds 0))
      (invalid_argument "lease_ttl_seconds must be greater than zero")

unfoldable pub register_instance_command :
    ℕ → Proto.RegisterInstanceRequest → DiscoveryResult RegisterInstanceCommand
register_instance_command now_ms r = do
  validate_registration r
  status ← instance_status_from_proto r.status
  health_check ← health_check_if_some r.health_check
  ok (record {
    namespace = r.namespace;
    environment = r.environment;
    service_name = r.service_name;
    instance_id = r.instance_id;
    endpoint = r.endpoint;
    protocol = r.protocol;
    version = r.version;
    region = r.region;
    zone = r.zone;
    weight = r.weight;
    priority = r.priority;
    status = status;
    metadata = r.metadata;
    lease_ttl_seconds = r.lease_ttl_seconds;
    now_ms = now_ms;
    expected_revision = r.expected_revision;
    persistent = r.persistent;
    health_check = health_check;
  })

-- `map(..).collect()` into a result.
unfoldable pub register_each :
    ℕ → List Proto.RegisterInstanceRequest → DiscoveryResult (List RegisterInstanceCommand)
register_each now_ms [] = ok []
register_each now_ms (r ∷ rs) =
    register_instance_command now_ms r >>= λ c. register_each now_ms rs >>= λ cs. ok (c ∷ cs)

unfoldable pub batch_register_instances_commands :
    ℕ → Proto.BatchRegisterInstancesRequest → DiscoveryResult (List RegisterInstanceCommand)
batch_register_instances_commands now_ms r = register_each now_ms r.instances

unfoldable pub renew_lease_command : ℕ → Proto.RenewLeaseRequest → DiscoveryResult RenewLeaseCommand
renew_lease_command now_ms r = do
  validate_identity_field "lease_id" r.lease_id
  ensure (not (nat_beq r.lease_ttl_seconds 0))
      (invalid_argument "lease_ttl_seconds must be greater than zero")
  ok (record { lease_id = r.lease_id; lease_ttl_seconds = r.lease_ttl_seconds; now_ms = now_ms })

unfoldable pub report_status_command :
    ℕ → Proto.ReportInstanceStatusRequest → DiscoveryResult ReportInstanceStatusCommand
report_status_command now_ms r = do
  validate_instance_fields r.namespace r.environment r.service_name r.instance_id
  status ← instance_status_from_proto r.status
  ok (record {
    namespace = r.namespace;
    environment = r.environment;
    service_name = r.service_name;
    instance_id = r.instance_id;
    status = status;
    now_ms = now_ms;
    expected_revision = r.expected_revision;
  })

unfoldable pub deregister_instance_request :
    Proto.DeregisterInstanceRequest → DiscoveryResult Proto.DeregisterInstanceRequest
deregister_instance_request r = do
  validate_instance_fields r.namespace r.environment r.service_name r.instance_id
  ok r

unfoldable pub label_filter_op_from_proto : ℕ → LabelFilterOp
label_filter_op_from_proto value =
    if nat_beq value 2
    then not_eq
    else if nat_beq value 3
    then in_list
    else if nat_beq value 4
    then exists
    else eq

abbrev label_filter : Proto.LabelFilter → LabelFilter
label_filter f = record { key = f.key; op = label_filter_op_from_proto f.op; value = f.value }

unfoldable pub sort_by_from_proto : ℕ → Option DiscoverSortBy
sort_by_from_proto value =
    if nat_beq value 1
    then some by_instance_id
    else if nat_beq value 2
    then some by_priority
    else if nat_beq value 3
    then some by_weight
    else if nat_beq value 4
    then some by_weighted_random
    else none

-- `request.page.unwrap_or_default()`
abbrev page_or_default : Option Proto.PageRequest → Proto.PageRequest
page_or_default none = record { page_size = 0; page_token = "" }
page_or_default (some page) = page

abbrev nonempty_token : String → Option String
nonempty_token token = if token == "" then none else some token

unfoldable pub discover_instances_query :
    Proto.DiscoverInstancesRequest → DiscoveryResult DiscoverInstancesQuery
discover_instances_query r = do
  validate_identity_field "namespace" r.namespace
  validate_identity_field "environment" r.environment
  validate_identity_field "service_name" r.service_name
  validate_optional_short_text_field "protocol" r.protocol
  validate_label_filters (map label_filter r.label_filters)
  ensure (not (not ((page_or_default r.page).page_token == "") && nat_beq r.sort_by 4))
      (invalid_argument "page_token is not supported with weighted-random discovery sorting")
  ok (record {
    namespace = r.namespace;
    environment = r.environment;
    service_name = r.service_name;
    healthy_only = r.healthy_only;
    protocol = empty_string_as_none r.protocol;
    label_filters = map label_filter r.label_filters;
    sort_by = sort_by_from_proto r.sort_by;
    page_size = (page_or_default r.page).page_size;
    page_token = normalize_page_token (nonempty_token (page_or_default r.page).page_token);
  })

unfoldable pub retrieve_instance_query :
    Proto.RetrieveInstanceRequest → DiscoveryResult RetrieveInstanceQuery
retrieve_instance_query r = do
  validate_instance_fields r.namespace r.environment r.service_name r.instance_id
  ok (record {
    namespace = r.namespace;
    environment = r.environment;
    service_name = r.service_name;
    instance_id = r.instance_id;
  })

unfoldable pub retrieve_effective_config_query :
    Proto.RetrieveEffectiveConfigRequest → DiscoveryResult RetrieveEffectiveConfigQuery
retrieve_effective_config_query r = do
  validate_identity_field "namespace" r.namespace
  validate_identity_field "environment" r.environment
  validate_identity_field "application" r.application
  validate_identity_field "service_name" r.service_name
  validate_identity_field "group" r.group
  ok (record {
    namespace = r.namespace;
    environment = r.environment;
    application = r.application;
    service_name = r.service_name;
    group = r.group;
  })

unfoldable pub create_config_draft_command :
    Proto.CreateConfigDraftRequest
    → String
    → IdempotencyContext
    → DiscoveryResult CreateConfigDraftCommand
create_config_draft_command r created_by idempotency = do
  validate_identity_field "namespace" r.namespace
  validate_identity_field "environment" r.environment
  validate_identity_field "group" r.group
  validate_identity_field "key" r.key
  format ← config_format_from_proto r.format
  scope ← config_scope_from_proto r.scope_type r.application r.service_name
  ok (record {
    namespace = r.namespace;
    environment = r.environment;
    group = r.group;
    key = r.key;
    format = format;
    value = r.value;
    scope = scope;
    created_by = created_by;
    idempotency = some idempotency;
  })

unfoldable pub publish_config_command :
    ℕ
    → Proto.PublishConfigRequest
    → String
    → IdempotencyContext
    → DiscoveryResult PublishConfigCommand
publish_config_command now_ms r published_by idempotency = do
  validate_identity_field "draft_id" r.draft_id
  ok (record {
    draft_id = r.draft_id;
    published_by = published_by;
    now_ms = now_ms;
    idempotency = some idempotency;
  })

unfoldable pub rollback_config_command :
    ℕ
    → Proto.RollbackConfigRequest
    → String
    → IdempotencyContext
    → DiscoveryResult RollbackConfigCommand
rollback_config_command now_ms r rolled_back_by idempotency = do
  validate_identity_field "source_release_id" r.source_release_id
  ok (record {
    source_release_id = r.source_release_id;
    rolled_back_by = rolled_back_by;
    now_ms = now_ms;
    idempotency = some idempotency;
  })

unfoldable pub list_services_query : Proto.ListServicesRequest → DiscoveryResult ListServicesQuery
list_services_query r = do
  validate_identity_field "namespace" r.namespace
  validate_identity_field "environment" r.environment
  ok (record {
    namespace = r.namespace;
    environment = r.environment;
    page_size = (page_or_default r.page).page_size;
    page_token = normalize_page_token (nonempty_token (page_or_default r.page).page_token);
  })
