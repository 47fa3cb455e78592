-- ===== src/Contract/Registry.antt =====
-- crates/sdkwork-discovery-contract/src/registry.rs: instances, commands, queries and results of
-- the registry.
use sdkwork_discovery.Prelude.{ℕ, String, Bool, true, false, Option, List}
use sdkwork_discovery.Prelude.Map.{Map}
use sdkwork_discovery.Contract.Health.{HealthCheckConfig, HealthCheckRuntimeState}

pub data InstanceStatus : Type 0 where
  serving degraded not_serving : InstanceStatus

unfoldable pub is_discoverable : InstanceStatus → Bool
is_discoverable serving = true
is_discoverable degraded = true
is_discoverable not_serving = false

pub record RegisterInstanceCommand : Type 0 where
  pub namespace : String
  pub environment : String
  pub service_name : String
  pub instance_id : String
  pub endpoint : String
  pub protocol : String
  pub version : String
  pub region : String
  pub zone : String
  pub weight : ℕ
  pub priority : ℕ
  pub status : InstanceStatus
  pub metadata : Map String String
  pub lease_ttl_seconds : ℕ
  pub now_ms : ℕ
  pub expected_revision : Option ℕ
  pub persistent : Bool
  pub health_check : Option HealthCheckConfig

pub record RegisterInstanceResult : Type 0 where
  pub lease_id : String
  pub namespace : String
  pub environment : String
  pub service_name : String
  pub instance_id : String
  pub revision : ℕ
  pub expires_at_ms : ℕ

pub record BatchOperationError : Type 0 where
  pub index : ℕ
  pub error_code : String
  pub error_message : String

pub record BatchRegisterResult : Type 0 where
  pub results : List RegisterInstanceResult
  pub errors : List BatchOperationError

pub record ReportInstanceStatusCommand : Type 0 where
  pub namespace : String
  pub environment : String
  pub service_name : String
  pub instance_id : String
  pub status : InstanceStatus
  pub now_ms : ℕ
  pub expected_revision : Option ℕ

pub record ReportInstanceStatusResult : Type 0 where
  pub revision : ℕ
  pub status : InstanceStatus

pub record RenewLeaseCommand : Type 0 where
  pub lease_id : String
  pub lease_ttl_seconds : ℕ
  pub now_ms : ℕ

pub record RenewLeaseResult : Type 0 where
  pub lease_id : String
  pub namespace : String
  pub environment : String
  pub service_name : String
  pub instance_id : String
  pub revision : ℕ
  pub expires_at_ms : ℕ

pub record DeregisterInstanceResult : Type 0 where
  pub namespace : String
  pub environment : String
  pub service_name : String
  pub instance_id : String
  pub revision : ℕ
  pub deregistered : Bool

pub data DiscoverSortBy : Type 0 where
  by_instance_id by_priority by_weight by_weighted_random : DiscoverSortBy

pub data LabelFilterOp : Type 0 where
  eq not_eq in_list exists : LabelFilterOp

pub record LabelFilter : Type 0 where
  pub key : String
  pub op : LabelFilterOp
  pub value : String

pub record DiscoverInstancesQuery : Type 0 where
  pub namespace : String
  pub environment : String
  pub service_name : String
  pub healthy_only : Bool
  pub protocol : Option String
  pub label_filters : List LabelFilter
  pub sort_by : Option DiscoverSortBy
  pub page_size : ℕ
  pub page_token : Option String

pub record RetrieveInstanceQuery : Type 0 where
  pub namespace : String
  pub environment : String
  pub service_name : String
  pub instance_id : String

pub record ServiceInstance : Type 0 where
  pub namespace : String
  pub environment : String
  pub service_name : String
  pub instance_id : String
  pub endpoint : String
  pub protocol : String
  pub version : String
  pub region : String
  pub zone : String
  pub weight : ℕ
  pub priority : ℕ
  pub status : InstanceStatus
  pub metadata : Map String String
  pub lease_id : String
  pub expires_at_ms : ℕ
  pub revision : ℕ
  pub health_check : Option HealthCheckConfig
  pub health_check_state : HealthCheckRuntimeState

pub record DiscoverInstancesResult : Type 0 where
  pub revision : ℕ
  pub instances : List ServiceInstance
  pub next_page_token : Option String

pub record ListServicesQuery : Type 0 where
  pub namespace : String
  pub environment : String
  pub page_size : ℕ
  pub page_token : Option String

pub record ServiceSummary : Type 0 where
  pub namespace : String
  pub environment : String
  pub service_name : String
  pub active_instance_count : ℕ
  pub latest_revision : ℕ

pub record ListServicesResult : Type 0 where
  pub revision : ℕ
  pub services : List ServiceSummary
  pub next_page_token : Option String
