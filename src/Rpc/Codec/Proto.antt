-- ===== src/Rpc/Codec/Proto.antt =====
-- proto/sdkwork/discovery: the messages of the services, as the generated code has them. A field of a
-- message type is optional; a field of an enumeration is the number of its value, an `i32` as a
-- 32-bit number.
use sdkwork_discovery.Prelude.{ℕ, String, Bool, Option, List}
use sdkwork_discovery.Prelude.Map.{Map}

-- google/protobuf/timestamp.proto
pub record Timestamp : Type 0 where
  pub seconds : ℕ
  pub nanos : ℕ

pub record ResponseMetadata : Type 0 where
  pub request_id : String
  pub trace_id : String
  pub server_time : Option Timestamp
  pub revision : ℕ

pub record HealthCheckProbe : Type 0 where
  pub kind : ℕ
  pub http_path : String
  pub http_expected_status : ℕ
  pub grpc_service_name : String

pub record HealthCheckConfig : Type 0 where
  pub probe : Option HealthCheckProbe
  pub interval_ms : ℕ
  pub timeout_ms : ℕ
  pub unhealthy_threshold : ℕ
  pub healthy_threshold : ℕ

pub record ServiceInstance : Type 0 where
  pub namespace : String
  pub environment : String
  pub service_name : String
  pub instance_id : String
  pub endpoint : String
  pub protocol : String
  pub version : String
  pub region : String
  pub zone : String
  pub weight : ℕ
  pub priority : ℕ
  pub status : ℕ
  pub metadata : Map String String
  pub lease_id : String
  pub expires_at : Option Timestamp
  pub revision : ℕ
  pub health_check : Option HealthCheckConfig

pub record ServiceSummary : Type 0 where
  pub namespace : String
  pub environment : String
  pub service_name : String
  pub active_instance_count : ℕ
  pub latest_revision : ℕ

pub record ConfigValue : Type 0 where
  pub key : String
  pub value : String
  pub format : ℕ
  pub source_release_id : String
  pub source_specificity : ℕ
  pub source_revision : ℕ

pub record ConfigRelease : Type 0 where
  pub release_id : String
  pub draft_id : String
  pub namespace : String
  pub environment : String
  pub group : String
  pub key : String
  pub format : ℕ
  pub value : String
  pub scope_type : ℕ
  pub application : String
  pub service_name : String
  pub content_hash : String
  pub published_by : String
  pub published_at : Option Timestamp
  pub revision : ℕ

pub record LabelFilter : Type 0 where
  pub key : String
  pub op : ℕ
  pub value : String

pub record BatchOperationError : Type 0 where
  pub index : ℕ
  pub error_code : String
  pub error_message : String

pub record PageRequest : Type 0 where
  pub page_size : ℕ
  pub page_token : String

pub record PageResponse : Type 0 where
  pub next_page_token : String

pub record RegisterInstanceRequest : Type 0 where
  pub namespace : String
  pub environment : String
  pub service_name : String
  pub instance_id : String
  pub endpoint : String
  pub protocol : String
  pub version : String
  pub region : String
  pub zone : String
  pub weight : ℕ
  pub priority : ℕ
  pub status : ℕ
  pub metadata : Map String String
  pub lease_ttl_seconds : ℕ
  pub expected_revision : Option ℕ
  pub persistent : Bool
  pub health_check : Option HealthCheckConfig

pub record RegisterInstanceResponse : Type 0 where
  pub lease_id : String
  pub expires_at : Option Timestamp
  pub metadata : Option ResponseMetadata

pub record BatchRegisterInstancesRequest : Type 0 where
  pub instances : List RegisterInstanceRequest

pub record BatchRegisterInstancesResponse : Type 0 where
  pub results : List RegisterInstanceResponse
  pub errors : List BatchOperationError
  pub metadata : Option ResponseMetadata

pub record RenewLeaseRequest : Type 0 where
  pub lease_id : String
  pub lease_ttl_seconds : ℕ

pub record RenewLeaseResponse : Type 0 where
  pub lease_id : String
  pub expires_at : Option Timestamp
  pub metadata : Option ResponseMetadata

pub record DeregisterInstanceRequest : Type 0 where
  pub namespace : String
  pub environment : String
  pub service_name : String
  pub instance_id : String

pub record DeregisterInstanceResponse : Type 0 where
  pub metadata : Option ResponseMetadata

pub record ReportInstanceStatusRequest : Type 0 where
  pub namespace : String
  pub environment : String
  pub service_name : String
  pub instance_id : String
  pub status : ℕ
  pub expected_revision : Option ℕ

pub record ReportInstanceStatusResponse : Type 0 where
  pub metadata : Option ResponseMetadata

pub record RetrieveInstanceRequest : Type 0 where
  pub namespace : String
  pub environment : String
  pub service_name : String
  pub instance_id : String

pub record RetrieveInstanceResponse : Type 0 where
  pub instance : Option ServiceInstance
  pub metadata : Option ResponseMetadata

pub record DiscoverInstancesRequest : Type 0 where
  pub namespace : String
  pub environment : String
  pub service_name : String
  pub healthy_only : Bool
  pub protocol : String
  pub label_filters : List LabelFilter
  pub sort_by : ℕ
  pub page : Option PageRequest

pub record DiscoverInstancesResponse : Type 0 where
  pub instances : List ServiceInstance
  pub metadata : Option ResponseMetadata
  pub page : Option PageResponse

pub record WatchServiceRequest : Type 0 where
  pub namespace : String
  pub environment : String
  pub service_name : String
  pub from_revision : ℕ

pub record WatchServiceResponse : Type 0 where
  pub event_type : ℕ
  pub instance : Option ServiceInstance
  pub metadata : Option ResponseMetadata

pub record RetrieveEffectiveConfigRequest : Type 0 where
  pub namespace : String
  pub environment : String
  pub application : String
  pub service_name : String
  pub group : String

pub record RetrieveEffectiveConfigResponse : Type 0 where
  pub values : List ConfigValue
  pub metadata : Option ResponseMetadata

pub record WatchConfigRequest : Type 0 where
  pub namespace : String
  pub environment : String
  pub application : String
  pub service_name : String
  pub group : String
  pub from_revision : ℕ

pub record WatchConfigResponse : Type 0 where
  pub event_type : ℕ
  pub release_id : String
  pub group : String
  pub key : String
  pub metadata : Option ResponseMetadata

pub record CreateConfigDraftRequest : Type 0 where
  pub namespace : String
  pub environment : String
  pub group : String
  pub key : String
  pub format : ℕ
  pub value : String
  pub scope_type : ℕ
  pub application : String
  pub service_name : String

pub record CreateConfigDraftResponse : Type 0 where
  pub draft_id : String
  pub content_hash : String
  pub metadata : Option ResponseMetadata

pub record PublishConfigRequest : Type 0 where
  pub draft_id : String

pub record PublishConfigResponse : Type 0 where
  pub release_id : String
  pub metadata : Option ResponseMetadata

pub record RollbackConfigRequest : Type 0 where
  pub source_release_id : String

pub record RollbackConfigResponse : Type 0 where
  pub release : Option ConfigRelease
  pub metadata : Option ResponseMetadata

pub record ListServicesRequest : Type 0 where
  pub namespace : String
  pub environment : String
  pub page : Option PageRequest

pub record ListServicesResponse : Type 0 where
  pub services : List ServiceSummary
  pub metadata : Option ResponseMetadata
  pub page : Option PageResponse
