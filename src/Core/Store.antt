-- ===== src/Core/Store.antt =====
-- crates/sdkwork-discovery-storage-contract: the operations that a store offers the control plane,
-- and the in-memory store as one.
use sdkwork_discovery.Prelude.{ℕ, String, Option, List}
use sdkwork_discovery.Contract.Error.{DiscoveryResult, ok, Op}
use sdkwork_discovery.Contract.Registry.{
  RegisterInstanceCommand, RegisterInstanceResult, BatchRegisterResult, RenewLeaseCommand,
  RenewLeaseResult, ReportInstanceStatusCommand, ReportInstanceStatusResult,
  DeregisterInstanceResult, DiscoverInstancesQuery, DiscoverInstancesResult, RetrieveInstanceQuery,
  ServiceInstance, ListServicesQuery, ListServicesResult,
}
use sdkwork_discovery.Contract.Config.{
  CreateConfigDraftCommand, ConfigDraft, PublishConfigCommand, RollbackConfigCommand, ConfigRelease,
  RetrieveEffectiveConfigQuery, EffectiveConfig,
}
use sdkwork_discovery.Contract.Event.{DiscoveryEvent, WatchEventsQuery}
use sdkwork_discovery.Contract.Health.{HealthCheckRuntimeState}
use sdkwork_discovery.Memory.Store.{MemoryDiscoveryStore, InstanceKey}
use sdkwork_discovery.Memory.Register
use sdkwork_discovery.Memory.Lifecycle
use sdkwork_discovery.Memory.Expire
use sdkwork_discovery.Memory.Reads
use sdkwork_discovery.Memory.Config
use sdkwork_discovery.Memory.Config.Read
use sdkwork_discovery.Memory.Watch

-- The traits `RegistryStore`, `ConfigStore` and `WatchEventStore`, as the control plane uses them.
pub record StoreOps (S : Type 0) : Type 0 where
  pub register_instance : RegisterInstanceCommand → Op S RegisterInstanceResult
  pub batch_register_instances : List RegisterInstanceCommand → Op S BatchRegisterResult
  pub renew_lease : RenewLeaseCommand → Op S RenewLeaseResult
  pub report_instance_status : ReportInstanceStatusCommand → Op S ReportInstanceStatusResult
  pub deregister_instance : InstanceKey → ℕ → Op S DeregisterInstanceResult
  pub expire_instances : ℕ → ℕ → Op S (List DeregisterInstanceResult)
  pub discover_instances : S → DiscoverInstancesQuery → ℕ → DiscoveryResult DiscoverInstancesResult
  pub retrieve_instance : S → RetrieveInstanceQuery → ℕ → DiscoveryResult (Option ServiceInstance)
  pub list_services : S → ListServicesQuery → ℕ → DiscoveryResult ListServicesResult
  pub create_config_draft : CreateConfigDraftCommand → Op S ConfigDraft
  pub publish_config : PublishConfigCommand → Op S ConfigRelease
  pub rollback_config : RollbackConfigCommand → Op S ConfigRelease
  pub retrieve_effective_config : S → RetrieveEffectiveConfigQuery → DiscoveryResult EffectiveConfig
  pub watch_events : S → WatchEventsQuery → DiscoveryResult (List DiscoveryEvent)
  pub gc_watch_events : ℕ → ℕ → Op S ℕ
  pub current_revision : S → DiscoveryResult ℕ
  pub list_active_instances_with_health_check : S → ℕ → DiscoveryResult (List ServiceInstance)
  pub update_health_check_state : InstanceKey → HealthCheckRuntimeState → Op S (Unit {0})

abbrev pub memory_ops : (ℕ → ℕ → ℕ) → (String → String) → StoreOps MemoryDiscoveryStore
memory_ops hash content_hash = record {
  register_instance = Register.register_instance;
  batch_register_instances = Register.batch_register_instances;
  renew_lease = Lifecycle.renew_lease;
  report_instance_status = Lifecycle.report_instance_status;
  deregister_instance = Lifecycle.deregister_instance;
  expire_instances = Expire.expire_instances;
  discover_instances = Reads.discover_instances hash;
  retrieve_instance = Reads.retrieve_instance;
  list_services = Reads.list_services;
  create_config_draft = Config.create_config_draft content_hash;
  publish_config = Config.publish_config;
  rollback_config = Config.rollback_config;
  retrieve_effective_config = Read.retrieve_effective_config;
  watch_events = Watch.watch_events;
  gc_watch_events = Watch.gc_watch_events;
  current_revision = λ s. ok s.revision;
  list_active_instances_with_health_check = Reads.list_active_instances_with_health_check;
  update_health_check_state = Lifecycle.update_health_check_state;
}
