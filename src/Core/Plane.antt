-- ===== src/Core/Plane.antt =====
-- crates/sdkwork-discovery-core/src/control_plane.rs: `DiscoveryControlPlane`, over any store.
use sdkwork_discovery.Prelude.{ℕ, Option, List, [], ◌∷◌}
use sdkwork_discovery.Contract.Error.{DiscoveryResult, ok, err, ◌>>=◌, ◌>>◌, Op}
use sdkwork_discovery.Contract.Registry.{
  RegisterInstanceCommand, RegisterInstanceResult, BatchRegisterResult, RenewLeaseCommand,
  RenewLeaseResult, ReportInstanceStatusCommand, ReportInstanceStatusResult,
  DeregisterInstanceResult, DiscoverInstancesQuery, DiscoverInstancesResult, RetrieveInstanceQuery,
  ServiceInstance, ListServicesQuery, ListServicesResult,
}
use sdkwork_discovery.Contract.Config.{
  CreateConfigDraftCommand, ConfigDraft, PublishConfigCommand, RollbackConfigCommand, ConfigRelease,
  RetrieveEffectiveConfigQuery, EffectiveConfig,
}
use sdkwork_discovery.Contract.Context.{CallerContext, RegistryPermission, ConfigPermission}
use sdkwork_discovery.Contract.Event.{DiscoveryEvent, WatchEventsQuery}
use sdkwork_discovery.Memory.Store.{InstanceKey}
use sdkwork_discovery.Core.Store.{StoreOps}
use sdkwork_discovery.Core.Policy.{
  ConfigPolicy, RegistryPolicy, Parsers, require_registry_permission, require_config_permission,
  require_namespace_tenant_access, require_config_registry_enabled, validate_config_policy,
  validate_effective_config_read_policy, validate_registry_lease_ttl,
}

-- The policies do not change; the store is the state of each operation.
pub record DiscoveryControlPlane : Type 0 where
  pub parsers : Parsers
  pub config_policy : ConfigPolicy
  pub registry_policy : RegistryPolicy

module _ {S : Type 0} (ops : StoreOps S) (plane : DiscoveryControlPlane)
    (caller : CallerContext) where
  -- The checks, then the operation: an error of a check leaves the store alone.
  abbrev pub guarded : {A : Type 0} → DiscoveryResult (Unit {0}) → Op S A → Op S A
  guarded checks op s = elim checks [ err e ↦ (err e, s) | ok _ ↦ op s ]

  unfoldable pub check_register : RegisterInstanceCommand → DiscoveryResult (Unit {0})
  check_register c = do
    require_namespace_tenant_access caller c.namespace
    validate_registry_lease_ttl plane.registry_policy c.lease_ttl_seconds

  unfoldable pub register_instance : RegisterInstanceCommand → Op S RegisterInstanceResult
  unfolding check_register
  register_instance c =
      guarded (require_registry_permission caller RegistryPermission.write >> check_register c)
        (ops.register_instance c)

  -- The loop over the commands, before any of them is stored.
  unfoldable pub check_all : List RegisterInstanceCommand → DiscoveryResult (Unit {0})
  unfolding check_register
  check_all [] = ok tt
  check_all (c ∷ cs) = check_register c >> check_all cs

  unfoldable pub batch_register_instances : List RegisterInstanceCommand → Op S BatchRegisterResult
  unfolding check_all
  batch_register_instances cs =
      guarded (require_registry_permission caller RegistryPermission.write >> check_all cs)
        (ops.batch_register_instances cs)

  unfoldable pub report_instance_status :
      ReportInstanceStatusCommand → Op S ReportInstanceStatusResult
  report_instance_status c =
      guarded
        (require_registry_permission caller RegistryPermission.write
          >> require_namespace_tenant_access caller c.namespace)
        (ops.report_instance_status c)

  unfoldable pub renew_lease : RenewLeaseCommand → Op S RenewLeaseResult
  renew_lease c =
      guarded
        (require_registry_permission caller RegistryPermission.write
          >> validate_registry_lease_ttl plane.registry_policy c.lease_ttl_seconds)
        (ops.renew_lease c)

  unfoldable pub deregister_instance : InstanceKey → ℕ → Op S DeregisterInstanceResult
  deregister_instance key now_ms =
      guarded
        (require_registry_permission caller RegistryPermission.write
          >> require_namespace_tenant_access caller key.namespace)
        (ops.deregister_instance key now_ms)

  unfoldable pub discover_instances :
      S → DiscoverInstancesQuery → ℕ → DiscoveryResult DiscoverInstancesResult
  discover_instances s query now_ms = do
    require_registry_permission caller RegistryPermission.read
    require_namespace_tenant_access caller query.namespace
    ops.discover_instances s query now_ms

  unfoldable pub retrieve_instance :
      S → RetrieveInstanceQuery → ℕ → DiscoveryResult (Option ServiceInstance)
  retrieve_instance s query now_ms = do
    require_registry_permission caller RegistryPermission.read
    require_namespace_tenant_access caller query.namespace
    ops.retrieve_instance s query now_ms

  unfoldable pub list_services : S → ListServicesQuery → ℕ → DiscoveryResult ListServicesResult
  list_services s query now_ms = do
    require_registry_permission caller RegistryPermission.read
    require_namespace_tenant_access caller query.namespace
    ops.list_services s query now_ms

  unfoldable pub create_config_draft : CreateConfigDraftCommand → Op S ConfigDraft
  create_config_draft c =
      guarded
        (do
          require_config_permission caller ConfigPermission.publish
          require_namespace_tenant_access caller c.namespace
          require_config_registry_enabled plane.config_policy
          validate_config_policy plane.parsers plane.config_policy c.format c.value)
        (ops.create_config_draft c)

  unfoldable pub publish_config : PublishConfigCommand → Op S ConfigRelease
  publish_config c =
      guarded
        (require_config_permission caller ConfigPermission.publish
          >> require_config_registry_enabled plane.config_policy)
        (ops.publish_config c)

  unfoldable pub rollback_config : RollbackConfigCommand → Op S ConfigRelease
  rollback_config c =
      guarded
        (require_config_permission caller ConfigPermission.rollback
          >> require_config_registry_enabled plane.config_policy)
        (ops.rollback_config c)

  unfoldable pub retrieve_effective_config :
      S → RetrieveEffectiveConfigQuery → DiscoveryResult EffectiveConfig
  retrieve_effective_config s query = do
    require_config_permission caller ConfigPermission.read
    require_namespace_tenant_access caller query.namespace
    require_config_registry_enabled plane.config_policy
    effective ← ops.retrieve_effective_config s query
    validate_effective_config_read_policy plane.config_policy effective
    ok effective

  unfoldable pub watch_registry_events :
      S → WatchEventsQuery → DiscoveryResult (List DiscoveryEvent)
  watch_registry_events s query = do
    require_registry_permission caller RegistryPermission.read
    ops.watch_events s query

  unfoldable pub watch_config_events : S → WatchEventsQuery → DiscoveryResult (List DiscoveryEvent)
  watch_config_events s query = do
    require_config_permission caller ConfigPermission.read
    require_config_registry_enabled plane.config_policy
    ops.watch_events s query

-- The two operations of the runtime itself, without a caller or a check.
module _ {S : Type 0} (ops : StoreOps S) where
  unfoldable pub expire_instances : ℕ → ℕ → Op S (List DeregisterInstanceResult)
  expire_instances now_ms max_instances = ops.expire_instances now_ms max_instances

  unfoldable pub gc_watch_events : ℕ → ℕ → Op S ℕ
  gc_watch_events before_revision max_deletes = ops.gc_watch_events before_revision max_deletes
