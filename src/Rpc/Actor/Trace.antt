-- ===== src/Rpc/Actor/Trace.antt =====
-- crates/sdkwork-discovery-rpc/src/{actor,health_probes}.rs: which calls of the store each message of
-- the actor stands for, said apart from the handling. A command is one call of the store, if the gate
-- and the checks for the command let it pass; a read is none; a timer's tick is none if it is off.
use sdkwork_discovery.Prelude.{ℕ, ◌-◌, Bool, List, [], ◌∷◌, ◌++◌, Option, none, some}
use sdkwork_discovery.Prelude.Tests.{ltb, if◌then◌else◌}
use sdkwork_discovery.Contract.Error.{DiscoveryResult, ok, err, ◌>>◌}
use sdkwork_discovery.Contract.Registry.{ServiceInstance, RegisterInstanceCommand, InstanceStatus}
use sdkwork_discovery.Contract.Health.{HealthCheckConfig, due_for_check}
use sdkwork_discovery.Contract.Context.{CallerContext, RegistryPermission, ConfigPermission}
use sdkwork_discovery.Memory.Store.{MemoryDiscoveryStore}
use sdkwork_discovery.Memory.Reads.{list_active_instances_with_health_check}
use sdkwork_discovery.Memory.Call.{
  Call, registers, registers_all, renews, reports, deregisters, expires, checks, drafts, publishes,
  rolls_back, collects,
}
use sdkwork_discovery.Core.Policy.{
  require_registry_permission, require_config_permission, require_namespace_tenant_access,
  require_config_registry_enabled, validate_config_policy, validate_registry_lease_ttl,
}
use sdkwork_discovery.Core.Plane.{DiscoveryControlPlane}
use sdkwork_discovery.Rpc.Resilience.{gate, write}
use sdkwork_discovery.Rpc.Probes.{
  instance_key, probed_state, report_command, health_checker, verdict,
}
use sdkwork_discovery.Rpc.Actor.{
  Runtime, Readings, RuntimeCommand, register_instance, batch_register_instances, renew_lease,
  deregister_instance, expire_instances, report_instance_status, discover_instances,
  retrieve_instance, list_services, create_config_draft, publish_config, rollback_config,
  retrieve_effective_config, watch_registry_events, watch_config_events,
}
use sdkwork_discovery.Rpc.Actor.Run.{ActorConfig, Message, command, scan_tick, gc_tick, health_tick}

abbrev pub when_ok : DiscoveryResult (Unit {0}) → List Call → List Call
when_ok (ok u) cs = cs
when_ok (err e) cs = []

-- The calls of the store that a command is for.
abbrev pub store_calls : RuntimeCommand → List Call
store_calls (register_instance caller c) = registers c ∷ []
store_calls (batch_register_instances caller cs) = registers_all cs ∷ []
store_calls (renew_lease caller c) = renews c ∷ []
store_calls (deregister_instance caller key now_ms) = deregisters key now_ms ∷ []
store_calls (expire_instances now_ms max_instances) = expires now_ms max_instances ∷ []
store_calls (report_instance_status caller c) = reports c ∷ []
store_calls (discover_instances caller q now_ms) = []
store_calls (retrieve_instance caller q now_ms) = []
store_calls (list_services caller q now_ms) = []
store_calls (create_config_draft caller c) = drafts c ∷ []
store_calls (publish_config caller c) = publishes c ∷ []
store_calls (rollback_config caller c) = rolls_back c ∷ []
store_calls (retrieve_effective_config caller q) = []
store_calls (watch_registry_events caller q) = []
store_calls (watch_config_events caller q) = []

module _ (plane : DiscoveryControlPlane) where
  abbrev pub may_register : CallerContext → RegisterInstanceCommand → DiscoveryResult (Unit {0})
  may_register caller c =
      require_namespace_tenant_access caller c.namespace
      >> validate_registry_lease_ttl plane.registry_policy c.lease_ttl_seconds

  abbrev pub may_register_all :
      CallerContext → List RegisterInstanceCommand → DiscoveryResult (Unit {0})
  may_register_all caller [] = ok tt
  may_register_all caller (c ∷ cs) = may_register caller c >> may_register_all caller cs

  -- What is asked of the caller and of the command before a call.
  abbrev pub required : RuntimeCommand → DiscoveryResult (Unit {0})
  required (register_instance caller c) =
      require_registry_permission caller RegistryPermission.write >> may_register caller c
  required (batch_register_instances caller cs) =
      require_registry_permission caller RegistryPermission.write >> may_register_all caller cs
  required (renew_lease caller c) =
      require_registry_permission caller RegistryPermission.write
      >> validate_registry_lease_ttl plane.registry_policy c.lease_ttl_seconds
  required (deregister_instance caller key now_ms) =
      require_registry_permission caller RegistryPermission.write
      >> require_namespace_tenant_access caller key.namespace
  required (expire_instances now_ms max_instances) = ok tt
  required (report_instance_status caller c) =
      require_registry_permission caller RegistryPermission.write
      >> require_namespace_tenant_access caller c.namespace
  required (discover_instances caller q now_ms) = ok tt
  required (retrieve_instance caller q now_ms) = ok tt
  required (list_services caller q now_ms) = ok tt
  required (create_config_draft caller c) =
      require_config_permission caller ConfigPermission.publish
      >> (require_namespace_tenant_access caller c.namespace
          >> (require_config_registry_enabled plane.config_policy
              >> validate_config_policy plane.parsers plane.config_policy c.format c.value))
  required (publish_config caller c) =
      require_config_permission caller ConfigPermission.publish
      >> require_config_registry_enabled plane.config_policy
  required (rollback_config caller c) =
      require_config_permission caller ConfigPermission.rollback
      >> require_config_registry_enabled plane.config_policy
  required (retrieve_effective_config caller q) = ok tt
  required (watch_registry_events caller q) = ok tt
  required (watch_config_events caller q) = ok tt

  abbrev pub command_calls : {S : Type 0} → Readings → RuntimeCommand → Runtime S → List Call
  command_calls t c r =
      when_ok (gate t.acquired t.at_gate write r.resilience).0
        (when_ok (required c) (store_calls c))

  module _ (healthy : ServiceInstance → Bool) (now_ms : ℕ) where
    abbrev pub report_calls : ServiceInstance → Option InstanceStatus → List Call
    report_calls i none = []
    report_calls i (some status) =
        when_ok
          (require_registry_permission health_checker RegistryPermission.write
            >> require_namespace_tenant_access health_checker i.namespace)
          (reports (report_command i status now_ms) ∷ [])

    -- An instance that is due has its counters written, and the status that they call for.
    abbrev pub instance_calls : ServiceInstance → Option HealthCheckConfig → List Call
    instance_calls i none = []
    instance_calls i (some config) =
        let state = probed_state (healthy i) now_ms i.health_check_state in
        if due_for_check i.health_check_state config now_ms
        then checks (instance_key i) state ∷ report_calls i (verdict state config i.status)
        else []

    abbrev pub instances_calls : List ServiceInstance → List Call
    instances_calls [] = []
    instances_calls (i ∷ is) = instance_calls i i.health_check ++ instances_calls is

    abbrev pub listed_calls : DiscoveryResult (List ServiceInstance) → List Call
    listed_calls (err e) = []
    listed_calls (ok is) = instances_calls is

  unfoldable pub message_calls :
      (ServiceInstance → Bool) → ActorConfig → Message → Runtime MemoryDiscoveryStore → List Call
  message_calls healthy config (command t c) r = command_calls t c r
  message_calls healthy config (scan_tick now_ms) r =
      if ltb 0 config.registry_expiry_scan_interval_ms
      then expires now_ms config.registry_expiry_scan_batch_size ∷ []
      else []
  message_calls healthy config (gc_tick now_ms) r =
      if ltb 0 config.event_gc_interval_ms
      then collects (r.store.revision - config.event_gc_retention_count) config.event_gc_batch_size
        ∷ []
      else []
  message_calls healthy config (health_tick now_ms) r =
      if ltb 0 config.health_check_scan_interval_ms
      then listed_calls healthy now_ms (list_active_instances_with_health_check r.store now_ms)
      else []
