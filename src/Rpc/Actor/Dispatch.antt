-- ===== src/Rpc/Actor/Dispatch.antt =====
-- crates/sdkwork-discovery-rpc/src/actor.rs: `dispatch_command`, a case for each command.
use sdkwork_discovery.Prelude.{String, Option}
use sdkwork_discovery.Contract.Error.{Op}
use sdkwork_discovery.Core.Store.{StoreOps}
use sdkwork_discovery.Core.Plane.{DiscoveryControlPlane}
use sdkwork_discovery.Core.Plane
use sdkwork_discovery.Rpc.Keys
use sdkwork_discovery.Rpc.Actor.{
  Runtime, Readings, RuntimeCommand, register_instance, batch_register_instances, renew_lease,
  deregister_instance, expire_instances, report_instance_status, discover_instances,
  retrieve_instance, list_services, create_config_draft, publish_config, rollback_config,
  retrieve_effective_config, watch_registry_events, watch_config_events, Answer, publish_scoped,
  publish_renewal, publish_deregister, publish_deregisters, publish_release, publish_nothing,
  write_command, read_command,
}

module _ {S : Type 0} (debug : Option String → String) (ops : StoreOps S)
    (plane : DiscoveryControlPlane) where
  unfoldable pub dispatch_command : Readings → (c : RuntimeCommand) → Op (Runtime S) (Answer c)
  dispatch_command t (register_instance caller c) =
      write_command (Plane.register_instance ops plane caller c)
        (publish_scoped ops c.namespace c.environment (λ a. a.revision)) t
  dispatch_command t (batch_register_instances caller cs) =
      write_command (Plane.batch_register_instances ops plane caller cs) publish_nothing t
  dispatch_command t (renew_lease caller c) =
      write_command (Plane.renew_lease ops plane caller c) (publish_renewal ops) t
  dispatch_command t (deregister_instance caller key now_ms) =
      write_command (Plane.deregister_instance ops plane caller key now_ms) (publish_deregister ops)
        t
  dispatch_command t (expire_instances now_ms max_instances) =
      write_command (Plane.expire_instances ops now_ms max_instances) (publish_deregisters ops) t
  dispatch_command t (report_instance_status caller c) =
      write_command (Plane.report_instance_status ops plane caller c)
        (publish_scoped ops c.namespace c.environment (λ a. a.revision)) t
  dispatch_command t (discover_instances caller q now_ms) =
      read_command (λ reads. reads.discover_reads) (λ m reads. record reads { discover_reads = m })
        (Keys.discover_cache_key debug q)
        (λ s. Plane.discover_instances ops plane caller s q now_ms) t
  dispatch_command t (retrieve_instance caller q now_ms) =
      read_command (λ reads. reads.retrieve_reads) (λ m reads. record reads { retrieve_reads = m })
        (Keys.retrieve_instance_cache_key debug q)
        (λ s. Plane.retrieve_instance ops plane caller s q now_ms) t
  dispatch_command t (list_services caller q now_ms) =
      read_command (λ reads. reads.list_services_reads)
        (λ m reads. record reads { list_services_reads = m }) (Keys.list_services_cache_key debug q)
        (λ s. Plane.list_services ops plane caller s q now_ms) t
  dispatch_command t (create_config_draft caller c) =
      write_command (Plane.create_config_draft ops plane caller c) publish_nothing t
  dispatch_command t (publish_config caller c) =
      write_command (Plane.publish_config ops plane caller c) (publish_release ops) t
  dispatch_command t (rollback_config caller c) =
      write_command (Plane.rollback_config ops plane caller c) (publish_release ops) t
  dispatch_command t (retrieve_effective_config caller q) =
      read_command (λ reads. reads.effective_config_reads)
        (λ m reads. record reads { effective_config_reads = m })
        (Keys.effective_config_cache_key debug q)
        (λ s. Plane.retrieve_effective_config ops plane caller s q) t
  dispatch_command t (watch_registry_events caller q) =
      read_command (λ reads. reads.watch_reads) (λ m reads. record reads { watch_reads = m })
        (Keys.watch_events_cache_key debug q)
        (λ s. Plane.watch_registry_events ops plane caller s q) t
  dispatch_command t (watch_config_events caller q) =
      read_command (λ reads. reads.watch_reads) (λ m reads. record reads { watch_reads = m })
        (Keys.watch_events_cache_key debug q) (λ s. Plane.watch_config_events ops plane caller s q)
        t
