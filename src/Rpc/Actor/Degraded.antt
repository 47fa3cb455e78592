-- ===== src/Rpc/Actor/Degraded.antt =====
-- crates/sdkwork-discovery-rpc/src/actor.rs: the actor in read-only degradation, over any store.
use sdkwork_discovery.Prelude.{◌≡◌, String, Option}
use sdkwork_discovery.Core.Store.{StoreOps}
use sdkwork_discovery.Core.Plane.{DiscoveryControlPlane}
use sdkwork_discovery.Rpc.Resilience.{read_only}
use sdkwork_discovery.Rpc.Actor.{
  Runtime, Readings, RuntimeCommand, register_instance, batch_register_instances, renew_lease,
  deregister_instance, expire_instances, report_instance_status, discover_instances,
  retrieve_instance, list_services, create_config_draft, publish_config, rollback_config,
  retrieve_effective_config, watch_registry_events, watch_config_events,
}
use sdkwork_discovery.Rpc.Actor.Dispatch.{dispatch_command}
use sdkwork_discovery.Rpc.Actor.Effects.{write_command-degraded, read_command-keeps}

-- A runtime that is in read-only degradation handles every command, of any caller, at any time and
-- over any store, without a change to its store and without an event on its streams.
pub degraded-keeps :
    {S : Type 0} (debug : Option String → String) (ops : StoreOps S) (plane : DiscoveryControlPlane)
    (t : Readings) (c : RuntimeCommand) (r : Runtime S)
    → r.resilience.degradation ≡ read_only
    → ((dispatch_command debug ops plane t c r).1.store ≡ r.store)
      × ((dispatch_command debug ops plane t c r).1.streamed ≡ r.streamed)
unfolding dispatch_command
degraded-keeps debug ops plane t (register_instance caller c) r h = write_command-degraded _ _ t r h
degraded-keeps debug ops plane t (batch_register_instances caller cs) r h =
    write_command-degraded _ _ t r h
degraded-keeps debug ops plane t (renew_lease caller c) r h = write_command-degraded _ _ t r h
degraded-keeps debug ops plane t (deregister_instance caller key now_ms) r h =
    write_command-degraded _ _ t r h
degraded-keeps debug ops plane t (expire_instances now_ms max_instances) r h =
    write_command-degraded _ _ t r h
degraded-keeps debug ops plane t (report_instance_status caller c) r h =
    write_command-degraded _ _ t r h
degraded-keeps debug ops plane t (discover_instances caller q now_ms) r h =
    read_command-keeps _ _ _ _ t r
degraded-keeps debug ops plane t (retrieve_instance caller q now_ms) r h =
    read_command-keeps _ _ _ _ t r
degraded-keeps debug ops plane t (list_services caller q now_ms) r h =
    read_command-keeps _ _ _ _ t r
degraded-keeps debug ops plane t (create_config_draft caller c) r h =
    write_command-degraded _ _ t r h
degraded-keeps debug ops plane t (publish_config caller c) r h = write_command-degraded _ _ t r h
degraded-keeps debug ops plane t (rollback_config caller c) r h = write_command-degraded _ _ t r h
degraded-keeps debug ops plane t (retrieve_effective_config caller q) r h =
    read_command-keeps _ _ _ _ t r
degraded-keeps debug ops plane t (watch_registry_events caller q) r h =
    read_command-keeps _ _ _ _ t r
degraded-keeps debug ops plane t (watch_config_events caller q) r h = read_command-keeps _ _ _ _ t r
