-- ===== src/Rpc/Actor/Run.antt =====
-- crates/sdkwork-discovery-rpc/src/actor.rs: `run_actor`, a message after the other: a command, or a
-- tick of one of the three timers, which fire when their interval is positive.
use sdkwork_discovery.Prelude.{ℕ, ◌-◌, String, Bool, Option, List, [], ◌∷◌, ◌++◌}
use sdkwork_discovery.Prelude.Tests.{ltb, if◌then◌else◌}
use sdkwork_discovery.Contract.Error.{DiscoveryResult, ok, err}
use sdkwork_discovery.Contract.Registry.{ServiceInstance}
use sdkwork_discovery.Core.Store.{StoreOps}
use sdkwork_discovery.Core.Plane.{DiscoveryControlPlane}
use sdkwork_discovery.Core.Plane
use sdkwork_discovery.Rpc.Actor.{Runtime, Readings, RuntimeCommand, publish_deregisters}
use sdkwork_discovery.Rpc.Actor.Dispatch.{dispatch_command}
use sdkwork_discovery.Rpc.Probes.{run_health_checks}

-- The intervals and the limits of `DiscoveryRpcRuntimeConfig` that the loop reads.
pub record ActorConfig : Type 0 where
  pub registry_expiry_scan_interval_ms : ℕ
  pub registry_expiry_scan_batch_size : ℕ
  pub event_gc_interval_ms : ℕ
  pub event_gc_retention_count : ℕ
  pub event_gc_batch_size : ℕ
  pub health_check_scan_interval_ms : ℕ

-- `DiscoveryRpcRuntimeConfig::default()`
abbrev pub default_config : ActorConfig
default_config = record {
  registry_expiry_scan_interval_ms = 0;
  registry_expiry_scan_batch_size = 1000;
  event_gc_interval_ms = 60000;
  event_gc_retention_count = 10000;
  event_gc_batch_size = 1000;
  health_check_scan_interval_ms = 0;
}

pub data Message : Type 0 where
  command : Readings → RuntimeCommand → Message
  scan_tick gc_tick health_tick : ℕ → Message

module _ {S : Type 0} (ops : StoreOps S) where
  unfoldable pub run_expiry_scan : ℕ → ℕ → Runtime S → Runtime S
  run_expiry_scan now_ms max_instances r =
      let (result, s) = Plane.expire_instances ops now_ms max_instances r.store in
      record r { store = s; streamed = r.streamed ++ publish_deregisters ops s result }

  abbrev gc_from : ℕ → ℕ → S → DiscoveryResult ℕ → S
  gc_from retention_count batch_size s (err e) = s
  gc_from retention_count batch_size s (ok revision) =
      (Plane.gc_watch_events ops (revision - retention_count) batch_size s).1

  unfoldable pub run_event_gc : ℕ → ℕ → Runtime S → Runtime S
  run_event_gc retention_count batch_size r = record r {
    store = gc_from retention_count batch_size r.store (ops.current_revision r.store);
  }

module _ {S : Type 0} (debug : Option String → String) (healthy : ServiceInstance → Bool)
    (ops : StoreOps S) (plane : DiscoveryControlPlane) (config : ActorConfig) where
  unfoldable pub handle : Message → Runtime S → Runtime S
  handle (command t c) r = (dispatch_command debug ops plane t c r).1
  handle (scan_tick now_ms) r =
      if ltb 0 config.registry_expiry_scan_interval_ms
      then run_expiry_scan ops now_ms config.registry_expiry_scan_batch_size r
      else r
  handle (gc_tick now_ms) r =
      if ltb 0 config.event_gc_interval_ms
      then run_event_gc ops config.event_gc_retention_count config.event_gc_batch_size r
      else r
  handle (health_tick now_ms) r =
      if ltb 0 config.health_check_scan_interval_ms
      then record r { store = run_health_checks ops plane healthy now_ms r.store }
      else r

  unfoldable pub run_actor : List Message → Runtime S → Runtime S
  run_actor [] r = r
  run_actor (m ∷ ms) r = run_actor ms (handle m r)
