-- ===== src/Rpc/Actor/Reached.antt =====
-- crates/sdkwork-discovery-rpc/src/{actor,health_probes}.rs over the in-memory store: the scans of
-- the timers, and any run of the actor, make the calls of the store that the messages stand for.
use sdkwork_discovery.Prelude.{
  ℕ, ◌<◌, ◌^◌, ◌≡◌, refl, sym, ap, ◌∙◌, String, List, [], ◌∷◌, ◌++◌, inl, inr, Option, none, some,
  Bool,
}
use mathlib.Core.Path.{subst}
use sdkwork_discovery.Prelude.Tests.{Bool-cases, ltb}
use sdkwork_discovery.Contract.Error.{Result-cases}
use sdkwork_discovery.Contract.Registry.{ServiceInstance, InstanceStatus}
use sdkwork_discovery.Contract.Health.{HealthCheckConfig, due_for_check}
use sdkwork_discovery.Memory.Store.{MemoryDiscoveryStore, new}
use sdkwork_discovery.Memory.Reads.{list_active_instances_with_health_check}
use sdkwork_discovery.Memory.Call.{Call, total_cost, step, run, reports}
use sdkwork_discovery.Memory.Leases.Writes.{IsValid}
use sdkwork_discovery.Memory.Leases.Runs.{run-IsValid}
use sdkwork_discovery.Core.Plane.{DiscoveryControlPlane}
use sdkwork_discovery.Core.Plane
use sdkwork_discovery.Rpc.Probes.{
  run_health_checks, check_instances, check_instance, check_due, probed_state, report_verdict,
  report_command, health_checker, verdict,
}
use sdkwork_discovery.Rpc.Actor.{Runtime, StoreOps}
use sdkwork_discovery.Rpc.Actor.Run.{
  ActorConfig, Message, command, scan_tick, gc_tick, health_tick, handle, run_actor,
  run_expiry_scan, run_event_gc,
}
use sdkwork_discovery.Rpc.Actor.Trace.{
  message_calls, report_calls, instance_calls, instances_calls, listed_calls,
}
use sdkwork_discovery.Rpc.Actor.Refine.{
  ops, run-append, run-none, guarded-run, dispatch_command-run,
}

module _ (hash : ℕ → ℕ → ℕ) (content_hash : String → String) (plane : DiscoveryControlPlane)
    (healthy : ServiceInstance → Bool) where
  abbrev store_ops : StoreOps MemoryDiscoveryStore
  store_ops = ops hash content_hash

  module _ (now_ms : ℕ) where
    report_verdict-run :
        (i : ServiceInstance) (v : Option InstanceStatus) (s : MemoryDiscoveryStore)
        → report_verdict store_ops plane healthy now_ms i v s
          ≡ run content_hash (report_calls plane healthy now_ms i v) s
    unfolding Plane.report_instance_status step report_command
    report_verdict-run i none s = sym (run-none hash content_hash s)
    report_verdict-run i (some status) s =
        guarded-run hash content_hash plane health_checker _
          (store_ops.report_instance_status (report_command i status now_ms))
          (reports (report_command i status now_ms)) s refl

    check_instance-run :
        (i : ServiceInstance) (config : Option HealthCheckConfig) (s : MemoryDiscoveryStore)
        → check_instance store_ops plane healthy now_ms i config s
          ≡ run content_hash (instance_calls plane healthy now_ms i config) s
    unfolding check_due step run
    check_instance-run i none s = refl
    check_instance-run i (some config) s =
        elim (Bool-cases (due_for_check i.health_check_state config now_ms)) [
          | inl e ↦
              let state = probed_state (healthy i) now_ms i.health_check_state in
              rw e (report_verdict-run i (verdict state config i.status) _)
          | inr e ↦ rw e refl
        ]

    check_instances-run :
        (is : List ServiceInstance) (s : MemoryDiscoveryStore)
        → check_instances store_ops plane healthy now_ms is s
          ≡ run content_hash (instances_calls plane healthy now_ms is) s
    unfolding check_instances
    check_instances-run [] s = sym (run-none hash content_hash s)
    check_instances-run (i ∷ is) s =
        check_instances-run is _
        ∙ ap (run content_hash (instances_calls plane healthy now_ms is))
            (check_instance-run i i.health_check s)
        ∙ sym (
            run-append hash content_hash (instance_calls plane healthy now_ms i i.health_check)
              (instances_calls plane healthy now_ms is) s)

    run_health_checks-run :
        (s : MemoryDiscoveryStore)
        → run_health_checks store_ops plane healthy now_ms s
          ≡ run content_hash
              (listed_calls plane healthy now_ms (list_active_instances_with_health_check s now_ms))
              s
    unfolding run_health_checks
    run_health_checks-run s =
        elim (Result-cases (list_active_instances_with_health_check s now_ms)) [
          | inl (e, h) ↦ rw (h, run_health_checks) (sym (run-none hash content_hash s))
          | inr (is, h) ↦ rw (h, run_health_checks) (check_instances-run is s)
        ]

  module _ (debug : Option String → String) (config : ActorConfig) where
    handle-run :
        (m : Message) (r : Runtime MemoryDiscoveryStore)
        → (handle debug healthy store_ops plane config m r).store
          ≡ run content_hash (message_calls plane healthy config m r) r.store
    unfolding handle message_calls run_expiry_scan run_event_gc step run Plane.expire_instances
        Plane.gc_watch_events
    handle-run (command t c) r = dispatch_command-run hash content_hash debug plane t c r
    handle-run (scan_tick now_ms) r =
        elim (Bool-cases (ltb 0 config.registry_expiry_scan_interval_ms)) [
          | inl e ↦ rw e refl
          | inr e ↦ rw e refl
        ]
    handle-run (gc_tick now_ms) r = elim (Bool-cases (ltb 0 config.event_gc_interval_ms)) [
      | inl e ↦ rw e refl
      | inr e ↦ rw e refl
    ]
    handle-run (health_tick now_ms) r =
        elim (Bool-cases (ltb 0 config.health_check_scan_interval_ms)) [
          | inl e ↦ rw e (run_health_checks-run now_ms r.store)
          | inr e ↦ rw e refl
        ]

    -- The calls of a run, message after message.
    unfoldable pub trace : List Message → Runtime MemoryDiscoveryStore → List Call
    trace [] r = []
    trace (m ∷ ms) r =
        message_calls plane healthy config m r
        ++ trace ms (handle debug healthy store_ops plane config m r)

    -- Whatever commands and timer ticks the actor handles over the in-memory store, and whatever
    -- the clocks, the rate limit and the probes answer: its store is the one that the calls make
    -- for which the messages stand, in their order. A command stands for its one call of the store,
    -- if the gate lets a write pass and the permissions, the tenant and the policy allow it, and
    -- for none otherwise; a read for none; the tick of a timer that is on for a scan, a collection,
    -- or the counters and status reports of the instances whose health check is due.
    pub run_actor-refines :
        (ms : List Message) (r : Runtime MemoryDiscoveryStore)
        → (run_actor debug healthy store_ops plane config ms r).store
          ≡ run content_hash (trace ms r) r.store
    unfolding run_actor trace
    run_actor-refines [] r = sym (run-none hash content_hash r.store)
    run_actor-refines (m ∷ ms) r =
        run_actor-refines ms _
        ∙ ap (run content_hash (trace ms _)) (handle-run m r)
        ∙ sym (
            run-append hash content_hash (message_calls plane healthy config m r) (trace ms _)
              r.store)

    -- An actor that began with the empty in-memory store has, after any commands and timer ticks
    -- whose calls may take fewer than 2 ^ 64 numbers, a store in which instances and leases agree.
    pub run_actor-IsValid :
        (ms : List Message) (r : Runtime MemoryDiscoveryStore)
        → r.store ≡ new
        → total_cost (trace ms r) < 2 ^ 64
        → IsValid (run_actor debug healthy store_ops plane config ms r).store
    run_actor-IsValid ms r fresh room =
        subst IsValid (sym (run_actor-refines ms r ∙ ap (run content_hash (trace ms r)) fresh))
          (run-IsValid content_hash (trace ms r) room)
