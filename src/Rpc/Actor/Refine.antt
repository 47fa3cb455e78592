-- ===== src/Rpc/Actor/Refine.antt =====
-- crates/sdkwork-discovery-rpc/src/actor.rs over the in-memory store: the handling of a command makes
-- the calls of the store that the command stands for.
use sdkwork_discovery.Prelude.{
  ℕ, ◌≡◌, refl, sym, ap, ◌∙◌, String, List, [], ◌∷◌, ◌++◌, Option, inl, inr,
}
use sdkwork_discovery.Contract.Error.{DiscoveryResult, Result-cases, ok, err, Op, ◌>>◌}
use sdkwork_discovery.Contract.Event.{DiscoveryEvent}
use sdkwork_discovery.Contract.Context.{CallerContext, RegistryPermission}
use sdkwork_discovery.Contract.Registry.{RegisterInstanceCommand}
use sdkwork_discovery.Memory.Store.{MemoryDiscoveryStore}
use sdkwork_discovery.Memory.Call.{Call, step, run, registers_all}
use sdkwork_discovery.Core.Policy.{require_registry_permission}
use sdkwork_discovery.Core.Store.{memory_ops, StoreOps}
use sdkwork_discovery.Core.Plane.{check_register, check_all, DiscoveryControlPlane, guarded}
use sdkwork_discovery.Core.Plane
use sdkwork_discovery.Rpc.Resilience.{gate, write}
use sdkwork_discovery.Rpc.Actor.{
  Runtime, Readings, RuntimeCommand, register_instance, batch_register_instances, renew_lease,
  deregister_instance, expire_instances, report_instance_status, discover_instances,
  retrieve_instance, list_services, create_config_draft, publish_config, rollback_config,
  retrieve_effective_config, watch_registry_events, watch_config_events, write_command,
  finish_write,
}
use sdkwork_discovery.Rpc.Actor.Dispatch.{dispatch_command}
use sdkwork_discovery.Rpc.Actor.Effects.{read_command-keeps}
use sdkwork_discovery.Rpc.Actor.Trace.{when_ok, command_calls, may_register_all}

module _ (hash : ℕ → ℕ → ℕ) (content_hash : String → String) where
  abbrev pub ops : StoreOps MemoryDiscoveryStore
  ops = memory_ops hash content_hash

  pub run-append :
      (cs ds : List Call) (s : MemoryDiscoveryStore)
      → run content_hash (cs ++ ds) s ≡ run content_hash ds (run content_hash cs s)
  unfolding run
  run-append [] ds s = refl
  run-append (c ∷ cs) ds s = run-append cs ds (step content_hash c s)

  pub run-one :
      (c : Call) (s : MemoryDiscoveryStore) → run content_hash (c ∷ []) s ≡ step content_hash c s
  unfolding run
  run-one c s = refl

  pub run-none : (s : MemoryDiscoveryStore) → run content_hash [] s ≡ s
  unfolding run
  run-none s = refl

  -- An operation behind checks is its call, where they pass.
  pub guarded-run :
      {A : Type 0} (plane : DiscoveryControlPlane) (caller : CallerContext)
      (passed : DiscoveryResult (Unit {0})) (op : Op MemoryDiscoveryStore A) (c : Call)
      (s : MemoryDiscoveryStore)
      → (op s).1 ≡ step content_hash c s
      → (guarded ops plane caller passed op s).1 ≡ run content_hash (when_ok passed (c ∷ [])) s
  guarded-run plane caller (err e) op c s done = sym (run-none s)
  guarded-run plane caller (ok u) op c s done = done ∙ sym (run-one c s)

  -- A write of the actor is what its operation is, where the gate lets it pass.
  write-run :
      {A : Type 0} (op : Op MemoryDiscoveryStore A)
      (publish : MemoryDiscoveryStore → DiscoveryResult A → List DiscoveryEvent) (t : Readings)
      (r : Runtime MemoryDiscoveryStore) (cs : List Call)
      → (op r.store).1 ≡ run content_hash cs r.store
      → (write_command op publish t r).1.store
        ≡ run content_hash (when_ok (gate t.acquired t.at_gate write r.resilience).0 cs) r.store
  unfolding write_command finish_write
  write-run op publish t r cs done =
      elim (Result-cases (gate t.acquired t.at_gate write r.resilience).0) [
        | inl (e, h) ↦ rw (h, write_command) (sym (run-none r.store))
        | inr (u, h) ↦ rw (h, write_command) done
      ]

  -- A read of the actor makes no call, whatever the gate says.
  when_ok-none :
      (passed : DiscoveryResult (Unit {0})) (s : MemoryDiscoveryStore)
      → run content_hash (when_ok passed []) s ≡ s
  when_ok-none (ok u) s = run-none s
  when_ok-none (err e) s = run-none s

  module _ (debug : Option String → String) (plane : DiscoveryControlPlane) where
    check_all-required :
        (caller : CallerContext) (cs : List RegisterInstanceCommand)
        → check_all ops plane caller cs ≡ may_register_all plane caller cs
    unfolding check_all check_register
    check_all-required caller [] = refl
    check_all-required caller (c ∷ cs) = rw (check_all-required caller cs) refl

    pub dispatch_command-run :
        (t : Readings) (c : RuntimeCommand) (r : Runtime MemoryDiscoveryStore)
        → (dispatch_command debug ops plane t c r).1.store
          ≡ run content_hash (command_calls plane t c r) r.store
    unfolding dispatch_command step Plane.register_instance Plane.check_register
        Plane.batch_register_instances Plane.renew_lease Plane.deregister_instance
        Plane.expire_instances Plane.report_instance_status Plane.create_config_draft
        Plane.publish_config Plane.rollback_config
    dispatch_command-run t (register_instance caller c) r =
        write-run _ _ t r _ (guarded-run plane caller _ (ops.register_instance c) _ r.store refl)
    dispatch_command-run t (batch_register_instances caller cs) r = write-run _ _ t r _ (
        guarded-run plane caller _ (ops.batch_register_instances cs) (registers_all cs) r.store refl
        ∙ ap
            (λ checked.
              run content_hash
                (when_ok (require_registry_permission caller RegistryPermission.write >> checked)
                  (registers_all cs ∷ []))
                r.store)
            (check_all-required caller cs))
    dispatch_command-run t (renew_lease caller c) r =
        write-run _ _ t r _ (guarded-run plane caller _ (ops.renew_lease c) _ r.store refl)
    dispatch_command-run t (deregister_instance caller key now_ms) r =
        write-run _ _ t r _
          (guarded-run plane caller _ (ops.deregister_instance key now_ms) _ r.store refl)
    dispatch_command-run t (expire_instances now_ms max_instances) r =
        write-run _ _ t r _ (sym (run-one _ r.store))
    dispatch_command-run t (report_instance_status caller c) r =
        write-run _ _ t r _
          (guarded-run plane caller _ (ops.report_instance_status c) _ r.store refl)
    dispatch_command-run t (discover_instances caller q now_ms) r =
        (read_command-keeps _ _ _ _ t r).0 ∙ sym (when_ok-none _ r.store)
    dispatch_command-run t (retrieve_instance caller q now_ms) r =
        (read_command-keeps _ _ _ _ t r).0 ∙ sym (when_ok-none _ r.store)
    dispatch_command-run t (list_services caller q now_ms) r =
        (read_command-keeps _ _ _ _ t r).0 ∙ sym (when_ok-none _ r.store)
    dispatch_command-run t (create_config_draft caller c) r =
        write-run _ _ t r _ (guarded-run plane caller _ (ops.create_config_draft c) _ r.store refl)
    dispatch_command-run t (publish_config caller c) r =
        write-run _ _ t r _ (guarded-run plane caller _ (ops.publish_config c) _ r.store refl)
    dispatch_command-run t (rollback_config caller c) r =
        write-run _ _ t r _ (guarded-run plane caller _ (ops.rollback_config c) _ r.store refl)
    dispatch_command-run t (retrieve_effective_config caller q) r =
        (read_command-keeps _ _ _ _ t r).0 ∙ sym (when_ok-none _ r.store)
    dispatch_command-run t (watch_registry_events caller q) r =
        (read_command-keeps _ _ _ _ t r).0 ∙ sym (when_ok-none _ r.store)
    dispatch_command-run t (watch_config_events caller q) r =
        (read_command-keeps _ _ _ _ t r).0 ∙ sym (when_ok-none _ r.store)
