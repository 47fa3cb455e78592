-- ===== src/Rpc/Actor/Healthy.antt =====
-- crates/sdkwork-discovery-rpc/src/{actor,health}.rs: the health that the probes see follows the
-- state of the runtime.
use sdkwork_discovery.Prelude.{
  ℕ, ◌≡◌, refl, sym, ap, ◌∙◌, String, Bool, true, List, Option, inl, inr, arith,
}
use sdkwork_discovery.Prelude.Tests.{Bool-cases, nat_beq}
use sdkwork_discovery.Contract.Error.{DiscoveryError, DiscoveryResult, err, Result-cases, Op}
use sdkwork_discovery.Contract.Event.{DiscoveryEvent}
use sdkwork_discovery.Core.Store.{StoreOps}
use sdkwork_discovery.Core.Plane.{DiscoveryControlPlane}
use sdkwork_discovery.Rpc.Breaker.{allow_request}
use sdkwork_discovery.Rpc.Resilience.{
  OperationType, RuntimeResilience, gate, read, write, resolve, record_result, serve_stale_reads,
  StaleReadCache,
}
use sdkwork_discovery.Rpc.Health.{
  DiscoveryHealthStatus, not_serving, serving, degraded, DiscoveryHealthState, as_gauge_value,
  from_u8, status, set, from_resilience, sync_from_resilience,
}
use sdkwork_discovery.Rpc.Actor.Dispatch.{dispatch_command}
use sdkwork_discovery.Rpc.Actor.{
  RuntimeCommand, register_instance, batch_register_instances, renew_lease, deregister_instance,
  expire_instances, report_instance_status, discover_instances, retrieve_instance, list_services,
  create_config_draft, publish_config, rollback_config, retrieve_effective_config,
  watch_registry_events, watch_config_events, Runtime, Readings, StaleReads, write_command,
  finish_write, read_command, finish_read,
}

cell-status : (s : DiscoveryHealthStatus) → from_u8 (as_gauge_value s) ≡ s
unfolding from_u8 as_gauge_value
cell-status not_serving = refl
cell-status serving = refl
cell-status degraded = refl

same_number :
    (a b : DiscoveryHealthStatus) → nat_beq (as_gauge_value a) (as_gauge_value b) ≡ true → a ≡ b
same_number a b h =
    let e : as_gauge_value a ≡ as_gauge_value b = ground (arith, h) in
    sym (cell-status a) ∙ ap from_u8 e ∙ cell-status b

-- After a synchronisation the cell shows the status of the runtime.
sync-status :
    (r : RuntimeResilience) (h : DiscoveryHealthState)
    → status (sync_from_resilience r h).1 ≡ from_resilience r
unfolding sync_from_resilience set
sync-status r h =
    elim (Bool-cases (nat_beq (as_gauge_value (status h)) (as_gauge_value (from_resilience r)))) [
      | inl e ↦ rw e (same_number (status h) (from_resilience r) e)
      | inr e ↦ rw e (cell-status (from_resilience r))
    ]

-- A gate that refuses leaves the runtime in the state it was in.
gate-refuses :
    (acquired : Bool) (now : ℕ) (operation : OperationType) (r : RuntimeResilience)
    (e : DiscoveryError)
    → (gate acquired now operation r).0 ≡ err e
    → from_resilience (gate acquired now operation r).1 ≡ from_resilience r
unfolding gate from_resilience allow_request
gate-refuses acquired now operation r e h = ground (arith, h)

-- The health that is shown is the one of the runtime.
abbrev pub ShowsHealth : {S : Type 0} → Runtime S → Type 0
ShowsHealth r = status r.health ≡ from_resilience r.resilience

write_command-ShowsHealth :
    {S A : Type 0} (op : Op S A) (publish : S → DiscoveryResult A → List DiscoveryEvent)
    (t : Readings) (r : Runtime S)
    → ShowsHealth r
    → ShowsHealth (write_command op publish t r).1
unfolding write_command finish_write
write_command-ShowsHealth op publish t r shown =
    elim (Result-cases (gate t.acquired t.at_gate write r.resilience).0) [
      | inl (e, h) ↦
          rw (h, write_command)
            (shown ∙ sym (gate-refuses t.acquired t.at_gate write r.resilience e h))
      | inr (u, h) ↦
          let resilience = (gate t.acquired t.at_gate write r.resilience).1 in
          rw (h, write_command)
            (sync-status (record_result t.at_record (op r.store).0 resilience) r.health)
    ]

read_command-ShowsHealth :
    {S A : Type 0} (cache : StaleReads → StaleReadCache A)
    (put : StaleReadCache A → StaleReads → StaleReads) (key : String)
    (answer : S → DiscoveryResult A) (t : Readings) (r : Runtime S)
    → ShowsHealth r
    → ShowsHealth (read_command cache put key answer t r).1
unfolding read_command finish_read
read_command-ShowsHealth cache put key answer t r shown =
    elim (Result-cases (gate t.acquired t.at_gate read r.resilience).0) [
      | inl (e, h) ↦
          rw (h, read_command)
            (shown ∙ sym (gate-refuses t.acquired t.at_gate read r.resilience e h))
      | inr (u, h) ↦
          let resilience = (gate t.acquired t.at_gate read r.resilience).1 in
          let answered =
            (resolve key t.at_resolve resilience.degradation_config.stale_read_max_age_ms
              (serve_stale_reads resilience) (answer r.store) (cache r.reads)).0 in
          rw (h, read_command)
            (sync-status (record_result t.at_record answered resilience) r.health)
    ]

-- If the health state shows the status that the runtime's degradation and circuit breaker give,
-- then it does so after any command of any caller, whether the gate lets it through or refuses it,
-- over any store.
pub dispatch-ShowsHealth :
    {S : Type 0} (debug : Option String → String) (ops : StoreOps S) (plane : DiscoveryControlPlane)
    (t : Readings) (c : RuntimeCommand) (r : Runtime S)
    → ShowsHealth r
    → ShowsHealth (dispatch_command debug ops plane t c r).1
unfolding dispatch_command
dispatch-ShowsHealth debug ops plane t (register_instance caller c) r shown =
    write_command-ShowsHealth _ _ t r shown
dispatch-ShowsHealth debug ops plane t (batch_register_instances caller cs) r shown =
    write_command-ShowsHealth _ _ t r shown
dispatch-ShowsHealth debug ops plane t (renew_lease caller c) r shown =
    write_command-ShowsHealth _ _ t r shown
dispatch-ShowsHealth debug ops plane t (deregister_instance caller key now_ms) r shown =
    write_command-ShowsHealth _ _ t r shown
dispatch-ShowsHealth debug ops plane t (expire_instances now_ms max_instances) r shown =
    write_command-ShowsHealth _ _ t r shown
dispatch-ShowsHealth debug ops plane t (report_instance_status caller c) r shown =
    write_command-ShowsHealth _ _ t r shown
dispatch-ShowsHealth debug ops plane t (discover_instances caller q now_ms) r shown =
    read_command-ShowsHealth _ _ _ _ t r shown
dispatch-ShowsHealth debug ops plane t (retrieve_instance caller q now_ms) r shown =
    read_command-ShowsHealth _ _ _ _ t r shown
dispatch-ShowsHealth debug ops plane t (list_services caller q now_ms) r shown =
    read_command-ShowsHealth _ _ _ _ t r shown
dispatch-ShowsHealth debug ops plane t (create_config_draft caller c) r shown =
    write_command-ShowsHealth _ _ t r shown
dispatch-ShowsHealth debug ops plane t (publish_config caller c) r shown =
    write_command-ShowsHealth _ _ t r shown
dispatch-ShowsHealth debug ops plane t (rollback_config caller c) r shown =
    write_command-ShowsHealth _ _ t r shown
dispatch-ShowsHealth debug ops plane t (retrieve_effective_config caller q) r shown =
    read_command-ShowsHealth _ _ _ _ t r shown
dispatch-ShowsHealth debug ops plane t (watch_registry_events caller q) r shown =
    read_command-ShowsHealth _ _ _ _ t r shown
dispatch-ShowsHealth debug ops plane t (watch_config_events caller q) r shown =
    read_command-ShowsHealth _ _ _ _ t r shown
