-- ===== src/Tests/Actor.antt =====
-- Concrete inputs for the theorems on the actor, the tokens and the snapshots.
use sdkwork_discovery.Prelude.{
  ℕ, ◌≡◌, ◌≤◌, ◌^◌, refl, String, Bool, true, false, none, some, Option, List, [], ◌∷◌, arith, inl,
  inr,
}
use sdkwork_discovery.Prelude.Lists.{All}
use sdkwork_discovery.Prelude.Map.{get, insert, get-insert_self}
use sdkwork_discovery.Prelude.Tests.{text_eq}
use sdkwork_discovery.Prelude.Text.{lacks}
use sdkwork_discovery.Contract.Error.{ok, err}
use sdkwork_discovery.Contract.Registry.{ServiceInstance}
use sdkwork_discovery.Contract.Config.{RetrieveEffectiveConfigQuery, EffectiveConfig}
use sdkwork_discovery.Contract.Context.{CallerContext, RegistryPermission, ConfigPermission}
use sdkwork_discovery.Memory.Store.{MemoryDiscoveryStore, new}
use sdkwork_discovery.Memory.Call.{run}
use sdkwork_discovery.Core.Store.{StoreOps, memory_ops}
use sdkwork_discovery.Rpc.Breaker.{record_success}
use sdkwork_discovery.Rpc.Resilience.{RuntimeResilience, normal, read_only, is_storage_failure}
use sdkwork_discovery.Rpc.Keys.{effective_config_cache_key}
use sdkwork_discovery.Rpc.Actor.{
  Runtime, Readings, StaleReads, RuntimeCommand, register_instance, retrieve_effective_config,
}
use sdkwork_discovery.Prelude.Lists.{retain}
use sdkwork_discovery.Prelude.Text.{is_blank, is_whitespace}
use sdkwork_discovery.Rpc.Watch.{events_for_revision}
use sdkwork_discovery.Rpc.Published.{is_event_of, events_for_revision-exact}
use sdkwork_discovery.Rpc.Health.{status, from_u8, from_resilience}
use sdkwork_discovery.Rpc.Actor.Healthy.{ShowsHealth, dispatch-ShowsHealth}
use sdkwork_discovery.Rpc.Actor.Dispatch.{dispatch_command}
use sdkwork_discovery.Rpc.Actor.Run.{
  default_config, Message, command, scan_tick, gc_tick, run_actor,
}
use sdkwork_discovery.Rpc.Actor.Reached.{trace, run_actor-refines}
use sdkwork_discovery.Rpc.Actor.Degraded.{degraded-keeps}
use sdkwork_discovery.Rpc.Actor.Stale.{stale-recovers}
use sdkwork_discovery.Rpc.Actor.Streams.{streamed-logged}
use sdkwork_discovery.Tests.Data.{reg, store_1}
use sdkwork_discovery.Tests.Core.{hash, hash_text, plane}
use sdkwork_discovery.Tests.Rpc.{runtime, down}

abbrev pub debug : Option String → String
debug none = "None"
debug (some s) = s

abbrev healthy : ServiceInstance → Bool
healthy i = true

abbrev operator : CallerContext
operator = record {
  subject_id = "ops";
  tenant_id = some "acme";
  organization_id = none;
  registry_permissions = RegistryPermission.admin ∷ [];
  config_permissions = ConfigPermission.admin ∷ [];
}

abbrev pub readings : Readings
readings = record { acquired = true; at_gate = 50; at_resolve = 60; at_record = 70 }

abbrev no_reads : StaleReads
no_reads = record {
  discover_reads = [];
  retrieve_reads = [];
  list_services_reads = [];
  effective_config_reads = [];
  watch_reads = [];
}

abbrev pub started : Runtime MemoryDiscoveryStore
started = record {
  store = new;
  resilience = runtime;
  reads = no_reads;
  health = record { status_cell = 1; last_reason = none };
  streamed = [];
}

abbrev messages : List Message
messages = command readings (register_instance operator reg) ∷ scan_tick 2000 ∷ gc_tick 3000 ∷ []

run_actor-refines_example :
    (run_actor debug healthy
      (memory_ops hash hash_text)
      plane
      default_config
      messages
      started).store
    ≡ run hash_text (trace hash hash_text plane healthy debug default_config messages started) new
run_actor-refines_example =
    run_actor-refines hash hash_text plane healthy debug default_config messages started

abbrev degraded_1 : Runtime MemoryDiscoveryStore
degraded_1 = record started {
  store = store_1;
  resilience = record runtime { degradation = read_only };
}

degraded-keeps_example :
    ((dispatch_command debug
        (memory_ops hash hash_text)
        plane
        readings
        (register_instance operator reg)
        degraded_1).1.store
      ≡ store_1)
    × ((dispatch_command debug
          (memory_ops hash hash_text)
          plane
          readings
          (register_instance operator reg)
          degraded_1).1.streamed
        ≡ [])
degraded-keeps_example =
    degraded-keeps debug (memory_ops hash hash_text) plane readings (register_instance operator reg)
      degraded_1 refl

streamed-logged_example :
    All
      (λ e. e.namespace ≡ "acme")
      (dispatch_command debug
        (memory_ops hash hash_text)
        plane
        readings
        (register_instance operator reg)
        started).1.streamed
unfolding dispatch_command sdkwork_discovery.Rpc.Actor.write_command
    sdkwork_discovery.Rpc.Actor.finish_write sdkwork_discovery.Rpc.Resilience.gate
    sdkwork_discovery.Rpc.Breaker.allow_request sdkwork_discovery.Core.Plane.register_instance
    sdkwork_discovery.Core.Plane.check_register
    sdkwork_discovery.Core.Policy.require_registry_permission
    sdkwork_discovery.Contract.Context.has_registry_permission
    sdkwork_discovery.Core.Policy.require_namespace_tenant_access
    sdkwork_discovery.Core.Policy.belongs_to
    sdkwork_discovery.Core.Policy.validate_registry_lease_ttl
    sdkwork_discovery.Memory.Register.register_instance
    sdkwork_discovery.Memory.Register.validate_register
    sdkwork_discovery.Memory.Store.validate_non_empty sdkwork_discovery.Prelude.Text.is_blank
    sdkwork_discovery.Memory.Register.check_expected
    sdkwork_discovery.Memory.Register.register_checked
    sdkwork_discovery.Memory.Register.write_registration
    sdkwork_discovery.Memory.Register.register_expiry
    sdkwork_discovery.Memory.Store.lease_expires_at_ms
    sdkwork_discovery.Memory.Register.new_instance sdkwork_discovery.Memory.Register.store_instance
    sdkwork_discovery.Memory.Register.assign_lease sdkwork_discovery.Memory.Store.next_revision
    insert sdkwork_discovery.Memory.Register.live_lease get sdkwork_discovery.Memory.Store.next_id
    sdkwork_discovery.Memory.Store.id_text sdkwork_discovery.Prelude.Text.decimal
streamed-logged_example =
    streamed-logged (λ e. e.namespace ≡ "acme") hash hash_text debug plane readings
      (register_instance operator reg) started tt (refl, tt)

abbrev failing : StoreOps MemoryDiscoveryStore
failing = record (memory_ops hash hash_text) { retrieve_effective_config = λ s q. err down }

abbrev query : RetrieveEffectiveConfigQuery
query = record {
  namespace = "acme";
  environment = "prod";
  application = "shop";
  service_name = "orders";
  group = "main";
}

abbrev cached : EffectiveConfig
cached = record { revision = 4; values = [] }

abbrev degraded_2 : Runtime MemoryDiscoveryStore
degraded_2 = record started {
  resilience = record runtime { degradation = read_only };
  reads = record no_reads {
    effective_config_reads = insert (effective_config_cache_key debug query) (20, cached) [];
  };
}

stale-recovers_example :
    ((dispatch_command debug failing plane readings
        (retrieve_effective_config operator query)
        degraded_2).0
      ≡ ok cached)
    × ((dispatch_command debug failing plane readings
          (retrieve_effective_config operator query)
          degraded_2).1.resilience
        ≡ record runtime { circuit_breaker = record_success runtime.circuit_breaker })
unfolding is_storage_failure sdkwork_discovery.Core.Plane.retrieve_effective_config
    sdkwork_discovery.Core.Policy.require_config_permission
    sdkwork_discovery.Contract.Context.has_config_permission
    sdkwork_discovery.Core.Policy.require_namespace_tenant_access
    sdkwork_discovery.Core.Policy.belongs_to
    sdkwork_discovery.Core.Policy.require_config_registry_enabled
stale-recovers_example =
    stale-recovers debug failing plane readings operator query degraded_2 down 20 cached refl refl
      refl refl refl (get-insert_self (effective_config_cache_key debug query) (20, cached) [])
      (omega arith)

events_for_revision-exact_example :
    events_for_revision (memory_ops hash hash_text) store_1 "acme" "prod" 1
    ≡ ok (retain (is_event_of "acme" "prod" 1) store_1.events)
unfolding is_blank is_whitespace
events_for_revision-exact_example =
    events_for_revision-exact "acme" "prod" 1 (omega arith) hash hash_text store_1 refl refl
      (record { ascending = (tt, tt); bounded = (omega arith, tt) })

dispatch-ShowsHealth_example :
    ShowsHealth
      (dispatch_command debug failing plane readings
        (retrieve_effective_config operator query)
        started).1
unfolding status from_u8 from_resilience
dispatch-ShowsHealth_example =
    dispatch-ShowsHealth debug failing plane readings (retrieve_effective_config operator query)
      started refl
