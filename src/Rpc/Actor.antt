-- ===== src/Rpc/Actor.antt =====
-- crates/sdkwork-discovery-rpc/src/actor.rs: the commands of the runtime and their handling, one
-- after the other. What the handling reads from outside is a record of readings: the answer of the
-- token bucket, and the clock at the three points where it is asked. The channels of the answers
-- belong to another package: the answer is the result of the handling.
pub mod Dispatch
pub mod Run
pub mod Effects
pub mod Trace
pub mod Refine
pub mod Reached
pub mod Streams
pub mod Stale
pub mod Degraded
pub mod Healthy
use sdkwork_discovery.Prelude.{ℕ, String, Bool, Option, List, [], ◌∷◌, ◌++◌}
use sdkwork_discovery.Prelude.Tests.{if◌then◌else◌}
use sdkwork_discovery.Contract.Error.{DiscoveryResult, ok, err, Op}
use sdkwork_discovery.Contract.Registry.{
  RegisterInstanceCommand, RegisterInstanceResult, BatchRegisterResult, RenewLeaseCommand,
  RenewLeaseResult, ReportInstanceStatusCommand, ReportInstanceStatusResult,
  DeregisterInstanceResult, DiscoverInstancesQuery, DiscoverInstancesResult, RetrieveInstanceQuery,
  ServiceInstance, ListServicesQuery, ListServicesResult,
}
use sdkwork_discovery.Contract.Config.{
  CreateConfigDraftCommand, ConfigDraft, PublishConfigCommand, RollbackConfigCommand, ConfigRelease,
  RetrieveEffectiveConfigQuery, EffectiveConfig,
}
use sdkwork_discovery.Contract.Context.{CallerContext}
use sdkwork_discovery.Contract.Event.{DiscoveryEvent, WatchEventsQuery}
use sdkwork_discovery.Memory.Store.{InstanceKey}
use sdkwork_discovery.Core.Store.{StoreOps}
use sdkwork_discovery.Rpc.Resilience.{
  RuntimeResilience, read, write, gate, record_result, serve_stale_reads, StaleReadCache, resolve,
}
use sdkwork_discovery.Rpc.Health.{DiscoveryHealthState, sync_from_resilience}
use sdkwork_discovery.Rpc.Watch.{events_for_revision}

-- The five caches of `RuntimeResilience`.
pub record StaleReads : Type 0 where
  pub discover_reads : StaleReadCache DiscoverInstancesResult
  pub retrieve_reads : StaleReadCache (Option ServiceInstance)
  pub list_services_reads : StaleReadCache ListServicesResult
  pub effective_config_reads : StaleReadCache EffectiveConfig
  pub watch_reads : StaleReadCache (List DiscoveryEvent)

-- What the actor owns, and the events it has published on the watch streams.
pub record Runtime (S : Type 0) : Type 0 where
  pub store : S
  pub resilience : RuntimeResilience
  pub reads : StaleReads
  pub health : DiscoveryHealthState
  pub streamed : List DiscoveryEvent

pub record Readings : Type 0 where
  pub acquired : Bool
  pub at_gate : ℕ
  pub at_resolve : ℕ
  pub at_record : ℕ

pub data RuntimeCommand : Type 0 where
  register_instance : CallerContext → RegisterInstanceCommand → RuntimeCommand
  batch_register_instances : CallerContext → List RegisterInstanceCommand → RuntimeCommand
  renew_lease : CallerContext → RenewLeaseCommand → RuntimeCommand
  deregister_instance : CallerContext → InstanceKey → ℕ → RuntimeCommand
  expire_instances : ℕ → ℕ → RuntimeCommand
  report_instance_status : CallerContext → ReportInstanceStatusCommand → RuntimeCommand
  discover_instances : CallerContext → DiscoverInstancesQuery → ℕ → RuntimeCommand
  retrieve_instance : CallerContext → RetrieveInstanceQuery → ℕ → RuntimeCommand
  list_services : CallerContext → ListServicesQuery → ℕ → RuntimeCommand
  create_config_draft : CallerContext → CreateConfigDraftCommand → RuntimeCommand
  publish_config : CallerContext → PublishConfigCommand → RuntimeCommand
  rollback_config : CallerContext → RollbackConfigCommand → RuntimeCommand
  retrieve_effective_config : CallerContext → RetrieveEffectiveConfigQuery → RuntimeCommand
  watch_registry_events : CallerContext → WatchEventsQuery → RuntimeCommand
  watch_config_events : CallerContext → WatchEventsQuery → RuntimeCommand

-- What the sender of a command is answered.
abbrev pub Answer : RuntimeCommand → Type 0
Answer (register_instance _ _) = RegisterInstanceResult
Answer (batch_register_instances _ _) = BatchRegisterResult
Answer (renew_lease _ _) = RenewLeaseResult
Answer (deregister_instance _ _ _) = DeregisterInstanceResult
Answer (expire_instances _ _) = List DeregisterInstanceResult
Answer (report_instance_status _ _) = ReportInstanceStatusResult
Answer (discover_instances _ _ _) = DiscoverInstancesResult
Answer (retrieve_instance _ _ _) = Option ServiceInstance
Answer (list_services _ _ _) = ListServicesResult
Answer (create_config_draft _ _) = ConfigDraft
Answer (publish_config _ _) = ConfigRelease
Answer (rollback_config _ _) = ConfigRelease
Answer (retrieve_effective_config _ _) = EffectiveConfig
Answer (watch_registry_events _ _) = List DiscoveryEvent
Answer (watch_config_events _ _) = List DiscoveryEvent

module _ {S : Type 0} (ops : StoreOps S) where
  abbrev found_events : DiscoveryResult (List DiscoveryEvent) → List DiscoveryEvent
  found_events (ok events) = events
  found_events (err e) = []

  -- The events that are published for a revision of a namespace and environment.
  unfoldable pub publish_events_for_revision : String → String → ℕ → S → List DiscoveryEvent
  unfolding events_for_revision
  publish_events_for_revision namespace environment revision s =
      found_events (events_for_revision ops s namespace environment revision)

  abbrev pub publish_scoped :
      {A : Type 0} → String → String → (A → ℕ) → S → DiscoveryResult A → List DiscoveryEvent
  publish_scoped namespace environment revision s (err e) = []
  publish_scoped namespace environment revision s (ok a) =
      publish_events_for_revision namespace environment (revision a) s

  abbrev pub publish_renewal : S → DiscoveryResult RenewLeaseResult → List DiscoveryEvent
  publish_renewal s (err e) = []
  publish_renewal s (ok r) = publish_events_for_revision r.namespace r.environment r.revision s

  abbrev pub publish_removal : S → DeregisterInstanceResult → List DiscoveryEvent
  publish_removal s r =
      if r.deregistered
      then publish_events_for_revision r.namespace r.environment r.revision s
      else []

  abbrev pub publish_deregister : S → DiscoveryResult DeregisterInstanceResult → List DiscoveryEvent
  publish_deregister s (err e) = []
  publish_deregister s (ok r) = publish_removal s r

  abbrev pub publish_removals : S → List DeregisterInstanceResult → List DiscoveryEvent
  publish_removals s [] = []
  publish_removals s (r ∷ rs) = publish_removal s r ++ publish_removals s rs

  abbrev pub publish_deregisters :
      S → DiscoveryResult (List DeregisterInstanceResult) → List DiscoveryEvent
  publish_deregisters s (err e) = []
  publish_deregisters s (ok rs) = publish_removals s rs

  abbrev pub publish_release : S → DiscoveryResult ConfigRelease → List DiscoveryEvent
  publish_release s (err e) = []
  publish_release s (ok r) = publish_events_for_revision r.namespace r.environment r.revision s

abbrev pub publish_nothing : {S A : Type 0} → S → DiscoveryResult A → List DiscoveryEvent
publish_nothing s r = []

module _ {S A : Type 0} where
  -- After the gate has let a write through: the outcome is recorded, the health synchronised, and
  -- the events published.
  unfoldable pub finish_write :
      (S → DiscoveryResult A → List DiscoveryEvent)
      → ℕ
      → Runtime S
      → DiscoveryResult A × S
      → DiscoveryResult A × Runtime S
  unfolding record_result sync_from_resilience
  finish_write publish now r (result, s) =
      let resilience = record_result now result r.resilience in
      (
        result,
        record r {
          store = s;
          resilience = resilience;
          health = (sync_from_resilience resilience r.health).1;
          streamed = r.streamed ++ publish s result;
        },
      )

  unfoldable pub write_command :
      Op S A → (S → DiscoveryResult A → List DiscoveryEvent) → Readings → Op (Runtime S) A
  unfolding gate finish_write
  write_command op publish t r =
      let (allowed, resilience) = gate t.acquired t.at_gate write r.resilience in
      elim allowed [
        | err e ↦ (err e, record r { resilience = resilience })
        | ok _ ↦
            finish_write publish t.at_record (record r { resilience = resilience }) (op r.store)
      ]

  -- After the gate has let a read through: the answer goes through the cache, and what the cache
  -- gives is recorded.
  unfoldable pub finish_read :
      (StaleReads → StaleReadCache A)
      → (StaleReadCache A → StaleReads → StaleReads)
      → String
      → DiscoveryResult A
      → Readings
      → Op (Runtime S) A
  unfolding resolve serve_stale_reads record_result sync_from_resilience
  finish_read cache put key result t r =
      let (answer, entries) =
        resolve key t.at_resolve r.resilience.degradation_config.stale_read_max_age_ms
          (serve_stale_reads r.resilience) result (cache r.reads) in
      let resilience = record_result t.at_record answer r.resilience in
      (
        answer,
        record r {
          resilience = resilience;
          reads = put entries r.reads;
          health = (sync_from_resilience resilience r.health).1;
        },
      )

  unfoldable pub read_command :
      (StaleReads → StaleReadCache A)
      → (StaleReadCache A → StaleReads → StaleReads)
      → String
      → (S → DiscoveryResult A)
      → Readings
      → Op (Runtime S) A
  unfolding gate finish_read
  read_command cache put key answer t r =
      let (allowed, resilience) = gate t.acquired t.at_gate read r.resilience in
      elim allowed [
        | err e ↦ (err e, record r { resilience = resilience })
        | ok _ ↦ finish_read cache put key (answer r.store) t (record r { resilience = resilience })
      ]
