-- ===== src/Memory/Call.antt =====
-- Every operation of the in-memory store that changes it, as a transition system.
use sdkwork_discovery.Prelude.{ℕ, String, List, [], ◌∷◌, ◌+◌}
use sdkwork_discovery.Prelude.Lists.{length}
use sdkwork_discovery.Contract.Registry.{
  RegisterInstanceCommand, RenewLeaseCommand, ReportInstanceStatusCommand,
}
use sdkwork_discovery.Contract.Health.{HealthCheckRuntimeState}
use sdkwork_discovery.Contract.Config.{
  CreateConfigDraftCommand, PublishConfigCommand, RollbackConfigCommand,
}
use sdkwork_discovery.Memory.Store.{MemoryDiscoveryStore, InstanceKey}
use sdkwork_discovery.Memory.Register.{register_instance, batch_register_instances}
use sdkwork_discovery.Memory.Lifecycle.{
  renew_lease, report_instance_status, deregister_instance, batch_deregister_instances,
  update_health_check_state,
}
use sdkwork_discovery.Memory.Expire.{expire_instances}
use sdkwork_discovery.Memory.Config.{create_config_draft, publish_config, rollback_config}
use sdkwork_discovery.Memory.Watch.{gc_watch_events, compact_watch_events}

pub data Call : Type 0 where
  registers : RegisterInstanceCommand → Call
  registers_all : List RegisterInstanceCommand → Call
  renews : RenewLeaseCommand → Call
  reports : ReportInstanceStatusCommand → Call
  deregisters : InstanceKey → ℕ → Call
  deregisters_all : String → String → String → List String → ℕ → Call
  expires : ℕ → ℕ → Call
  checks : InstanceKey → HealthCheckRuntimeState → Call
  drafts : CreateConfigDraftCommand → Call
  publishes : PublishConfigCommand → Call
  rolls_back : RollbackConfigCommand → Call
  collects : ℕ → ℕ → Call
  compacts : String → String → ℕ → Call

-- The most numbers that a call may take.
abbrev pub cost : Call → ℕ
cost (registers_all cs) = length cs
cost (registers c) = 1
cost (renews c) = 1
cost (reports c) = 1
cost (deregisters k now) = 1
cost (deregisters_all n e sn ids now) = 1
cost (expires now limit) = 1
cost (checks k h) = 1
cost (drafts c) = 1
cost (publishes c) = 1
cost (rolls_back c) = 1
cost (collects before limit) = 1
cost (compacts n e keep) = 1

abbrev pub total_cost : List Call → ℕ
total_cost [] = 0
total_cost (c ∷ cs) = cost c + total_cost cs

module _ (content_hash : String → String) where
  -- The store after a call, whatever its answer was.
  unfoldable pub step : Call → MemoryDiscoveryStore → MemoryDiscoveryStore
  step (registers c) s = (register_instance c s).1
  step (registers_all cs) s = (batch_register_instances cs s).1
  step (renews c) s = (renew_lease c s).1
  step (reports c) s = (report_instance_status c s).1
  step (deregisters key now) s = (deregister_instance key now s).1
  step (deregisters_all n e sn ids now) s = (batch_deregister_instances n e sn ids now s).1
  step (expires now limit) s = (expire_instances now limit s).1
  step (checks key state) s = (update_health_check_state key state s).1
  step (drafts c) s = (create_config_draft content_hash c s).1
  step (publishes c) s = (publish_config c s).1
  step (rolls_back c) s = (rollback_config c s).1
  step (collects before limit) s = (gc_watch_events before limit s).1
  step (compacts n e keep) s = (compact_watch_events n e keep s).1

  unfoldable pub run : List Call → MemoryDiscoveryStore → MemoryDiscoveryStore
  run [] s = s
  run (c ∷ cs) s = run cs (step c s)
