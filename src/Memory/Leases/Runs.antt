-- ===== src/Memory/Leases/Runs.antt =====
-- Any history of calls keeps instances and leases in agreement.
use sdkwork_discovery.Prelude.{
  ℕ, ◌+◌, ◌≤◌, ◌<◌, ◌^◌, ◌≡◌, refl, String, List, [], ◌∷◌, inl, inr, arith,
}
use sdkwork_discovery.Prelude.Lists.{length}
use sdkwork_discovery.Prelude.Tests.{Option-cases}
use sdkwork_discovery.Prelude.Map.{get}
use sdkwork_discovery.Memory.Store.{
  MemoryDiscoveryStore, new, next_id, next_revision, InstanceKey, instance_key_eq,
}
use sdkwork_discovery.Memory.Leases.Writes.{IsValid}
use sdkwork_discovery.Memory.Leases.Steps
use sdkwork_discovery.Contract.Config.{
  CreateConfigDraftCommand, PublishConfigCommand, RollbackConfigCommand,
}
use sdkwork_discovery.Memory.Config.{
  create_config_draft, store_draft, publish_config, publish_draft, rollback_config, republish,
  record_idempotency,
}
use sdkwork_discovery.Memory.Watch.{gc_watch_events, compact_watch_events}
use native.Mathlib.Nat.{le_trans}
use sdkwork_discovery.Prelude.{sym, ap, ◌∙◌}
use sdkwork_discovery.Prelude.Sort.{sort_by}
use sdkwork_discovery.Prelude.Lists.{take}
use sdkwork_discovery.Contract.Registry.{RegisterInstanceCommand, ServiceInstance}
use sdkwork_discovery.Memory.Register.{
  batch_register_from, register_instance, batch_register_instances,
}
use sdkwork_discovery.Memory.Lifecycle.{
  evict, renew_lease, renew_found, report_instance_status, rewrite_instance, deregister_instance,
  batch_deregister_instances, update_health_check_state,
}
use sdkwork_discovery.Memory.Expire.{evict_all, expired_keys, key_leb, expire_instances}
use sdkwork_discovery.Memory.Call.{
  Call, cost, total_cost, step, run, registers, registers_all, renews, reports, deregisters,
  deregisters_all, expires, checks, drafts, publishes, rolls_back, collects, compacts,
}
use sdkwork_discovery.Prelude.Tests.{text_eq}
use mathlib.Core.Path.{subst}
use sdkwork_discovery.Prelude.Map.{Distinct}

-- What a call on configuration or events may change of the instances: nothing, but that more
-- numbers are in use.
pub record LeavesInstances (s t : MemoryDiscoveryStore) : Type 0 where
  pub instances : t.instances ≡ s.instances
  pub lease_index : t.lease_index ≡ s.lease_index
  pub grows : s.next_sequence ≤ t.next_sequence
  pub slowly : t.next_sequence ≤ s.next_sequence + 1

create_config_draft-LeavesInstances :
    (content_hash : String → String) (c : CreateConfigDraftCommand) (s : MemoryDiscoveryStore)
    → s.next_sequence + 1 < 2 ^ 64
    → LeavesInstances s (create_config_draft content_hash c s).1
unfolding create_config_draft store_draft next_id record_idempotency
create_config_draft-LeavesInstances content_hash c s room = ground arith

publish_config-LeavesInstances :
    (c : PublishConfigCommand) (s : MemoryDiscoveryStore)
    → s.next_sequence + 1 < 2 ^ 64
    → LeavesInstances s (publish_config c s).1
unfolding publish_config publish_draft next_id next_revision record_idempotency
publish_config-LeavesInstances c s room = ground arith

rollback_config-LeavesInstances :
    (c : RollbackConfigCommand) (s : MemoryDiscoveryStore)
    → s.next_sequence + 1 < 2 ^ 64
    → LeavesInstances s (rollback_config c s).1
unfolding rollback_config republish next_id next_revision record_idempotency
rollback_config-LeavesInstances c s room = ground arith

gc_watch_events-LeavesInstances :
    (before limit : ℕ) (s : MemoryDiscoveryStore)
    → LeavesInstances s (gc_watch_events before limit s).1
unfolding gc_watch_events
gc_watch_events-LeavesInstances before limit s = ground arith

evict-sequence :
    (k : InstanceKey) (i : ServiceInstance) (s : MemoryDiscoveryStore)
    → (evict k i s).1.next_sequence ≡ s.next_sequence
unfolding evict next_revision
evict-sequence k i s = refl

new-IsValid : IsValid new
unfolding get
new-IsValid = record {
  keyed = λ k i h. cc;
  leased = λ l k h. cc;
  minted = λ k i h. cc;
  owned = λ k k' i i' h h' e. cc;
  distinct = tt;
}

abbrev key_at : String → String → String → String → InstanceKey
key_at n e sn id = record { namespace = n; environment = e; service_name = sn; instance_id = id }

leave-IsValid : {s t : MemoryDiscoveryStore} → LeavesInstances s t → IsValid s → IsValid t
leave-IsValid {s} {t} f v = record {
  keyed = λ k i h. v.keyed k i (ap (get k) (sym f.instances) ∙ h);
  leased = λ l k h.
      let (i, at, e) = v.leased l k (ap (get l) (sym f.lease_index) ∙ h) in
      (i, ap (get k) f.instances ∙ at, e);
  minted = λ k i h.
      let (n, bound, text) = v.minted k i (ap (get k) (sym f.instances) ∙ h) in
      (n, le_trans bound f.grows, text);
  owned = λ k k' i i' h h'.
      v.owned k k' i i' (ap (get k) (sym f.instances) ∙ h) (ap (get k') (sym f.instances) ∙ h');
  distinct = subst Distinct (sym f.instances) v.distinct;
}

evict_all-sequence :
    (ks : List InstanceKey) (s : MemoryDiscoveryStore)
    → (evict_all ks s).1.next_sequence ≡ s.next_sequence
unfolding evict_all
evict_all-sequence [] s = refl
evict_all-sequence (k ∷ ks) s = elim (Option-cases (get k s.instances)) [
  | inl e ↦ rw (e, evict_all) (evict_all-sequence ks s)
  | inr (i, e) ↦ rw (e, evict_all) (evict_all-sequence ks (evict k i s).1 ∙ evict-sequence k i s)
]

batch_register_from-sequence :
    (index : ℕ) (cs : List RegisterInstanceCommand) (s : MemoryDiscoveryStore)
    → (batch_register_from index cs s).1.next_sequence ≤ s.next_sequence + length cs
unfolding batch_register_from
batch_register_from-sequence index [] s = omega arith
batch_register_from-sequence index (c ∷ cs) s = omega (
  arith,
  batch_register_from-sequence (index + 1) cs (register_instance c s).1,
  Steps.register_instance-sequence c s,
)

deregister_instance-sequence :
    (key : InstanceKey) (now : ℕ) (s : MemoryDiscoveryStore)
    → (deregister_instance key now s).1.next_sequence ≡ s.next_sequence
unfolding deregister_instance evict next_revision
deregister_instance-sequence key now s = ground arith

batch_deregister_instances-sequence :
    (n e sn : String) (ids : List String) (now : ℕ) (s : MemoryDiscoveryStore)
    → (batch_deregister_instances n e sn ids now s).1.next_sequence ≡ s.next_sequence
unfolding batch_deregister_instances
batch_deregister_instances-sequence n e sn [] now s = refl
batch_deregister_instances-sequence n e sn (id ∷ ids) now s = ground (
  arith,
  deregister_instance-sequence (key_at n e sn id) now s,
  batch_deregister_instances-sequence n e sn ids now
      (deregister_instance (key_at n e sn id) now s).1,
)

module _ (content_hash : String → String) where
  step-sequence :
      (c : Call) (s : MemoryDiscoveryStore)
      → s.next_sequence + cost c < 2 ^ 64
      → (step content_hash c s).next_sequence ≤ s.next_sequence + cost c
  unfolding step batch_register_instances renew_lease renew_found report_instance_status
      rewrite_instance expire_instances update_health_check_state gc_watch_events
      compact_watch_events next_revision
  step-sequence (registers c) s room = Steps.register_instance-sequence c s
  step-sequence (registers_all cs) s room = batch_register_from-sequence 0 cs s
  step-sequence (renews c) s room = ground arith
  step-sequence (reports c) s room = ground arith
  step-sequence (deregisters key now) s room = omega (arith, deregister_instance-sequence key now s)
  step-sequence (deregisters_all n e sn ids now) s room =
      omega (arith, batch_deregister_instances-sequence n e sn ids now s)
  step-sequence (expires now limit) s room =
      ground
        (arith, evict_all-sequence (take limit (sort_by key_leb (expired_keys now s.instances))) s)
  step-sequence (checks key state) s room = ground arith
  step-sequence (drafts c) s room =
      (create_config_draft-LeavesInstances content_hash c s room).slowly
  step-sequence (publishes c) s room = (publish_config-LeavesInstances c s room).slowly
  step-sequence (rolls_back c) s room = (rollback_config-LeavesInstances c s room).slowly
  step-sequence (collects before limit) s room =
      (gc_watch_events-LeavesInstances before limit s).slowly
  step-sequence (compacts n e keep) s room = omega arith

  -- Every call keeps instances and leases in agreement.
  pub step-IsValid :
      (c : Call) {s : MemoryDiscoveryStore}
      → s.next_sequence + cost c < 2 ^ 64
      → IsValid s
      → IsValid (step content_hash c s)
  unfolding step batch_register_instances compact_watch_events
  step-IsValid (registers c) room v = Steps.register_instance-IsValid v c room
  step-IsValid (registers_all cs) room v = Steps.batch_register_from-IsValid 0 cs room v
  step-IsValid (renews c) room v = Steps.renew_lease-IsValid v c
  step-IsValid (reports c) room v = Steps.report_instance_status-IsValid v c
  step-IsValid (deregisters key now) room v = Steps.deregister_instance-IsValid v key now
  step-IsValid (deregisters_all n e sn ids now) room v =
      Steps.batch_deregister_instances-IsValid n e sn ids now v
  step-IsValid (expires now limit) room v = Steps.expire_instances-IsValid now limit v
  step-IsValid (checks key state) room v = Steps.update_health_check_state-IsValid v key state
  step-IsValid (drafts c) {s} room v =
      leave-IsValid (create_config_draft-LeavesInstances content_hash c s room) v
  step-IsValid (publishes c) {s} room v = leave-IsValid (publish_config-LeavesInstances c s room) v
  step-IsValid (rolls_back c) {s} room v =
      leave-IsValid (rollback_config-LeavesInstances c s room) v
  step-IsValid (collects before limit) {s} room v =
      leave-IsValid (gc_watch_events-LeavesInstances before limit s) v
  step-IsValid (compacts n e keep) {s} room v =
      leave-IsValid {s = s}
        (record { instances = refl; lease_index = refl; grows = omega arith; slowly = omega arith })
        v

  run_from-IsValid :
      (cs : List Call) {s : MemoryDiscoveryStore}
      → s.next_sequence + total_cost cs < 2 ^ 64
      → IsValid s
      → IsValid (run content_hash cs s)
  unfolding run
  run_from-IsValid [] room v = v
  run_from-IsValid (c ∷ cs) {s} room v =
      run_from-IsValid cs (omega (arith, step-sequence c s (omega arith)))
        (step-IsValid c (omega arith) v)

  -- After any history of calls from the empty store that takes fewer than 2 ^ 64 numbers: each
  -- instance stands under its own key, each lease of the index is the lease of the instance that
  -- it leads to, and no two instances share a lease.
  pub run-IsValid : (cs : List Call) → total_cost cs < 2 ^ 64 → IsValid (run content_hash cs new)
  run-IsValid cs room = run_from-IsValid cs (omega arith) new-IsValid
