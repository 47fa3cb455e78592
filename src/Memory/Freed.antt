-- ===== src/Memory/Freed.antt =====
-- crates/sdkwork-discovery-storage-memory/src/registry.rs: a lease that is not in the index stays out
-- of it until an instance is registered.
use sdkwork_discovery.Prelude.{
  ℕ, ◌≤◌, ◌≡◌, String, Bool, true, false, List, [], ◌∷◌, inl, inr, Option, none, some, arith,
  eq_iff,
}
use sdkwork_discovery.Prelude.Lists.{All}
use sdkwork_discovery.Prelude.Tests.{Bool-cases, Option-cases, nat_beq, text_eq}
use sdkwork_discovery.Prelude.Map.{get, remove, get-remove}
use sdkwork_discovery.Contract.Error.{Result-cases, err, ok, not_found}
use sdkwork_discovery.Contract.Registry.{
  ServiceInstance, RenewLeaseCommand, ReportInstanceStatusCommand,
}
use sdkwork_discovery.Contract.Health.{HealthCheckRuntimeState}
use sdkwork_discovery.Contract.Config.{
  CreateConfigDraftCommand, PublishConfigCommand, RollbackConfigCommand,
}
use sdkwork_discovery.Memory.Store.{
  MemoryDiscoveryStore, InstanceKey, next_revision, next_id, instance_key_eq, lease_expires_at_ms,
}
use sdkwork_discovery.Memory.Register.{expired_at}
use sdkwork_discovery.Memory.Lifecycle.{
  renew_lookup, renew_found, renew_lease, rewrite_instance, report_lookup, report_instance_status,
  evict, evict_live, deregister_instance, batch_deregister_instances, update_health_check_state,
  validate_key, validate_renew,
}
use sdkwork_discovery.Memory.Expire.{evict_all, expire_instances}
use sdkwork_discovery.Memory.Config.{
  create_config_draft, store_draft, publish_config, publish_draft, rollback_config, republish,
  record_idempotency,
}
use sdkwork_discovery.Memory.Watch.{gc_watch_events, compact_watch_events}
use sdkwork_discovery.Memory.Call.{
  Call, step, run, registers, registers_all, renews, reports, deregisters, deregisters_all, expires,
  checks, drafts, publishes, rolls_back, collects, compacts,
}
use sdkwork_discovery.Memory.Renewal.{renew_late, renew_missing}

abbrev pub may_register : Call → Bool
may_register (registers c) = true
may_register (registers_all cs) = true
may_register (renews c) = false
may_register (reports c) = false
may_register (deregisters key now) = false
may_register (deregisters_all n e sn ids now) = false
may_register (expires now limit) = false
may_register (checks key state) = false
may_register (drafts c) = false
may_register (publishes c) = false
may_register (rolls_back c) = false
may_register (collects before limit) = false
may_register (compacts n e keep) = false

module _ (l : String) where
  abbrev IsFree : MemoryDiscoveryStore → Type 0
  IsFree s = get l s.lease_index ≡ none

  remove-IsFree :
      (k : String) (s : MemoryDiscoveryStore) → IsFree s → get l (remove k s.lease_index) ≡ none
  remove-IsFree k s h = ground (arith, get-remove k l s.lease_index)

  renew_found-IsFree :
      (c : RenewLeaseCommand) (k : InstanceKey) (i : ServiceInstance) (end : ℕ)
      (s : MemoryDiscoveryStore)
      → IsFree s
      → IsFree (renew_found c k i end s).1
  unfolding renew_found next_revision rewrite_instance
  renew_found-IsFree c k i end s h = elim (Bool-cases (expired_at c.now_ms i)) [
    | inl t ↦ rw (t, renew_found) (remove-IsFree c.lease_id s h)
    | inr f ↦ rw (f, renew_found) h
  ]

  renew_lease-IsFree :
      (c : RenewLeaseCommand) (s : MemoryDiscoveryStore) → IsFree s → IsFree (renew_lease c s).1
  unfolding renew_lease
  renew_lease-IsFree c s h = elim (Result-cases (renew_lookup c s)) [
    | inl (e, f) ↦ rw (f, renew_lease) h
    | inr ((k, i, end), f) ↦ rw (f, renew_lease) (renew_found-IsFree c k i end s h)
  ]

  report-IsFree :
      (c : ReportInstanceStatusCommand) (s : MemoryDiscoveryStore)
      → IsFree s
      → IsFree (report_instance_status c s).1
  unfolding report_instance_status next_revision rewrite_instance
  report-IsFree c s h = elim (Result-cases (report_lookup c s)) [
    | inl (e, f) ↦ rw (f, report_instance_status) h
    | inr (i, f) ↦ rw (f, report_instance_status) h
  ]

  evict-IsFree :
      (key : InstanceKey) (i : ServiceInstance) (s : MemoryDiscoveryStore)
      → IsFree s
      → IsFree (evict key i s).1
  unfolding evict next_revision
  evict-IsFree key i s h = remove-IsFree i.lease_id s h

  evict_live-IsFree :
      (now : ℕ) (key : InstanceKey) (o : Option ServiceInstance) (s : MemoryDiscoveryStore)
      → IsFree s
      → IsFree (evict_live now key o s).1
  evict_live-IsFree now key none s h = h
  evict_live-IsFree now key (some i) s h = elim (Bool-cases (expired_at now i)) [
    | inl t ↦ rw t h
    | inr f ↦ rw f (evict-IsFree key i s h)
  ]

  deregister-IsFree :
      (key : InstanceKey) (now : ℕ) (s : MemoryDiscoveryStore)
      → IsFree s
      → IsFree (deregister_instance key now s).1
  unfolding deregister_instance
  deregister-IsFree key now s h = elim (Result-cases (validate_key key)) [
    | inl (e, f) ↦ rw (f, deregister_instance) h
    | inr (u, f) ↦ rw (f, deregister_instance) (evict_live-IsFree now key (get key s.instances) s h)
  ]

  batch_deregister-IsFree :
      (n e sn : String) (ids : List String) (now : ℕ) (s : MemoryDiscoveryStore)
      → IsFree s
      → IsFree (batch_deregister_instances n e sn ids now s).1
  unfolding batch_deregister_instances
  batch_deregister-IsFree n e sn [] now s h = h
  batch_deregister-IsFree n e sn (id ∷ ids) now s h =
      let key : InstanceKey = record {
        namespace = n;
        environment = e;
        service_name = sn;
        instance_id = id;
      } in
      let first = deregister-IsFree key now s h in
      elim (Result-cases (deregister_instance key now s).0) [
        | inl (x, f) ↦ rw (f, batch_deregister_instances) first
        | inr (x, f) ↦
            rw (f, batch_deregister_instances)
              (batch_deregister-IsFree n e sn ids now (deregister_instance key now s).1 first)
      ]

  evict_all-IsFree :
      (ks : List InstanceKey) (s : MemoryDiscoveryStore) → IsFree s → IsFree (evict_all ks s).1
  unfolding evict_all
  evict_all-IsFree [] s h = h
  evict_all-IsFree (k ∷ ks) s h = elim (Option-cases (get k s.instances)) [
    | inl e ↦ rw (e, evict_all) (evict_all-IsFree ks s h)
    | inr (i, e) ↦ rw (e, evict_all) (evict_all-IsFree ks (evict k i s).1 (evict-IsFree k i s h))
  ]

  expire-IsFree :
      (now limit : ℕ) (s : MemoryDiscoveryStore)
      → IsFree s
      → IsFree (expire_instances now limit s).1
  unfolding expire_instances
  expire-IsFree now limit s h = elim (Bool-cases (nat_beq limit 0)) [
    | inl t ↦ rw (t, expire_instances) h
    | inr f ↦ rw (f, expire_instances) (evict_all-IsFree _ s h)
  ]

  checks-IsFree :
      (key : InstanceKey) (state : HealthCheckRuntimeState) (s : MemoryDiscoveryStore)
      → IsFree s
      → IsFree (update_health_check_state key state s).1
  unfolding update_health_check_state
  checks-IsFree key state s h = ground (arith, h)

  drafts-IsFree :
      (content_hash : String → String) (c : CreateConfigDraftCommand) (s : MemoryDiscoveryStore)
      → IsFree s
      → IsFree (create_config_draft content_hash c s).1
  unfolding create_config_draft store_draft next_id record_idempotency
  drafts-IsFree content_hash c s h = ground (arith, h)

  publishes-IsFree :
      (c : PublishConfigCommand) (s : MemoryDiscoveryStore)
      → IsFree s
      → IsFree (publish_config c s).1
  unfolding publish_config publish_draft next_id next_revision record_idempotency
  publishes-IsFree c s h = ground (arith, h)

  rolls_back-IsFree :
      (c : RollbackConfigCommand) (s : MemoryDiscoveryStore)
      → IsFree s
      → IsFree (rollback_config c s).1
  unfolding rollback_config republish next_id next_revision record_idempotency
  rolls_back-IsFree c s h = ground (arith, h)

  collects-IsFree :
      (before limit : ℕ) (s : MemoryDiscoveryStore)
      → IsFree s
      → IsFree (gc_watch_events before limit s).1
  unfolding gc_watch_events
  collects-IsFree before limit s h = ground (arith, h)

  compacts-IsFree :
      (n e : String) (keep : ℕ) (s : MemoryDiscoveryStore)
      → IsFree s
      → IsFree (compact_watch_events n e keep s).1
  unfolding compact_watch_events
  compacts-IsFree n e keep s h = ground (arith, h)

  module _ (content_hash : String → String) where
    step-IsFree :
        (c : Call) (s : MemoryDiscoveryStore)
        → may_register c ≡ false
        → IsFree s
        → IsFree (step content_hash c s)
    unfolding step
    step-IsFree (registers c) s other h = cc
    step-IsFree (registers_all cs) s other h = cc
    step-IsFree (renews c) s other h = renew_lease-IsFree c s h
    step-IsFree (reports c) s other h = report-IsFree c s h
    step-IsFree (deregisters key now) s other h = deregister-IsFree key now s h
    step-IsFree (deregisters_all n e sn ids now) s other h =
        batch_deregister-IsFree n e sn ids now s h
    step-IsFree (expires now limit) s other h = expire-IsFree now limit s h
    step-IsFree (checks key state) s other h = checks-IsFree key state s h
    step-IsFree (drafts c) s other h = drafts-IsFree content_hash c s h
    step-IsFree (publishes c) s other h = publishes-IsFree c s h
    step-IsFree (rolls_back c) s other h = rolls_back-IsFree c s h
    step-IsFree (collects before limit) s other h = collects-IsFree before limit s h
    step-IsFree (compacts n e keep) s other h = compacts-IsFree n e keep s h

    run-IsFree :
        (cs : List Call) (s : MemoryDiscoveryStore)
        → All (λ c. may_register c ≡ false) cs
        → IsFree s
        → IsFree (run content_hash cs s)
    unfolding run
    run-IsFree [] s others h = h
    run-IsFree (c ∷ cs) s others h =
        run-IsFree cs (step content_hash c s) others.1 (step-IsFree c s others.0 h)

-- A valid renewal, whose end fits in 64 bits, of a lease whose instance has expired is refused as
-- unknown and takes the lease, and nothing else, out of the store. After it, and after any calls of
-- the store that register no instance, every valid renewal of that lease is refused as unknown,
-- whatever its time is.
pub renew_expired :
    (content_hash : String → String) (c d : RenewLeaseCommand) (s : MemoryDiscoveryStore)
    (k : InstanceKey) (i : ServiceInstance) (end : ℕ) (cs : List Call)
    → validate_renew c ≡ ok tt
    → validate_renew d ≡ ok tt
    → lease_expires_at_ms c.now_ms c.lease_ttl_seconds ≡ ok end
    → get c.lease_id s.lease_index ≡ some k
    → get k s.instances ≡ some i
    → i.expires_at_ms ≤ c.now_ms
    → d.lease_id ≡ c.lease_id
    → All (λ x. may_register x ≡ false) cs
    → (renew_lease c s ≡ (
      err (not_found "lease not found"),
      record s { lease_index = remove c.lease_id s.lease_index },
    ))
      × ((renew_lease d (run content_hash cs (renew_lease c s).1)).0
          ≡ err (not_found "lease not found"))
renew_expired content_hash c d s k i end cs vc vd fits index at late same others =
    let refused = renew_late c s k i end vc fits index at late in
    let freed = record s { lease_index = remove c.lease_id s.lease_index } in
    let free : get d.lease_id freed.lease_index ≡ none =
      ground (
        arith,
        get-remove c.lease_id d.lease_id s.lease_index,
        eq_iff c.lease_id d.lease_id,
        same,
      ) in
    let later = run-IsFree d.lease_id content_hash cs freed others free in
    (refused, rw refused (renew_missing d (run content_hash cs freed) vd later))
