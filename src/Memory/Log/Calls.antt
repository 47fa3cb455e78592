-- ===== src/Memory/Log/Calls.antt =====
-- crates/sdkwork-discovery-storage-memory: every call keeps the log of events in order.
use sdkwork_discovery.Prelude.{
  ℕ, ◌+◌, ◌≡◌, refl, String, List, [], ◌∷◌, arith, inl, inr, Option, none, some,
}
use sdkwork_discovery.Prelude.Lists.{length}
use sdkwork_discovery.Prelude.Map.{get}
use sdkwork_discovery.Prelude.Tests.{Bool-cases, Option-cases, nat_beq, text_eq}
use sdkwork_discovery.Contract.Error.{DiscoveryResult, ok, err, Result-cases}
use sdkwork_discovery.Contract.Registry.{
  RegisterInstanceCommand, ServiceInstance, RenewLeaseCommand, ReportInstanceStatusCommand,
}
use sdkwork_discovery.Contract.Event.{
  DiscoveryEventKind, instance_renewed, instance_status_reported,
}
use sdkwork_discovery.Contract.Health.{HealthCheckRuntimeState}
use sdkwork_discovery.Contract.Error.{◌>>◌}
use sdkwork_discovery.Memory.Evicting.{length-take-le}
use sdkwork_discovery.Prelude.Sort.{sort_by}
use sdkwork_discovery.Memory.Store.{
  MemoryDiscoveryStore, InstanceKey, instance_key_eq, next_revision, next_id,
}
use sdkwork_discovery.Memory.Register.{
  register_instance, register_checked, write_registration, assign_lease, store_instance, live_lease,
  register_expiry, register_key, batch_register_from, new_instance, validate_register,
  check_expected, instance_event, expired_at,
}
use sdkwork_discovery.Memory.Lifecycle.{
  renew_lease, renew_found, renew_lookup, report_lookup, rewrite_instance, report_instance_status,
  evict, evict_live, deregister_instance, batch_deregister_instances, update_health_check_state,
  validate_key,
}
use sdkwork_discovery.Memory.Expire.{evict_all, expire_instances, expired_keys, key_leb}
use sdkwork_discovery.Memory.Log.{Logged, stays, ticks, pushes, chain, at_most}

write_registration-Logged :
    (c : RegisterInstanceCommand) (lease : Option String) (expiry : DiscoveryResult ℕ)
    (s : MemoryDiscoveryStore)
    → Logged 1 s (write_registration c lease expiry s).1
unfolding write_registration assign_lease store_instance next_revision next_id new_instance
write_registration-Logged c none (err e) s = ticks refl refl
write_registration-Logged c none (ok at) s = pushes _ refl refl refl
write_registration-Logged c (some l) (err e) s = ticks refl refl
write_registration-Logged c (some l) (ok at) s = pushes _ refl refl refl

pub register_instance-Logged :
    (c : RegisterInstanceCommand) (s : MemoryDiscoveryStore) → Logged 1 s (register_instance c s).1
unfolding register_instance register_checked
register_instance-Logged c s =
    elim (Result-cases (
      validate_register c
      >> check_expected c.expected_revision (get (register_key c) s.instances))) [
        | inl (e, h) ↦ rw (h, register_instance) (stays 1 refl refl)
        | inr (u, h) ↦
            rw (h, register_instance)
              (write_registration-Logged c (live_lease c.now_ms (get (register_key c) s.instances))
                (register_expiry c) s)
      ]

pub batch_register_from-Logged :
    (index : ℕ) (cs : List RegisterInstanceCommand) (s : MemoryDiscoveryStore)
    → Logged (length cs) s (batch_register_from index cs s).1
unfolding batch_register_from
batch_register_from-Logged index [] s = stays 0 refl refl
batch_register_from-Logged index (c ∷ cs) s = at_most _ _ (omega arith) (
    chain 1 (length cs) (register_instance-Logged c s)
      (batch_register_from-Logged (index + 1) cs (register_instance c s).1))

rewrite_instance-Logged :
    (key : InstanceKey) (i : ServiceInstance) (kind : DiscoveryEventKind) (s : MemoryDiscoveryStore)
    → i.revision ≡ (next_revision s).0
    → Logged 1 s (rewrite_instance key i kind (next_revision s).1)
unfolding rewrite_instance next_revision
rewrite_instance-Logged key i kind s h = pushes (instance_event i.revision kind i) refl refl h

pub renew_lease-Logged :
    (c : RenewLeaseCommand) (s : MemoryDiscoveryStore) → Logged 1 s (renew_lease c s).1
unfolding renew_lease renew_found
renew_lease-Logged c s = elim (Result-cases (renew_lookup c s)) [
  | inl (e, h) ↦ rw (h, renew_lease) (stays 1 refl refl)
  | inr ((k, i, end), h) ↦ elim (Bool-cases (expired_at c.now_ms i)) [
    | inl late ↦ rw (h, late, renew_lease) (stays 1 refl refl)
    | inr live ↦ rw (h, live, renew_lease) (rewrite_instance-Logged k _ instance_renewed s refl)
  ]
]

pub report_instance_status-Logged :
    (c : ReportInstanceStatusCommand) (s : MemoryDiscoveryStore)
    → Logged 1 s (report_instance_status c s).1
unfolding report_instance_status
report_instance_status-Logged c s = elim (Result-cases (report_lookup c s)) [
  | inl (e, h) ↦ rw (h, report_instance_status) (stays 1 refl refl)
  | inr (i, h) ↦
      rw (h, report_instance_status) (rewrite_instance-Logged _ _ instance_status_reported s refl)
]

pub update_health_check_state-Logged :
    (key : InstanceKey) (state : HealthCheckRuntimeState) (s : MemoryDiscoveryStore)
    → Logged 0 s (update_health_check_state key state s).1
unfolding update_health_check_state
update_health_check_state-Logged key state s = elim (Option-cases (get key s.instances)) [
  | inl h ↦ rw (h, update_health_check_state) (stays 0 refl refl)
  | inr (i, h) ↦ rw (h, update_health_check_state) (stays 0 refl refl)
]

evict-Logged :
    (key : InstanceKey) (i : ServiceInstance) (s : MemoryDiscoveryStore)
    → Logged 1 s (evict key i s).1
unfolding evict next_revision
evict-Logged key i s = pushes _ refl refl refl

evict_all-Logged :
    (ks : List InstanceKey) (s : MemoryDiscoveryStore) → Logged (length ks) s (evict_all ks s).1
unfolding evict_all
evict_all-Logged [] s = stays 0 refl refl
evict_all-Logged (k ∷ ks) s = elim (Option-cases (get k s.instances)) [
  | inl e ↦ rw (e, evict_all) (at_most _ _ (omega arith) (evict_all-Logged ks s))
  | inr (i, e) ↦
      rw (e, evict_all)
        (at_most _ _ (omega arith)
          (chain 1 (length ks) (evict-Logged k i s) (evict_all-Logged ks (evict k i s).1)))
]

evict_live-Logged :
    (now : ℕ) (key : InstanceKey) (o : Option ServiceInstance) (s : MemoryDiscoveryStore)
    → Logged 1 s (evict_live now key o s).1
evict_live-Logged now key none s = stays 1 refl refl
evict_live-Logged now key (some i) s = elim (Bool-cases (expired_at now i)) [
  | inl late ↦ rw late (stays 1 refl refl)
  | inr live ↦ rw live (evict-Logged key i s)
]

pub deregister_instance-Logged :
    (key : InstanceKey) (now : ℕ) (s : MemoryDiscoveryStore)
    → Logged 1 s (deregister_instance key now s).1
unfolding deregister_instance
deregister_instance-Logged key now s = elim (Result-cases (validate_key key)) [
  | inl (e, h) ↦ rw (h, deregister_instance) (stays 1 refl refl)
  | inr (u, h) ↦ rw (h, deregister_instance) (evict_live-Logged now key (get key s.instances) s)
]

pub batch_deregister_instances-Logged :
    (n e sn : String) (ids : List String) (now : ℕ) (s : MemoryDiscoveryStore)
    → Logged (length ids) s (batch_deregister_instances n e sn ids now s).1
unfolding batch_deregister_instances
batch_deregister_instances-Logged n e sn [] now s = stays 0 refl refl
batch_deregister_instances-Logged n e sn (id ∷ ids) now s =
    let key : InstanceKey = record {
      namespace = n;
      environment = e;
      service_name = sn;
      instance_id = id;
    } in
    let s1 = (deregister_instance key now s).1 in
    let first = deregister_instance-Logged key now s in
    elim (Result-cases (deregister_instance key now s).0) [
      | inl (x, h) ↦ rw (h, batch_deregister_instances) (at_most _ _ (omega arith) first)
      | inr (x, h) ↦
          rw (h, batch_deregister_instances)
            (at_most _ _ (omega arith)
              (chain 1 (length ids) first (batch_deregister_instances-Logged n e sn ids now s1)))
    ]

pub expire_instances-Logged :
    (now limit : ℕ) (s : MemoryDiscoveryStore) → Logged limit s (expire_instances now limit s).1
unfolding expire_instances
expire_instances-Logged now limit s = elim (Bool-cases (nat_beq limit 0)) [
  | inl h ↦ rw (h, expire_instances) (stays limit refl refl)
  | inr h ↦
      rw (h, expire_instances)
        (at_most _ _ (length-take-le limit (sort_by key_leb (expired_keys now s.instances)))
          (evict_all-Logged _ s))
]
