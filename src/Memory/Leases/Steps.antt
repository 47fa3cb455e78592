-- ===== src/Memory/Leases/Steps.antt =====
-- Each operation on the instances keeps instances and leases in agreement.
use sdkwork_discovery.Prelude.{
  ℕ, ◌+◌, ◌≤◌, ◌<◌, ◌^◌, ◌≡◌, refl, sym, ◌∙◌, String, List, [], ◌∷◌, inl, inr, Option, none, some,
  arith, ◌%◌,
}
use sdkwork_discovery.Prelude.Lists.{length}
use sdkwork_discovery.Prelude.Tests.{Bool-cases, Option-cases, nat_beq}
use sdkwork_discovery.Prelude.Map.{get}
use sdkwork_discovery.Contract.Error.{Result-cases, err, ok, DiscoveryResult, ◌>>◌}
use sdkwork_discovery.Contract.Registry.{
  ServiceInstance, RegisterInstanceCommand, RenewLeaseCommand, ReportInstanceStatusCommand,
}
use sdkwork_discovery.Contract.Health.{HealthCheckRuntimeState}
use sdkwork_discovery.Memory.Store.{
  MemoryDiscoveryStore, InstanceKey, id_text, next_revision, next_id, instance_key_eq, u64_mod,
}
use sdkwork_discovery.Memory.Ids.{id_text_injective}
use sdkwork_discovery.Memory.Register.{
  register_checked, register_instance, register_key, live_lease, assign_lease, register_expiry,
  new_instance, batch_register_from, write_registration, validate_register, check_expected,
  expired_at, store_instance,
}
use sdkwork_discovery.Memory.Lifecycle.{
  renew_lookup, renew_found, renew_lease, report_lookup, report_key, report_instance_status,
  evict_live, deregister_instance, batch_deregister_instances, update_health_check_state,
  validate_key,
}
use sdkwork_discovery.Memory.Leases.Writes.{
  IsValid, mint-IsValid, store_instance-IsValid, evict-IsValid, rewrite_instance-IsValid,
  insert-IsValid, unlease-IsValid,
}
use sdkwork_discovery.Contract.Event.{
  instance_registered, instance_updated, instance_status_reported, instance_renewed,
}
use sdkwork_discovery.Memory.Lifecycle.{
  renew_lookup, renew_found, renew_lease, report_lookup, report_key, report_instance_status,
  evict_live, deregister_instance, batch_deregister_instances, update_health_check_state,
}
use sdkwork_discovery.Memory.Expire.{evict_all, expire_instances}
use sdkwork_discovery.Memory.Leases.Writes.{
  evict-IsValid, rewrite_instance-IsValid, insert-IsValid, unlease-IsValid,
}
use sdkwork_discovery.Prelude.Tests.{text_eq}

pub live_lease-some :
    (now : ℕ) (o : Option ServiceInstance) (l : String)
    → live_lease now o ≡ some l
    → (i : ServiceInstance) × (o ≡ some i) × (i.lease_id ≡ l)
unfolding live_lease
live_lease-some now none l h = cc
live_lease-some now (some i) l h = (i, refl, ground arith)

module _ {s : MemoryDiscoveryStore} (v : IsValid s) where
  module _ (c : RegisterInstanceCommand) (room : s.next_sequence + 1 < 2 ^ 64) where
    -- A new number's lease is nobody's.
    pub fresh_lease :
        (k : InstanceKey) (i : ServiceInstance)
        → get k s.instances ≡ some i
        → i.lease_id ≡ id_text "lease" (s.next_sequence + 1)
        → k ≡ register_key c
    fresh_lease k i h e =
        let (n, bound, text) = v.minted k i h in
        absurd (
          omega (
            arith,
            id_text_injective "lease" n (s.next_sequence + 1) (omega arith) room (sym text ∙ e),
          ))

    write_registration-IsValid :
        (existing : Option String) (expiry : DiscoveryResult ℕ)
        → live_lease c.now_ms (get (register_key c) s.instances) ≡ existing
        → IsValid (write_registration c existing expiry s).1
    unfolding write_registration assign_lease next_id next_revision new_instance
    write_registration-IsValid none (err e) h = mint-IsValid v _ _ (omega arith)
    write_registration-IsValid none (ok end) h =
        store_instance-IsValid (mint-IsValid v _ _ (omega arith)) (register_key c) _
          instance_registered refl (next, omega arith, refl)
          (λ k i at e. fresh_lease k i at (rw (← next_lem) e))
      where
        next : ℕ
        next = (s.next_sequence + 1) % u64_mod

        next_lem : next ≡ s.next_sequence + 1
        next_lem = omega arith
    write_registration-IsValid (some l) (err e) h = mint-IsValid v _ _ (omega arith)
    write_registration-IsValid (some l) (ok end) h =
        let (i, at, lease) = live_lease-some c.now_ms _ l h in
        let (n, bound, text) = v.minted (register_key c) i at in
        store_instance-IsValid (mint-IsValid v s.next_sequence _ (omega arith)) (register_key c) _
          instance_updated refl (n, bound, sym lease ∙ text)
          (λ k j found e. v.owned k (register_key c) j i found at (e ∙ sym lease))

    pub register_instance-IsValid : IsValid (register_instance c s).1
    unfolding register_instance register_checked
    register_instance-IsValid =
        elim (Result-cases (
          validate_register c
          >> check_expected c.expected_revision (get (register_key c) s.instances))) [
            | inl (e, h) ↦ rw (h, register_instance) v
            | inr (u, h) ↦
                rw (h, register_instance) (write_registration-IsValid _ (register_expiry c) refl)
          ]

  next_revision-IsValid : IsValid (next_revision s).1
  unfolding next_revision
  next_revision-IsValid = mint-IsValid v s.next_sequence _ (omega arith)

  renew_found-IsValid :
      (c : RenewLeaseCommand) (key : InstanceKey) (current : ServiceInstance) (end : ℕ)
      → get key s.instances ≡ some current
      → IsValid (renew_found c key current end s).1
  unfolding renew_found next_revision
  renew_found-IsValid c key current end at = elim (Bool-cases (expired_at c.now_ms current)) [
    | inl late ↦ rw (late, renew_found) (unlease-IsValid v c.lease_id)
    | inr live ↦
        rw (live, renew_found)
          (rewrite_instance-IsValid next_revision-IsValid key current _ instance_renewed at refl
            refl)
  ]

  pub renew_lookup-ok :
      (c : RenewLeaseCommand) (key : InstanceKey) (current : ServiceInstance) (end : ℕ)
      → renew_lookup c s ≡ ok (key, current, end)
      → (get c.lease_id s.lease_index ≡ some key) × (get key s.instances ≡ some current)
  unfolding renew_lookup
  renew_lookup-ok c key current end h = ground arith

  pub renew_lease-IsValid : (c : RenewLeaseCommand) → IsValid (renew_lease c s).1
  unfolding renew_lease
  renew_lease-IsValid c = elim (Result-cases (renew_lookup c s)) [
    | inl (e, h) ↦ rw (h, renew_lease) v
    | inr ((key, current, end), h) ↦
        rw (h, renew_lease)
          (renew_found-IsValid c key current end (renew_lookup-ok c key current end h).1)
  ]

  pub report_lookup-ok :
      (c : ReportInstanceStatusCommand) (current : ServiceInstance)
      → report_lookup c s ≡ ok current
      → get (report_key c) s.instances ≡ some current
  unfolding report_lookup
  report_lookup-ok c current h = ground arith

  pub report_instance_status-IsValid :
      (c : ReportInstanceStatusCommand) → IsValid (report_instance_status c s).1
  unfolding report_instance_status next_revision
  report_instance_status-IsValid c = elim (Result-cases (report_lookup c s)) [
    | inl (e, h) ↦ rw (h, report_instance_status) v
    | inr (current, h) ↦
        rw (h, report_instance_status)
          (rewrite_instance-IsValid next_revision-IsValid (report_key c) current _
            instance_status_reported (report_lookup-ok c current h) refl refl)
  ]

  evict_live-IsValid :
      (now : ℕ) (key : InstanceKey) (o : Option ServiceInstance)
      → get key s.instances ≡ o
      → IsValid (evict_live now key o s).1
  evict_live-IsValid now key none at = v
  evict_live-IsValid now key (some i) at = elim (Bool-cases (expired_at now i)) [
    | inl late ↦ rw late v
    | inr live ↦ rw live (evict-IsValid v key i at)
  ]

  pub deregister_instance-IsValid :
      (key : InstanceKey) (now : ℕ) → IsValid (deregister_instance key now s).1
  unfolding deregister_instance
  deregister_instance-IsValid key now = elim (Result-cases (validate_key key)) [
    | inl (e, h) ↦ rw (h, deregister_instance) v
    | inr (u, h) ↦ rw (h, deregister_instance) (evict_live-IsValid now key _ refl)
  ]

  pub update_health_check_state-IsValid :
      (key : InstanceKey) (state : HealthCheckRuntimeState)
      → IsValid (update_health_check_state key state s).1
  unfolding update_health_check_state
  update_health_check_state-IsValid key state = elim (Option-cases (get key s.instances)) [
    | inl e ↦ rw (e, update_health_check_state) v
    | inr (i, e) ↦
        rw (e, update_health_check_state)
          (insert-IsValid v key i _ instance_status_reported e refl refl)
  ]

pub evict_all-IsValid :
    (ks : List InstanceKey) {s : MemoryDiscoveryStore} → IsValid s → IsValid (evict_all ks s).1
unfolding evict_all
evict_all-IsValid [] v = v
evict_all-IsValid (k ∷ ks) {s} v = elim (Option-cases (get k s.instances)) [
  | inl e ↦ rw (e, evict_all) (evict_all-IsValid ks v)
  | inr (i, e) ↦ rw (e, evict_all) (evict_all-IsValid ks (evict-IsValid v k i e))
]

pub expire_instances-IsValid :
    (now limit : ℕ) {s : MemoryDiscoveryStore}
    → IsValid s
    → IsValid (expire_instances now limit s).1
unfolding expire_instances
expire_instances-IsValid now limit {s} v = elim (Bool-cases (nat_beq limit 0)) [
  | inl e ↦ rw e v
  | inr e ↦ rw e (evict_all-IsValid _ v)
]

pub batch_deregister_instances-IsValid :
    (namespace environment service_name : String) (ids : List String) (now : ℕ)
    {s : MemoryDiscoveryStore}
    → IsValid s
    → IsValid (batch_deregister_instances namespace environment service_name ids now s).1
unfolding batch_deregister_instances
batch_deregister_instances-IsValid n e sn [] now v = v
batch_deregister_instances-IsValid n e sn (id ∷ ids) now {s} v =
    elim (Result-cases (deregister_instance key now s).0) [
      | inl (x, h) ↦ rw (h, batch_deregister_instances) first
      | inr (x, h) ↦
          rw (h, batch_deregister_instances)
            (batch_deregister_instances-IsValid n e sn ids now first)
    ]
  where
    key : InstanceKey
    key = record { namespace = n; environment = e; service_name = sn; instance_id = id }

    first : IsValid (deregister_instance key now s).1
    first = deregister_instance-IsValid v key now

-- A registration uses at most one number.
pub register_instance-sequence :
    (c : RegisterInstanceCommand) (s : MemoryDiscoveryStore)
    → (register_instance c s).1.next_sequence ≤ s.next_sequence + 1
unfolding register_instance register_checked write_registration assign_lease next_id next_revision
    store_instance
register_instance-sequence c s = ground arith

pub batch_register_from-IsValid :
    (index : ℕ) (cs : List RegisterInstanceCommand) {s : MemoryDiscoveryStore}
    → s.next_sequence + length cs < 2 ^ 64
    → IsValid s
    → IsValid (batch_register_from index cs s).1
unfolding batch_register_from
batch_register_from-IsValid index [] room v = v
batch_register_from-IsValid index (c ∷ cs) {s} room v =
    batch_register_from-IsValid (index + 1) cs (omega (arith, register_instance-sequence c s))
      (register_instance-IsValid v c (omega arith))
