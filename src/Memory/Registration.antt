-- ===== src/Memory/Registration.antt =====
-- What `register_instance` of crates/sdkwork-discovery-storage-memory/src/registry.rs leaves behind.
use sdkwork_discovery.Prelude.{
  ℕ, ◌+◌, ◌%◌, ◌≤◌, ◌<◌, ◌^◌, ◌≡◌, ◌≢◌, refl, sym, ap, ◌∙◌, String, Option, none, some, inl, inr,
  ◌⊎◌, arith,
}
use sdkwork_discovery.Prelude.Tests.{Option-cases, text_eq}
use sdkwork_discovery.Prelude.Map.{get, get-insert, get-insert_self}
use sdkwork_discovery.Contract.Error.{
  DiscoveryResult, DiscoveryError, Result-cases, ok, err, ◌>>◌, ok_injective,
}
use sdkwork_discovery.Contract.Registry.{
  ServiceInstance, RegisterInstanceCommand, RegisterInstanceResult, RetrieveInstanceQuery,
}
use sdkwork_discovery.Memory.Store.{
  MemoryDiscoveryStore, InstanceKey, instance_key_eq, instance_key_iff, id_text, next_revision,
  next_id, u64_mod, validate_non_empty,
}
use sdkwork_discovery.Memory.Register.{
  register_instance, register_checked, write_registration, register_key, live_lease, assign_lease,
  register_expiry, new_instance, validate_register, check_expected, store_instance, register_result,
}
use sdkwork_discovery.Memory.Reads.{retrieve_instance}
use sdkwork_discovery.Memory.Leases.Writes.{IsValid}
use sdkwork_discovery.Memory.Ids.{id_text_injective}
use sdkwork_discovery.Contract.Event.{DiscoveryEventKind, instance_registered, instance_updated}
use mathlib.Core.Path.{subst₂}

abbrev checks : RegisterInstanceCommand → MemoryDiscoveryStore → DiscoveryResult (Unit {0})
checks c s =
    validate_register c >> check_expected c.expected_revision (get (register_key c) s.instances)

abbrev lease_before : RegisterInstanceCommand → MemoryDiscoveryStore → Option String
lease_before c s = live_lease c.now_ms (get (register_key c) s.instances)

-- The lease that a registration answers with.
abbrev pub granted : Option String → MemoryDiscoveryStore → String
granted none s = id_text "lease" ((s.next_sequence + 1) % u64_mod)
granted (some l) s = l

-- What a successful write leaves.
record Written (c : RegisterInstanceCommand) (s t : MemoryDiscoveryStore)
    (r : RegisterInstanceResult) : Type 0 where
  stored :
      get (register_key c) t.instances ≡ some (new_instance c r.lease_id r.expires_at_ms r.revision)
  indexed : get r.lease_id t.lease_index ≡ some (register_key c)
  others : (k : InstanceKey) → k ≢ register_key c → get k t.instances ≡ get k s.instances
  stamped : r.revision ≡ (s.revision + 1) % u64_mod
  current : t.revision ≡ r.revision

-- The same of a write with a given lease, revision and end.
store_instance-Written :
    (c : RegisterInstanceCommand) (s : MemoryDiscoveryStore) (l : String) (end revision n : ℕ)
    (kind : DiscoveryEventKind)
    → revision ≡ (s.revision + 1) % u64_mod
    → Written c s
        (store_instance
          (register_key c)
          (new_instance c l end revision)
          kind
          (record s { revision = revision; next_sequence = n }))
        (register_result (new_instance c l end revision))
unfolding store_instance new_instance
store_instance-Written c s l end revision n kind e = record {
  stored = get-insert_self (register_key c) _ s.instances;
  indexed = get-insert_self l (register_key c) _;
  others = λ k apart. ground (
    arith,
    get-insert (register_key c) k (new_instance c l end revision) s.instances,
    instance_key_iff (register_key c) k,
    apart,
  );
  stamped = e;
  current = refl;
}

write_registration-Written :
    (c : RegisterInstanceCommand) (existing : Option String) (expiry : DiscoveryResult ℕ)
    (s t : MemoryDiscoveryStore) (r : RegisterInstanceResult)
    → write_registration c existing expiry s ≡ (ok r, t)
    → Written c s t r × (r.lease_id ≡ granted existing s) × (expiry ≡ ok r.expires_at_ms)
unfolding write_registration assign_lease next_id next_revision new_instance
write_registration-Written c none (err e) s t r h = cc
write_registration-Written c none (ok end) s t r h =
    let same_t =
      ap (λ (x : DiscoveryResult RegisterInstanceResult × MemoryDiscoveryStore). x.1) h in
    let same_r =
      ok_injective
        (ap (λ (x : DiscoveryResult RegisterInstanceResult × MemoryDiscoveryStore). x.0) h) in
    (
      subst₂ (Written c s) same_t same_r
          (store_instance-Written c s _ end _ _ instance_registered refl),
      ap (λ (x : RegisterInstanceResult). x.lease_id) (sym same_r),
      ap (λ (x : RegisterInstanceResult). ok x.expires_at_ms) same_r,
    )
write_registration-Written c (some l) (err e) s t r h = cc
write_registration-Written c (some l) (ok end) s t r h =
    let same_t =
      ap (λ (x : DiscoveryResult RegisterInstanceResult × MemoryDiscoveryStore). x.1) h in
    let same_r =
      ok_injective
        (ap (λ (x : DiscoveryResult RegisterInstanceResult × MemoryDiscoveryStore). x.0) h) in
    (
      subst₂ (Written c s) same_t same_r
          (store_instance-Written c s l end _ s.next_sequence instance_updated refl),
      ap (λ (x : RegisterInstanceResult). x.lease_id) (sym same_r),
      ap (λ (x : RegisterInstanceResult). ok x.expires_at_ms) same_r,
    )

register_instance-ok :
    (c : RegisterInstanceCommand) (s t : MemoryDiscoveryStore) (r : RegisterInstanceResult)
    → register_instance c s ≡ (ok r, t)
    → (checks c s ≡ ok tt) × (register_checked c s ≡ (ok r, t))
unfolding register_instance
register_instance-ok c s t r h = elim (Result-cases (checks c s)) [
  | inl (e, f) ↦ absurd (ground (arith, rw (f, register_instance) at h))
  | inr (u, f) ↦ (f, rw (f, register_instance) at h)
]

named_lem :
    (c : RegisterInstanceCommand) (r : DiscoveryResult (Unit {0}))
    → (validate_register c >> r) ≡ ok tt
    → (validate_non_empty "namespace" c.namespace ≡ ok tt)
      × (validate_non_empty "environment" c.environment ≡ ok tt)
      × (validate_non_empty "service_name" c.service_name ≡ ok tt)
      × (validate_non_empty "instance_id" c.instance_id ≡ ok tt)
unfolding validate_register
named_lem c r h = ground arith

-- The query for the instance that a command registers.
abbrev pub query_of : RegisterInstanceCommand → RetrieveInstanceQuery
query_of c = record {
  namespace = c.namespace;
  environment = c.environment;
  service_name = c.service_name;
  instance_id = c.instance_id;
}

retrieve-stored :
    (c : RegisterInstanceCommand) (t : MemoryDiscoveryStore) (i : ServiceInstance) (later : ℕ)
    → get (register_key c) t.instances ≡ some i
    → (validate_non_empty "namespace" c.namespace ≡ ok tt)
      × (validate_non_empty "environment" c.environment ≡ ok tt)
      × (validate_non_empty "service_name" c.service_name ≡ ok tt)
      × (validate_non_empty "instance_id" c.instance_id ≡ ok tt)
    → later < i.expires_at_ms
    → retrieve_instance t (query_of c) later ≡ ok (some i)
unfolding retrieve_instance
retrieve-stored c t i later at (a, b, d, e) live = rw (a, b, d, e, at) (ground arith)

-- A successful registration is found by its key at every time before its lease ends; its lease
-- leads to it; every other instance is as it was; the answer's revision is the store's next one.
pub register-retrieve :
    (c : RegisterInstanceCommand) (s t : MemoryDiscoveryStore) (r : RegisterInstanceResult)
    (later : ℕ)
    → register_instance c s ≡ (ok r, t)
    → later < r.expires_at_ms
    → (retrieve_instance t (query_of c) later
        ≡ ok (some (new_instance c r.lease_id r.expires_at_ms r.revision)))
      × (get r.lease_id t.lease_index ≡ some (register_key c))
      × ((k : InstanceKey) → k ≢ register_key c → get k t.instances ≡ get k s.instances)
      × (r.revision ≡ (s.revision + 1) % u64_mod)
      × (t.revision ≡ r.revision)
unfolding register_checked new_instance
register-retrieve c s t r later h before =
    let (checked, written) = register_instance-ok c s t r h in
    let (w, lease, end) =
      write_registration-Written c (lease_before c s) (register_expiry c) s t r written in
    (
      retrieve-stored c t _ later w.stored (named_lem c _ checked) before,
      w.indexed,
      w.others,
      w.stamped,
      w.current,
    )

-- The next number's lease is no stored instance's.
next_lease_fresh :
    (s : MemoryDiscoveryStore) (k : InstanceKey) (i : ServiceInstance)
    → IsValid s
    → s.next_sequence + 1 < 2 ^ 64
    → get k s.instances ≡ some i
    → i.lease_id ≢ granted none s
next_lease_fresh s k i v room at same =
    let (n, bound, text) = v.minted k i at in
    let e : n ≡ (s.next_sequence + 1) % u64_mod =
      id_text_injective "lease" n ((s.next_sequence + 1) % u64_mod) (omega arith) (omega arith)
        (sym text ∙ same) in
    absurd (omega arith)

live_lease-none :
    (now : ℕ) (o : Option ServiceInstance) (i : ServiceInstance)
    → live_lease now o ≡ none
    → o ≡ some i
    → i.expires_at_ms ≤ now
unfolding live_lease
live_lease-none now none i h e = cc
live_lease-none now (some j) i h e = ground arith

live_lease-live :
    (now : ℕ) (o : Option ServiceInstance) (l : String)
    → live_lease now o ≡ some l
    → (i : ServiceInstance) × (o ≡ some i) × (now < i.expires_at_ms) × (l ≡ i.lease_id)
unfolding live_lease
live_lease-live now none l h = cc
live_lease-live now (some i) l h = (i, refl, ground arith, ground arith)

-- In a valid store with a lease number left, a successful registration over an instance that has
-- not expired keeps its lease. Any other registration gets a lease that no stored instance has.
pub register-lease :
    (c : RegisterInstanceCommand) (s t : MemoryDiscoveryStore) (r : RegisterInstanceResult)
    → IsValid s
    → s.next_sequence + 1 < 2 ^ 64
    → register_instance c s ≡ (ok r, t)
    → ((i : ServiceInstance) × (get (register_key c) s.instances ≡ some i)
        × (c.now_ms < i.expires_at_ms)
        × (r.lease_id ≡ i.lease_id))
      ⊎ (((i : ServiceInstance)
            → get (register_key c) s.instances ≡ some i
            → i.expires_at_ms ≤ c.now_ms)
          × ((k : InstanceKey) (i : ServiceInstance)
              → get k s.instances ≡ some i
              → i.lease_id ≢ r.lease_id))
unfolding register_checked
register-lease c s t r v room h = elim (Option-cases (lease_before c s)) [
  | inl e ↦ inr (
    λ i. live_lease-none c.now_ms _ i e,
    λ k i at same. next_lease_fresh s k i v room at (same ∙ lease ∙ ap (λ o. granted o s) e),
  )
  | inr (l, e) ↦
      let (i, at, live, same) = live_lease-live c.now_ms _ l e in
      inl (i, at, live, lease ∙ ap (λ o. granted o s) e ∙ same)
]
  where
    lease : r.lease_id ≡ granted (lease_before c s) s
    lease =
        (write_registration-Written c (lease_before c s) (register_expiry c) s t r
          (register_instance-ok c s t r h).1).1

-- A failed write: the end of the lease did not fit.
record Spent (c : RegisterInstanceCommand) (expiry : DiscoveryResult ℕ) (s t : MemoryDiscoveryStore)
    (e : DiscoveryError) : Type 0 where
  cause : expiry ≡ err e
  revision : t.revision ≡ (s.revision + 1) % u64_mod
  instances : t.instances ≡ s.instances
  lease_index : t.lease_index ≡ s.lease_index
  events : t.events ≡ s.events

write_registration-Spent :
    (c : RegisterInstanceCommand) (existing : Option String) (expiry : DiscoveryResult ℕ)
    (s t : MemoryDiscoveryStore) (e : DiscoveryError)
    → write_registration c existing expiry s ≡ (err e, t)
    → Spent c expiry s t e
unfolding write_registration assign_lease next_id next_revision
write_registration-Spent c none (err x) s t e h = ground arith
write_registration-Spent c none (ok end) s t e h = cc
write_registration-Spent c (some l) (err x) s t e h = ground arith
write_registration-Spent c (some l) (ok end) s t e h = cc

-- A registration that fails leaves the store as it was, but for one case: where the end of the
-- lease does not fit into 64 bits, a revision is used up, while the instances, the leases and the
-- events stay.
pub register-err :
    (c : RegisterInstanceCommand) (s t : MemoryDiscoveryStore) (e : DiscoveryError)
    → register_instance c s ≡ (err e, t)
    → (t ≡ s)
      ⊎ ((register_expiry c ≡ err e)
          × (t.revision ≡ (s.revision + 1) % u64_mod)
          × (t.instances ≡ s.instances)
          × (t.lease_index ≡ s.lease_index)
          × (t.events ≡ s.events))
unfolding register_instance register_checked
register-err c s t e h = elim (Result-cases (checks c s)) [
  | inl (x, f) ↦ inl (ground (arith, rw (f, register_instance) at h))
  | inr (u, f) ↦
      let w : Spent c (register_expiry c) s t e =
        write_registration-Spent c (lease_before c s) (register_expiry c) s t e
          (rw (f, register_instance) at h) in
      inr (w.cause, w.revision, w.instances, w.lease_index, w.events)
]
