-- ===== src/Memory/Renewal.antt =====
-- What `renew_lease` of crates/sdkwork-discovery-storage-memory/src/registry.rs does.
use sdkwork_discovery.Prelude.{ℕ, ◌+◌, ◌*◌, ◌≤◌, ◌<◌, ◌≡◌, ◌≢◌, none, some, inl, inr, arith, ◌%◌}
use sdkwork_discovery.Prelude.Tests.{text_eq}
use sdkwork_discovery.Prelude.Map.{get, remove, get-insert, get-insert_self}
use sdkwork_discovery.Contract.Error.{Result-cases, ok, err, not_found}
use sdkwork_discovery.Contract.Registry.{ServiceInstance, RenewLeaseCommand, RenewLeaseResult}
use sdkwork_discovery.Memory.Store.{
  MemoryDiscoveryStore, InstanceKey, instance_key_eq, instance_key_iff, next_revision,
  lease_expires_at_ms, u64_max, u64_mod,
}
use sdkwork_discovery.Memory.Lifecycle.{
  renew_lookup, renew_found, renew_lease, rewrite_instance, validate_renew,
}
use sdkwork_discovery.Memory.Leases.Writes.{IsValid}

-- The end of a lease is the time plus the seconds in milliseconds, and fits into 64 bits.
lease_expires_at_ms-ok :
    (now ttl end : ℕ)
    → lease_expires_at_ms now ttl ≡ ok end
    → (end ≡ now + ttl * 1000) × (end ≤ u64_max)
unfolding lease_expires_at_ms
lease_expires_at_ms-ok now ttl end h = ground arith

renew_lookup_parts :
    (c : RenewLeaseCommand) (s : MemoryDiscoveryStore) (k : InstanceKey) (i : ServiceInstance)
    (end : ℕ)
    → renew_lookup c s ≡ ok (k, i, end)
    → (get c.lease_id s.lease_index ≡ some k)
      × (get k s.instances ≡ some i)
      × (lease_expires_at_ms c.now_ms c.lease_ttl_seconds ≡ ok end)
unfolding renew_lookup
renew_lookup_parts c s k i end h = ground arith

-- What a renewal changes: the end and the revision of the instance that the lease leads to.
record Renewed (c : RenewLeaseCommand) (s t : MemoryDiscoveryStore) (r : RenewLeaseResult)
    (k : InstanceKey) (i : ServiceInstance) : Type 0 where
  found : get k s.instances ≡ some i
  live : c.now_ms < i.expires_at_ms
  stored :
      get k t.instances ≡ some (record i { expires_at_ms = r.expires_at_ms; revision = r.revision })
  others : (j : InstanceKey) → j ≢ k → get j t.instances ≡ get j s.instances
  leases : t.lease_index ≡ s.lease_index

renew_found-Renewed :
    (c : RenewLeaseCommand) (s t : MemoryDiscoveryStore) (r : RenewLeaseResult) (k : InstanceKey)
    (i : ServiceInstance) (end : ℕ)
    → get k s.instances ≡ some i
    → renew_found c k i end s ≡ (ok r, t)
    → Renewed c s t r k i × (r.expires_at_ms ≡ end)
unfolding renew_found next_revision rewrite_instance
renew_found-Renewed c s t r k i end at h = (
  record {
    found = at;
    live = ground arith;
    stored = ground (
      arith,
      get-insert_self k (record i { expires_at_ms = end; revision = (s.revision + 1) % u64_mod })
          s.instances,
    );
    others = λ j apart. ground (
      arith,
      get-insert k j (record i { expires_at_ms = end; revision = (s.revision + 1) % u64_mod })
          s.instances,
      instance_key_iff k j,
      apart,
    );
    leases = ground arith;
  },
  ground arith,
)

-- A successful renewal in a valid store: the lease is that of one instance, which had not
-- expired. The instance gets the time plus the seconds as its end, also if it had been registered
-- as persistent, and nothing else of it changes but its revision. No other instance changes, and
-- no lease.
pub renew-extends :
    (c : RenewLeaseCommand) (s t : MemoryDiscoveryStore) (r : RenewLeaseResult)
    → IsValid s
    → renew_lease c s ≡ (ok r, t)
    → (k : InstanceKey) × (i : ServiceInstance) × (get c.lease_id s.lease_index ≡ some k)
      × (get k s.instances ≡ some i)
      × (i.lease_id ≡ c.lease_id)
      × (c.now_ms < i.expires_at_ms)
      × (r.expires_at_ms ≡ c.now_ms + c.lease_ttl_seconds * 1000)
      × (r.expires_at_ms ≤ u64_max)
      × (get k t.instances
          ≡ some (record i { expires_at_ms = r.expires_at_ms; revision = r.revision }))
      × ((j : InstanceKey) → j ≢ k → get j t.instances ≡ get j s.instances)
      × (t.lease_index ≡ s.lease_index)
unfolding renew_lease
renew-extends c s t r v h = elim (Result-cases (renew_lookup c s)) [
  | inl (e, f) ↦ absurd (ground (arith, rw (f, renew_lease) at h))
  | inr ((k, i, end), f) ↦
      let (index, at, fits) = renew_lookup_parts c s k i end f in
      let (w, e) = renew_found-Renewed c s t r k i end at (rw (f, renew_lease) at h) in
      let (sum, bound) = lease_expires_at_ms-ok c.now_ms c.lease_ttl_seconds end fits in
      let (j, found, same) = v.leased c.lease_id k index in
      (
        k,
        i,
        index,
        at,
        ground arith,
        w.live,
        omega arith,
        omega arith,
        w.stored,
        w.others,
        w.leases,
      )
]

pub renew_late :
    (c : RenewLeaseCommand) (s : MemoryDiscoveryStore) (k : InstanceKey) (i : ServiceInstance)
    (end : ℕ)
    → validate_renew c ≡ ok tt
    → lease_expires_at_ms c.now_ms c.lease_ttl_seconds ≡ ok end
    → get c.lease_id s.lease_index ≡ some k
    → get k s.instances ≡ some i
    → i.expires_at_ms ≤ c.now_ms
    → renew_lease c s ≡ (
      err (not_found "lease not found"),
      record s { lease_index = remove c.lease_id s.lease_index },
    )
unfolding renew_lease renew_lookup renew_found
renew_late c s k i end vc fits index at late = ground arith

pub renew_missing :
    (d : RenewLeaseCommand) (t : MemoryDiscoveryStore)
    → validate_renew d ≡ ok tt
    → get d.lease_id t.lease_index ≡ none
    → (renew_lease d t).0 ≡ err (not_found "lease not found")
unfolding renew_lease renew_lookup
renew_missing d t vd gone = ground arith
