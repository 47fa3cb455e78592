-- ===== src/Memory/Removal.antt =====
-- What `deregister_instance` and `expire_instances` of
-- crates/sdkwork-discovery-storage-memory/src/registry.rs take away.
use sdkwork_discovery.Prelude.{
  ℕ, ◌≤◌, ◌<◌, ◌≡◌, ◌≢◌, refl, ap, ◌∙◌, String, true, false, ◌⊎◌, Option, none, some, inl, inr,
  arith, eq_iff,
}
use sdkwork_discovery.Prelude.Tests.{Bool-cases, Option-cases, text_eq}
use sdkwork_discovery.Prelude.Map.{get, get-remove}
use sdkwork_discovery.Contract.Error.{ok}
use sdkwork_discovery.Contract.Registry.{ServiceInstance}
use sdkwork_discovery.Memory.Store.{
  MemoryDiscoveryStore, InstanceKey, instance_key_eq, instance_key_iff, next_revision,
}
use sdkwork_discovery.Memory.Register.{expired_at}
use sdkwork_discovery.Memory.Lifecycle.{
  evict, deregister_instance, deregister_result, validate_key, key_of,
}
use sdkwork_discovery.Memory.Leases.Writes.{IsValid}

-- An eviction takes the instance and every lease that leads to it, and nothing else.
record Evicted (s t : MemoryDiscoveryStore) (key : InstanceKey) : Type 0 where
  gone : get key t.instances ≡ none
  leases : (l : String) → get l s.lease_index ≡ some key → get l t.lease_index ≡ none
  others : (k : InstanceKey) → k ≢ key → get k t.instances ≡ get k s.instances

evict-Evicted :
    (s : MemoryDiscoveryStore) (key : InstanceKey) (i : ServiceInstance)
    → IsValid s
    → get key s.instances ≡ some i
    → Evicted s (evict key i s).1 key
unfolding evict next_revision
evict-Evicted s key i v at = record {
  gone = ground (arith, get-remove key key s.instances, instance_key_iff key key);
  leases = λ l h.
      let (j, found, same) = v.leased l key h in
      ground (arith, get-remove i.lease_id l s.lease_index, eq_iff i.lease_id l);
  others = λ k apart. ground (arith, get-remove key k s.instances, instance_key_iff key k, apart);
}

deregister_live :
    (s : MemoryDiscoveryStore) (key : InstanceKey) (now : ℕ) (i : ServiceInstance)
    → validate_key key ≡ ok tt
    → get key s.instances ≡ some i
    → expired_at now i ≡ false
    → key_of i ≡ key
    → deregister_instance key now s
      ≡ (ok (deregister_result key (evict key i s).1.revision true), (evict key i s).1)
unfolding deregister_instance evict next_revision
deregister_live s key now i valid at live named =
    let found : deregister_instance key now s
        ≡ (ok (deregister_result (key_of i) (evict key i s).1.revision true), (evict key i s).1) =
      rw (valid, at, deregister_instance) (rw live refl) in
    found
    ∙ ap (λ k. (ok (deregister_result k (evict key i s).1.revision true), (evict key i s).1)) named

deregister_none :
    (s : MemoryDiscoveryStore) (key : InstanceKey) (now : ℕ) (o : Option ServiceInstance)
    → validate_key key ≡ ok tt
    → get key s.instances ≡ o
    → ((i : ServiceInstance) → o ≡ some i → i.expires_at_ms ≤ now)
    → deregister_instance key now s ≡ (ok (deregister_result key 0 false), s)
unfolding deregister_instance
deregister_none s key now none valid at late = rw (valid, at, deregister_instance) refl
deregister_none s key now (some i) valid at late =
    let h : i.expires_at_ms ≤ now = late i refl in
    let e : expired_at now i ≡ true = ground arith in
    rw (valid, at, deregister_instance) (rw e refl)

-- In a valid store, a deregistration under a valid key either finds an instance that has not
-- expired, and takes it with every lease that leads to it and nothing else of the instances, or
-- answers that it did nothing and leaves the store as it was.
pub deregister_outcome :
    (s : MemoryDiscoveryStore) (key : InstanceKey) (now : ℕ)
    → IsValid s
    → validate_key key ≡ ok tt
    → ((i : ServiceInstance) × (t : MemoryDiscoveryStore) × (get key s.instances ≡ some i)
        × (now < i.expires_at_ms)
        × (deregister_instance key now s ≡ (ok (deregister_result key t.revision true), t))
        × (get key t.instances ≡ none)
        × ((l : String) → get l s.lease_index ≡ some key → get l t.lease_index ≡ none)
        × ((k : InstanceKey) → k ≢ key → get k t.instances ≡ get k s.instances))
      ⊎ (((i : ServiceInstance) → get key s.instances ≡ some i → i.expires_at_ms ≤ now)
          × (deregister_instance key now s ≡ (ok (deregister_result key 0 false), s)))
deregister_outcome s key now v valid = elim (Option-cases (get key s.instances)) [
  | inl e ↦
      let late : (i : ServiceInstance) → get key s.instances ≡ some i → i.expires_at_ms ≤ now =
        λ i at. ground arith in
      inr (late, deregister_none s key now _ valid refl late)
  | inr (i, e) ↦ elim (Bool-cases (expired_at now i)) [
    | inl old ↦
        let late : (j : ServiceInstance) → get key s.instances ≡ some j → j.expires_at_ms ≤ now =
          λ j at. ground arith in
        inr (late, deregister_none s key now _ valid refl late)
    | inr live ↦
        let w : Evicted s (evict key i s).1 key = evict-Evicted s key i v e in
        inl (
          i,
          (evict key i s).1,
          e,
          ground arith,
          deregister_live s key now i valid e live (v.keyed key i e),
          w.gone,
          w.leases,
          w.others,
        )
  ]
]
