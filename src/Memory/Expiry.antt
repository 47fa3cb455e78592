-- ===== src/Memory/Expiry.antt =====
-- What `expire_instances` of crates/sdkwork-discovery-storage-memory/src/registry.rs takes away.
use sdkwork_discovery.Prelude.{ℕ, ◌≤◌, ◌<◌, ◌≡◌, refl, ap, ◌∙◌, false, none, arith}
use sdkwork_discovery.Prelude.Lists.{length, take}
use sdkwork_discovery.Prelude.Sort.{sort_by}
use sdkwork_discovery.Prelude.Tests.{text_eq, nat_beq, if◌then◌else◌}
use sdkwork_discovery.Prelude.Map.{get}
use sdkwork_discovery.Contract.Error.{ok}
use sdkwork_discovery.Memory.Store.{MemoryDiscoveryStore, InstanceKey, instance_key_eq}
use sdkwork_discovery.Memory.Expire.{expired_keys, key_leb, evict_all, expire_instances}
use sdkwork_discovery.Memory.Leases.Writes.{IsValid}
use sdkwork_discovery.Memory.Evicting.{
  expired_entry, member, get-evict_all, member-sort_by, member-take_all, length-sort_by,
  length-expired_keys, member-expired_keys,
}

-- What a scan with a positive limit leaves: the chosen keys are gone, and nothing else.
expire_instances-taken :
    (s : MemoryDiscoveryStore) (now limit : ℕ)
    → 0 < limit
    → expire_instances now limit s ≡ (
      ok (evict_all (take limit (sort_by key_leb (expired_keys now s.instances))) s).0,
      (evict_all (take limit (sort_by key_leb (expired_keys now s.instances))) s).1,
    )
unfolding expire_instances
expire_instances-taken s now limit pos =
    let positive : nat_beq limit 0 ≡ false = ground arith in rw (positive, expire_instances) refl

member-chosen :
    (s : MemoryDiscoveryStore) (now : ℕ) (k : InstanceKey)
    → IsValid s
    → member k (sort_by key_leb (expired_keys now s.instances))
      ≡ expired_entry now (get k s.instances)
member-chosen s now k v =
    member-sort_by key_leb k (expired_keys now s.instances)
    ∙ member-expired_keys now k s.instances v.distinct

-- In a valid store, a scan whose limit is positive and no less than the number of instances
-- leaves exactly the instances that have not expired.
pub expire-all :
    (s : MemoryDiscoveryStore) (now limit : ℕ) (k : InstanceKey)
    → IsValid s
    → 0 < limit
    → length s.instances ≤ limit
    → get k (expire_instances now limit s).1.instances
      ≡ (if expired_entry now (get k s.instances) then none else get k s.instances)
expire-all s now limit k v pos enough =
    let found = sort_by key_leb (expired_keys now s.instances) in
    let keys = take limit found in
    let short : length found ≤ limit = omega (
      arith,
      length-sort_by key_leb (expired_keys now s.instances),
      length-expired_keys now s.instances,
    ) in
    let chosen : member k keys ≡ expired_entry now (get k s.instances) =
      member-take_all limit k found short ∙ member-chosen s now k v in
    rw (expire_instances-taken s now limit pos)
      (get-evict_all keys s k ∙ ap (λ b. if b then none else get k s.instances) chosen)
