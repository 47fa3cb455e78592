-- ===== src/Memory/Expire.antt =====
-- crates/sdkwork-discovery-storage-memory/src/registry.rs: `expire_instances`.
use sdkwork_discovery.Prelude.{ℕ, String, Bool, none, some, List, [], ◌∷◌}
use sdkwork_discovery.Prelude.Tests.{◌==◌, nat_beq, if◌then◌else◌, text_eq, nat_eq}
use sdkwork_discovery.Prelude.Map.{get}
use sdkwork_discovery.Prelude.Text.{text_leb}
use sdkwork_discovery.Contract.Error.{ok, err, invalid_argument, Op}
use sdkwork_discovery.Contract.Registry.{ServiceInstance, DeregisterInstanceResult}
use sdkwork_discovery.Memory.Store.{MemoryDiscoveryStore, InstanceKey, instance_key_eq}
use sdkwork_discovery.Memory.Register.{expired_at}
use sdkwork_discovery.Memory.Lifecycle.{evict}
use sdkwork_discovery.Prelude.Lists.{take}
use sdkwork_discovery.Prelude.Map.{Map}
use sdkwork_discovery.Prelude.Sort.{sort_by}

-- The keys whose instances have expired, in the order of the map.
unfoldable pub expired_keys : ℕ → Map InstanceKey ServiceInstance → List InstanceKey
expired_keys now_ms [] = []
expired_keys now_ms ((k, i) ∷ m) =
    let rest = expired_keys now_ms m in if expired_at now_ms i then k ∷ rest else rest

-- Rust's `<=` on tuples: the first field that differs decides.
abbrev then_leb : String → String → Bool → Bool
then_leb a b rest = if a == b then rest else text_leb a b

abbrev pub key_leb : InstanceKey → InstanceKey → Bool
key_leb a b = then_leb a.namespace b.namespace (
    then_leb a.environment b.environment
      (then_leb a.service_name b.service_name (text_leb a.instance_id b.instance_id)))

-- The loop of `expire_instances` over the chosen keys.
unfoldable pub evict_all :
    List InstanceKey → MemoryDiscoveryStore → List DeregisterInstanceResult × MemoryDiscoveryStore
evict_all [] s = ([], s)
evict_all (k ∷ ks) s = elim (get k s.instances) [
  | none ↦ evict_all ks s
  | some i ↦ let (r, s1) = evict k i s in let (rs, s2) = evict_all ks s1 in (r ∷ rs, s2)
]

unfoldable pub expire_instances : ℕ → ℕ → Op MemoryDiscoveryStore (List DeregisterInstanceResult)
expire_instances now_ms max_instances s =
    if nat_beq max_instances 0
    then (err (invalid_argument "max_instances must be greater than zero"), s)
    else let keys = take max_instances (sort_by key_leb (expired_keys now_ms s.instances)) in
      let (rs, s1) = evict_all keys s in (ok rs, s1)
