-- ===== src/Memory/Evicting.antt =====
-- crates/sdkwork-discovery-storage-memory/src/registry.rs: the loop of `expire_instances` over keys,
-- and the keys that the scan chooses.
use sdkwork_discovery.Prelude.{
  ℕ, zero, suc, ◌+◌, ◌≤◌, ◌≡◌, refl, ap, ◌∙◌, Bool, true, false, ◌||◌, Option, none, some, inl, inr,
  List, [], ◌∷◌, arith,
}
use sdkwork_discovery.Prelude.Lists.{length, take}
use sdkwork_discovery.Prelude.Sort.{sort_by, insert_by}
use sdkwork_discovery.Prelude.Tests.{Bool-cases, Option-cases, text_eq, ◌==◌, if◌then◌else◌}
use sdkwork_discovery.Prelude.Map.{Map, get, get-remove, Distinct, remove-Distinct, length-remove}
use sdkwork_discovery.Contract.Registry.{ServiceInstance}
use sdkwork_discovery.Memory.Store.{
  MemoryDiscoveryStore, InstanceKey, instance_key_eq, instance_key_iff, next_revision,
}
use sdkwork_discovery.Memory.Register.{expired_at}
use sdkwork_discovery.Memory.Lifecycle.{evict}
use sdkwork_discovery.Memory.Expire.{expired_keys, evict_all}

-- Whether there is an instance, and it has expired.
abbrev pub expired_entry : ℕ → Option ServiceInstance → Bool
expired_entry now none = false
expired_entry now (some i) = expired_at now i

abbrev pub member : InstanceKey → List InstanceKey → Bool
member k [] = false
member k (j ∷ ks) = j == k || member k ks

get-evict :
    (j k : InstanceKey) (i : ServiceInstance) (s : MemoryDiscoveryStore)
    → get k (evict j i s).1.instances ≡ (if j == k then none else get k s.instances)
unfolding evict next_revision
get-evict j k i s = get-remove j k s.instances

length-evict :
    (j : InstanceKey) (i : ServiceInstance) (s : MemoryDiscoveryStore)
    → Distinct s.instances
    → get j s.instances ≡ some i
    → length (evict j i s).1.instances + 1 ≡ length s.instances
unfolding evict next_revision
length-evict j i s d at = length-remove j i s.instances d at

evict-Distinct :
    (j : InstanceKey) (i : ServiceInstance) (s : MemoryDiscoveryStore)
    → Distinct s.instances
    → Distinct (evict j i s).1.instances
unfolding evict next_revision
evict-Distinct j i s d = remove-Distinct j s.instances d

-- The loop takes exactly the listed keys.
pub get-evict_all :
    (ks : List InstanceKey) (s : MemoryDiscoveryStore) (k : InstanceKey)
    → get k (evict_all ks s).1.instances ≡ (if member k ks then none else get k s.instances)
unfolding evict_all
get-evict_all [] s k = refl
get-evict_all (j ∷ ks) s k = elim (Option-cases (get j s.instances)) [
  | inl e ↦ rw (e, evict_all) (ground (arith, get-evict_all ks s k, instance_key_iff j k))
  | inr (i, e) ↦
      rw (e, evict_all) (ground (arith, get-evict_all ks (evict j i s).1 k, get-evict j k i s))
]

-- Each instance that is taken is reported once.
pub length-evict_all-instances :
    (ks : List InstanceKey) (s : MemoryDiscoveryStore)
    → Distinct s.instances
    → length (evict_all ks s).1.instances + length (evict_all ks s).0 ≡ length s.instances
unfolding evict_all
length-evict_all-instances [] s d = omega arith
length-evict_all-instances (j ∷ ks) s d = elim (Option-cases (get j s.instances)) [
  | inl e ↦ rw (e, evict_all) (length-evict_all-instances ks s d)
  | inr (i, e) ↦
      let one : length (evict j i s).1.instances + 1 ≡ length s.instances =
        length-evict j i s d e in
      let kept : Distinct (evict j i s).1.instances = evict-Distinct j i s d in
      rw (e, evict_all) (omega (arith, one, length-evict_all-instances ks (evict j i s).1 kept))
]

member-insert_by :
    (le : InstanceKey → InstanceKey → Bool) (k j : InstanceKey) (ks : List InstanceKey)
    → member k (insert_by le j ks) ≡ (j == k || member k ks)
unfolding insert_by
member-insert_by le k j [] = refl
member-insert_by le k j (i ∷ ks) = ground (arith, member-insert_by le k j ks)

pub member-sort_by :
    (le : InstanceKey → InstanceKey → Bool) (k : InstanceKey) (ks : List InstanceKey)
    → member k (sort_by le ks) ≡ member k ks
unfolding sort_by
member-sort_by le k [] = refl
member-sort_by le k (j ∷ ks) =
    ground (arith, member-insert_by le k j (sort_by le ks), member-sort_by le k ks)

pub member-take :
    (n : ℕ) (k : InstanceKey) (ks : List InstanceKey)
    → member k (take n ks) ≡ true
    → member k ks ≡ true
member-take zero k ks h = cc
member-take (suc n) k [] h = cc
member-take (suc n) k (j ∷ ks) h = ground (arith, member-take n k ks)

pub member-take_all :
    (n : ℕ) (k : InstanceKey) (ks : List InstanceKey)
    → length ks ≤ n
    → member k (take n ks) ≡ member k ks
member-take_all zero k [] h = refl
member-take_all zero k (j ∷ ks) h = absurd (omega arith)
member-take_all (suc n) k [] h = refl
member-take_all (suc n) k (j ∷ ks) h = ground (arith, member-take_all n k ks (omega arith))

length-insert_by :
    (le : InstanceKey → InstanceKey → Bool) (j : InstanceKey) (ks : List InstanceKey)
    → length (insert_by le j ks) ≡ suc (length ks)
unfolding insert_by
length-insert_by le j [] = refl
length-insert_by le j (i ∷ ks) = ground (arith, length-insert_by le j ks)

pub length-sort_by :
    (le : InstanceKey → InstanceKey → Bool) (ks : List InstanceKey)
    → length (sort_by le ks) ≡ length ks
unfolding sort_by
length-sort_by le [] = refl
length-sort_by le (j ∷ ks) =
    omega (arith, length-insert_by le j (sort_by le ks), length-sort_by le ks)

pub length-expired_keys :
    (now : ℕ) (m : Map InstanceKey ServiceInstance) → length (expired_keys now m) ≤ length m
unfolding expired_keys
length-expired_keys now [] = omega arith
length-expired_keys now ((j, i) ∷ m) = ground (arith, length-expired_keys now m)

-- The listed keys are those of the expired instances.
pub member-expired_keys :
    (now : ℕ) (k : InstanceKey) (m : Map InstanceKey ServiceInstance)
    → Distinct m
    → member k (expired_keys now m) ≡ expired_entry now (get k m)
unfolding expired_keys get
member-expired_keys now k [] d = refl
member-expired_keys now k ((j, i) ∷ m) d =
    ground (arith, member-expired_keys now k m d.1, instance_key_iff j k)

abbrev pub AllDiff : List InstanceKey → Type 0
AllDiff [] = Unit
AllDiff (k ∷ ks) = (member k ks ≡ false) × AllDiff ks

insert_by-AllDiff :
    (le : InstanceKey → InstanceKey → Bool) (j : InstanceKey) (ks : List InstanceKey)
    → member j ks ≡ false
    → AllDiff ks
    → AllDiff (insert_by le j ks)
unfolding insert_by
insert_by-AllDiff le j [] absent d = (refl, tt)
insert_by-AllDiff le j (i ∷ ks) absent d = ground (
  arith,
  insert_by-AllDiff le j ks,
  member-insert_by le i j ks,
  instance_key_iff i j,
  instance_key_iff j i,
)

pub sort_by-AllDiff :
    (le : InstanceKey → InstanceKey → Bool) (ks : List InstanceKey)
    → AllDiff ks
    → AllDiff (sort_by le ks)
unfolding sort_by
sort_by-AllDiff le [] d = tt
sort_by-AllDiff le (j ∷ ks) d =
    insert_by-AllDiff le j (sort_by le ks) (member-sort_by le j ks ∙ d.0)
      (sort_by-AllDiff le ks d.1)

pub take-AllDiff : (n : ℕ) (ks : List InstanceKey) → AllDiff ks → AllDiff (take n ks)
take-AllDiff zero ks d = tt
take-AllDiff (suc n) [] d = tt
take-AllDiff (suc n) (j ∷ ks) d =
    let absent : member j (take n ks) ≡ false = ground (arith, member-take n j ks, d.0) in
    (absent, take-AllDiff n ks d.1)

pub expired_keys-AllDiff :
    (now : ℕ) (m : Map InstanceKey ServiceInstance) → Distinct m → AllDiff (expired_keys now m)
unfolding expired_keys
expired_keys-AllDiff now [] d = tt
expired_keys-AllDiff now ((j, i) ∷ m) d =
    let absent : member j (expired_keys now m) ≡ false =
      member-expired_keys now j m d.1 ∙ ap (expired_entry now) d.0 in
    elim (Bool-cases (expired_at now i)) [
      | inl e ↦ rw e (absent, expired_keys-AllDiff now m d.1)
      | inr e ↦ rw e (expired_keys-AllDiff now m d.1)
    ]

-- Of different keys of expired instances, the loop takes each.
pub length-evict_all-found :
    (now : ℕ) (ks : List InstanceKey) (s : MemoryDiscoveryStore)
    → AllDiff ks
    → ((k : InstanceKey) → member k ks ≡ true → expired_entry now (get k s.instances) ≡ true)
    → length (evict_all ks s).0 ≡ length ks
unfolding evict_all
length-evict_all-found now [] s d found = refl
length-evict_all-found now (j ∷ ks) s d found = elim (Option-cases (get j s.instances)) [
  | inl e ↦
      let expired : expired_entry now (get j s.instances) ≡ true =
        found j (ground (arith, instance_key_iff j j)) in
      absurd (ground (arith, e, expired))
  | inr (i, e) ↦
      let rest : (k : InstanceKey)
          → member k ks ≡ true
          → expired_entry now (get k (evict j i s).1.instances) ≡ true =
        λ k m. ground (arith, get-evict j k i s, found k, instance_key_iff j k, d.0) in
      rw (e, evict_all) (ap suc (length-evict_all-found now ks (evict j i s).1 d.1 rest))
]

pub length-take-le : (n : ℕ) (ks : List InstanceKey) → length (take n ks) ≤ n
length-take-le zero ks = omega arith
length-take-le (suc n) [] = omega arith
length-take-le (suc n) (j ∷ ks) = omega (arith, length-take-le n ks)
