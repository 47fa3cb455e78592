-- ===== src/Memory/Leases/Writes.antt =====
-- The invariant between instances and leases, and the writes that keep it.
use sdkwork_discovery.Prelude.{
  ℕ, ◌≤◌, ◌≡◌, refl, sym, ap, ◌∙◌, String, false, inl, inr, Option, none, some, arith, eq_iff,
}
use sdkwork_discovery.Prelude.Tests.{◌==◌, Bool-cases, text_eq}
use native.Mathlib.Nat.{le_trans}
use sdkwork_discovery.Prelude.Map.{
  Map, get, get-insert_self, Distinct, insert-Distinct, remove-Distinct, insert, remove, get-insert,
  get-remove,
}
use sdkwork_discovery.Contract.Registry.{ServiceInstance}
use sdkwork_discovery.Contract.Event.{DiscoveryEventKind}
use sdkwork_discovery.Memory.Store.{
  MemoryDiscoveryStore, InstanceKey, instance_key_eq, instance_key_iff, id_text, next_revision,
}
use sdkwork_discovery.Memory.Register.{store_instance, drop_previous_lease}
use sdkwork_discovery.Memory.Lifecycle.{key_of, evict, rewrite_instance}

-- A number of which the lease of an instance is the text.
abbrev pub IsMinted : ℕ → String → Type 0
IsMinted bound lease_id = (n : ℕ) × (n ≤ bound) × (lease_id ≡ id_text "lease" n)

-- Each instance stands under its own key; an indexed lease is the lease of the instance that it
-- leads to; leases are made from numbers used so far; no two instances share one; no key has two
-- entries.
pub record IsValid (s : MemoryDiscoveryStore) : Type 0 where
  pub keyed : (k : InstanceKey) (i : ServiceInstance) → get k s.instances ≡ some i → key_of i ≡ k
  pub leased :
      (l : String) (k : InstanceKey)
      → get l s.lease_index ≡ some k
      → (i : ServiceInstance) × (get k s.instances ≡ some i) × (i.lease_id ≡ l)
  pub minted :
      (k : InstanceKey) (i : ServiceInstance)
      → get k s.instances ≡ some i
      → IsMinted s.next_sequence i.lease_id
  pub owned :
      (k k' : InstanceKey) (i i' : ServiceInstance)
      → get k s.instances ≡ some i
      → get k' s.instances ≡ some i'
      → i.lease_id ≡ i'.lease_id
      → k ≡ k'
  pub distinct : Distinct s.instances

module _ {s : MemoryDiscoveryStore} (v : IsValid s) where
  -- A lease may leave the index.
  pub unlease-IsValid : (l : String) → IsValid (record s { lease_index = remove l s.lease_index })
  unlease-IsValid l = record {
    keyed = v.keyed;
    leased = λ l' k h. v.leased l' k (ground (arith, get-remove l l' s.lease_index));
    minted = v.minted;
    owned = v.owned;
    distinct = v.distinct;
  }

  module _ (key : InstanceKey) (i : ServiceInstance) (at : get key s.instances ≡ some i) where
    evict_leased :
        (l : String) (k : InstanceKey)
        → get l (remove i.lease_id s.lease_index) ≡ some k
        → (j : ServiceInstance) × (get k (remove key s.instances) ≡ some j) × (j.lease_id ≡ l)
    evict_leased l k h =
        let old : get l s.lease_index ≡ some k =
          ground (arith, get-remove i.lease_id l s.lease_index) in
        let (j, found, same) = v.leased l k old in
        (
          j,
          ground (
            arith,
            get-remove key k s.instances,
            get-remove i.lease_id l s.lease_index,
            instance_key_iff key k,
            eq_iff i.lease_id l,
          ),
          same,
        )

    pub evict-IsValid : IsValid (evict key i s).1
    unfolding evict next_revision
    evict-IsValid = record {
      keyed = λ k j h. v.keyed k j (ground (arith, get-remove key k s.instances));
      leased = evict_leased;
      minted = λ k j h. v.minted k j (ground (arith, get-remove key k s.instances));
      owned = λ k k' j j' h h'.
          v.owned k k' j j' (ground (arith, get-remove key k s.instances))
            (ground (arith, get-remove key k' s.instances));
      distinct = remove-Distinct key s.instances v.distinct;
    }

  -- The lease of the new instance is no other instance's.
  module _ (key : InstanceKey) (i : ServiceInstance) (kind : DiscoveryEventKind)
      (named : key_of i ≡ key) (mint : IsMinted s.next_sequence i.lease_id)
      (fresh : (k : InstanceKey) (j : ServiceInstance)
        → get k s.instances ≡ some j
        → j.lease_id ≡ i.lease_id
        → k ≡ key) where
    insert_keyed :
        (k : InstanceKey) (j : ServiceInstance)
        → get k (insert key i s.instances) ≡ some j
        → key_of j ≡ k
    insert_keyed k j h =
        ground (arith, get-insert key k i s.instances, instance_key_iff key k, v.keyed k j)

    insert-IsMinted :
        (k : InstanceKey) (j : ServiceInstance)
        → get k (insert key i s.instances) ≡ some j
        → IsMinted s.next_sequence j.lease_id
    insert-IsMinted k j h = elim (Bool-cases (key == k)) [
      | inl e ↦
          let same : i ≡ j = ground (arith, get-insert key k i s.instances) in
          (mint.0, mint.1, ap (λ (x : ServiceInstance). x.lease_id) (sym same) ∙ mint.2)
      | inr e ↦ v.minted k j (ground (arith, get-insert key k i s.instances))
    ]

    insert_owned :
        (k k' : InstanceKey) (j j' : ServiceInstance)
        → get k (insert key i s.instances) ≡ some j
        → get k' (insert key i s.instances) ≡ some j'
        → j.lease_id ≡ j'.lease_id
        → k ≡ k'
    insert_owned k k' j j' h h' e = ground (
      arith,
      get-insert key k i s.instances,
      get-insert key k' i s.instances,
      instance_key_iff key k,
      instance_key_iff key k',
      v.owned k k' j j',
      fresh k j,
      fresh k' j',
    )

    -- Another lease than the new one, found in the new index, leads elsewhere than to the key.
    kept_lease :
        (o : Option ServiceInstance)
        → get key s.instances ≡ o
        → (l : String) (k : InstanceKey) → (i.lease_id == l) ≡ false
        → get l (drop_previous_lease i.lease_id o s.lease_index) ≡ some k
        → (get l s.lease_index ≡ some k) × ((key == k) ≡ false)
    unfolding drop_previous_lease
    kept_lease none at l k other h =
        let (j, found, same) = v.leased l k h in (h, ground (arith, instance_key_iff key k))
    kept_lease (some p) at l k other h =
        let old : get l s.lease_index ≡ some k =
          ground (arith, get-remove p.lease_id l s.lease_index) in
        let (j, found, same) = v.leased l k old in
        (
          old,
          ground (
            arith,
            get-remove p.lease_id l s.lease_index,
            instance_key_iff key k,
            eq_iff p.lease_id l,
            eq_iff p.lease_id i.lease_id,
            eq_iff i.lease_id l,
          ),
        )

    insert_leased :
        (l : String) (k : InstanceKey)
        → get l (
            insert i.lease_id key
              (drop_previous_lease i.lease_id (get key s.instances) s.lease_index))
          ≡ some k
        → (j : ServiceInstance) × (get k (insert key i s.instances) ≡ some j) × (j.lease_id ≡ l)
    insert_leased l k h = elim (Bool-cases (i.lease_id == l)) [
      | inl e ↦
          let at_key : key ≡ k = ground (arith, get-insert i.lease_id l key index) in
          (i, rw (← at_key) (get-insert_self key i s.instances), (eq_iff i.lease_id l).0 e)
      | inr e ↦
          let old : get l index ≡ some k = ground (arith, get-insert i.lease_id l key index) in
          let (before, apart) = kept_lease (get key s.instances) refl l k e old in
          let (j, found, same) = v.leased l k before in
          (j, ground (arith, get-insert key k i s.instances), same)
    ]
      where
        index : Map String InstanceKey
        index = drop_previous_lease i.lease_id (get key s.instances) s.lease_index

    pub store_instance-IsValid : IsValid (store_instance key i kind s)
    unfolding store_instance
    store_instance-IsValid = record {
      keyed = insert_keyed;
      leased = insert_leased;
      minted = insert-IsMinted;
      owned = insert_owned;
      distinct = insert-Distinct key i s.instances v.distinct;
    }

  -- An instance that is there is changed, and keeps its key and its lease.
  module _ (key : InstanceKey) (old i : ServiceInstance) (kind : DiscoveryEventKind)
      (at : get key s.instances ≡ some old) (named : key_of i ≡ key_of old)
      (lease : i.lease_id ≡ old.lease_id) where
    rewrite_leased :
        (l : String) (k : InstanceKey)
        → get l s.lease_index ≡ some k
        → (j : ServiceInstance) × (get k (insert key i s.instances) ≡ some j) × (j.lease_id ≡ l)
    rewrite_leased l k h =
        let (j, found, same) = v.leased l k h in
        elim (Bool-cases (key == k)) [
          | inl e ↦ (
            i,
            ground (arith, get-insert key k i s.instances),
            ground (arith, instance_key_iff key k),
          )
          | inr e ↦ (j, ground (arith, get-insert key k i s.instances), same)
        ]

    owner :
        (k : InstanceKey) (j : ServiceInstance)
        → get k s.instances ≡ some j
        → j.lease_id ≡ i.lease_id
        → k ≡ key
    owner k j h e = v.owned k key j old h at (e ∙ lease)

    here : key_of i ≡ key
    here = named ∙ v.keyed key old at

    mint : IsMinted s.next_sequence i.lease_id
    mint = let (n, bound, text) = v.minted key old at in (n, bound, lease ∙ text)

    pub insert-IsValid : IsValid (record s { instances = insert key i s.instances })
    insert-IsValid = record {
      keyed = insert_keyed key i kind here mint owner;
      leased = rewrite_leased;
      minted = insert-IsMinted key i kind here mint owner;
      owned = insert_owned key i kind here mint owner;
      distinct = insert-Distinct key i s.instances v.distinct;
    }

    pub rewrite_instance-IsValid : IsValid (rewrite_instance key i kind s)
    unfolding rewrite_instance
    rewrite_instance-IsValid = record {
      keyed = insert-IsValid.keyed;
      leased = insert-IsValid.leased;
      minted = insert-IsValid.minted;
      owned = insert-IsValid.owned;
      distinct = insert-IsValid.distinct;
    }

  -- More numbers are in use.
  pub mint-IsValid :
      (n r : ℕ) → s.next_sequence ≤ n → IsValid (record s { next_sequence = n; revision = r })
  mint-IsValid n r le = record {
    keyed = v.keyed;
    leased = v.leased;
    minted = λ k i h. let (m, bound, text) = v.minted k i h in (m, le_trans bound le, text);
    owned = v.owned;
    distinct = v.distinct;
  }
