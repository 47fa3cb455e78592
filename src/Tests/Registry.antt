-- ===== src/Tests/Registry.antt =====
-- Concrete inputs for the theorems on the registry.
use sdkwork_discovery.Prelude.{
  ℕ, ◌+◌, ◌*◌, ◌≤◌, ◌<◌, ◌%◌, ◌≡◌, ◌≢◌, ◌⊎◌, refl, String, Bool, true, false, none, some, [], ◌∷◌,
  arith, ◌^◌,
}
use sdkwork_discovery.Prelude.Tests.{if◌then◌else◌, text_eq}
use sdkwork_discovery.Prelude.Map.{get, remove}
use sdkwork_discovery.Contract.Error.{ok, err, not_found, invalid_argument}
use sdkwork_discovery.Contract.Registry.{
  RegisterInstanceCommand, ServiceInstance, RenewLeaseCommand, RenewLeaseResult,
}
use sdkwork_discovery.Memory.Store.{
  MemoryDiscoveryStore, InstanceKey, instance_key_eq, new, u64_mod, u64_max,
}
use sdkwork_discovery.Memory.Register.{
  register_instance, register_expiry, new_instance, register_key,
}
use sdkwork_discovery.Memory.Lifecycle.{renew_lease, deregister_instance, deregister_result}
use sdkwork_discovery.Memory.Expire.{expire_instances}
use sdkwork_discovery.Memory.Reads.{retrieve_instance}
use sdkwork_discovery.Memory.Call.{registers, run, renews, expires}
use sdkwork_discovery.Memory.Leases.Writes.{IsValid}
use sdkwork_discovery.Memory.Leases.Runs.{run-IsValid}
use sdkwork_discovery.Memory.Registration.{
  register-retrieve, register-lease, register-err, query_of,
}
use sdkwork_discovery.Memory.Freed.{renew_expired}
use sdkwork_discovery.Memory.Renewal.{renew-extends}
use sdkwork_discovery.Memory.Removal.{deregister_outcome}
use sdkwork_discovery.Memory.Expiry.{expire-all}
use sdkwork_discovery.Memory.Evicting.{expired_entry}
use sdkwork_discovery.Tests.Data.{
  reg, key, instance_1, result_1, store_1, registered, store_1-IsValid,
}

abbrev hash_text : String → String
hash_text value = value

run-IsValid_example : IsValid (run hash_text (registers reg ∷ []) new)
run-IsValid_example = run-IsValid hash_text (registers reg ∷ []) (omega arith)

register-retrieve_example :
    (retrieve_instance store_1 (query_of reg) 2000 ≡ ok (some (new_instance reg "lease-1" 31000 1)))
    × (get "lease-1" store_1.lease_index ≡ some (register_key reg))
    × ((k : InstanceKey) → k ≢ register_key reg → get k store_1.instances ≡ get k new.instances)
    × (result_1.revision ≡ (new.revision + 1) % u64_mod)
    × (store_1.revision ≡ result_1.revision)
register-retrieve_example = register-retrieve reg new store_1 result_1 2000 registered (omega arith)

register-lease_example :
    ((i : ServiceInstance) × (get (register_key reg) new.instances ≡ some i)
      × (1000 < i.expires_at_ms)
      × ("lease-1" ≡ i.lease_id))
    ⊎ (((i : ServiceInstance)
          → get (register_key reg) new.instances ≡ some i
          → i.expires_at_ms ≤ 1000)
        × ((k : InstanceKey) (i : ServiceInstance)
            → get k new.instances ≡ some i
            → i.lease_id ≢ "lease-1"))
unfolding run
register-lease_example =
    register-lease reg new store_1 result_1 (run-IsValid hash_text [] (omega arith)) (omega arith)
      registered

-- A lease whose end does not fit.
abbrev reg_long : RegisterInstanceCommand
reg_long = record reg { lease_ttl_seconds = 2 ^ 63 }

abbrev store_long : MemoryDiscoveryStore
store_long = record new { revision = 1; next_sequence = 1 }

register_long :
    register_instance reg_long new
    ≡ (err (invalid_argument "lease ttl overflows milliseconds"), store_long)
unfolding register_instance sdkwork_discovery.Memory.Register.validate_register
    sdkwork_discovery.Memory.Store.validate_non_empty sdkwork_discovery.Prelude.Text.is_blank
    sdkwork_discovery.Memory.Register.check_expected
    sdkwork_discovery.Memory.Register.register_checked
    sdkwork_discovery.Memory.Register.write_registration register_expiry
    sdkwork_discovery.Memory.Store.lease_expires_at_ms sdkwork_discovery.Memory.Store.next_revision
    sdkwork_discovery.Memory.Register.assign_lease sdkwork_discovery.Memory.Register.live_lease get
    sdkwork_discovery.Memory.Store.next_id
register_long = refl

register-err_example :
    (store_long ≡ new)
    ⊎ ((register_expiry reg_long ≡ err (invalid_argument "lease ttl overflows milliseconds"))
        × (store_long.revision ≡ (new.revision + 1) % u64_mod)
        × (store_long.instances ≡ new.instances)
        × (store_long.lease_index ≡ new.lease_index)
        × (store_long.events ≡ new.events))
register-err_example =
    register-err reg_long new store_long (invalid_argument "lease ttl overflows milliseconds")
      register_long

-- A renewal of the stored lease.
abbrev renewal : RenewLeaseCommand
renewal = record { lease_id = "lease-1"; lease_ttl_seconds = 60; now_ms = 5000 }

abbrev renewed : RenewLeaseResult
renewed = record {
  lease_id = "lease-1";
  namespace = "acme";
  environment = "prod";
  service_name = "orders";
  instance_id = "orders-1";
  revision = 2;
  expires_at_ms = 65000;
}

renewal_done : renew_lease renewal store_1 ≡ (ok renewed, (renew_lease renewal store_1).1)
unfolding renew_lease sdkwork_discovery.Memory.Lifecycle.renew_lookup
    sdkwork_discovery.Memory.Lifecycle.validate_renew
    sdkwork_discovery.Memory.Store.validate_non_empty sdkwork_discovery.Prelude.Text.is_blank get
    sdkwork_discovery.Memory.Store.lease_expires_at_ms
    sdkwork_discovery.Memory.Lifecycle.renew_found sdkwork_discovery.Memory.Store.next_revision
renewal_done = refl

renew-extends_example :
    (k : InstanceKey) × (i : ServiceInstance) × (get "lease-1" store_1.lease_index ≡ some k)
    × (get k store_1.instances ≡ some i)
    × (i.lease_id ≡ "lease-1")
    × (5000 < i.expires_at_ms)
    × (renewed.expires_at_ms ≡ 5000 + 60 * 1000)
    × (renewed.expires_at_ms ≤ u64_max)
    × (get k (renew_lease renewal store_1).1.instances
        ≡ some (record i { expires_at_ms = 65000; revision = 2 }))
    × ((j : InstanceKey)
        → j ≢ k
        → get j (renew_lease renewal store_1).1.instances ≡ get j store_1.instances)
    × ((renew_lease renewal store_1).1.lease_index ≡ store_1.lease_index)
renew-extends_example =
    renew-extends renewal store_1 (renew_lease renewal store_1).1 renewed store_1-IsValid
      renewal_done

abbrev late_renewal : RenewLeaseCommand
late_renewal = record renewal { now_ms = 31000 }

renew_expired_example :
    (renew_lease late_renewal store_1 ≡ (
      err (not_found "lease not found"),
      record store_1 { lease_index = remove "lease-1" store_1.lease_index },
    ))
    × ((renew_lease renewal (
          run
            (λ v. v)
            (renews renewal ∷ expires 32000 5 ∷ [])
            (renew_lease late_renewal store_1).1)).0
        ≡ err (not_found "lease not found"))
unfolding sdkwork_discovery.Memory.Lifecycle.validate_renew
    sdkwork_discovery.Memory.Store.validate_non_empty sdkwork_discovery.Prelude.Text.is_blank
    sdkwork_discovery.Memory.Store.lease_expires_at_ms get
renew_expired_example =
    renew_expired (λ v. v) late_renewal renewal store_1 key instance_1 91000
      (renews renewal ∷ expires 32000 5 ∷ []) refl refl refl refl refl (omega arith) refl
      (refl, (refl, tt))

deregister_outcome_example :
    ((i : ServiceInstance) × (t : MemoryDiscoveryStore) × (get key store_1.instances ≡ some i)
      × (2000 < i.expires_at_ms)
      × (deregister_instance key 2000 store_1 ≡ (ok (deregister_result key t.revision true), t))
      × (get key t.instances ≡ none)
      × ((l : String) → get l store_1.lease_index ≡ some key → get l t.lease_index ≡ none)
      × ((k : InstanceKey) → k ≢ key → get k t.instances ≡ get k store_1.instances))
    ⊎ (((i : ServiceInstance) → get key store_1.instances ≡ some i → i.expires_at_ms ≤ 2000)
        × (deregister_instance key 2000 store_1 ≡ (ok (deregister_result key 0 false), store_1)))
unfolding deregister_instance sdkwork_discovery.Memory.Lifecycle.validate_key
    sdkwork_discovery.Memory.Store.validate_non_empty sdkwork_discovery.Prelude.Text.is_blank
deregister_outcome_example = deregister_outcome store_1 key 2000 store_1-IsValid refl

expire-all_example :
    get key (expire_instances 31000 5 store_1).1.instances
    ≡ (if expired_entry 31000 (get key store_1.instances) then none else get key store_1.instances)
expire-all_example = expire-all store_1 31000 5 key store_1-IsValid (omega arith) (omega arith)
