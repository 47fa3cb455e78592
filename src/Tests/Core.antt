-- ===== src/Tests/Core.antt =====
-- Concrete inputs for the theorems on the control plane.
use sdkwork_discovery.Prelude.{
  ℕ, ◌≡◌, refl, String, true, false, none, some, List, [], ◌∷◌, arith, ◌+◌, ◌*◌, ◌%◌,
}
use sdkwork_discovery.Prelude.Map.{get}
use sdkwork_discovery.Contract.Error.{err, permission_denied}
use sdkwork_discovery.Contract.Registry.{
  RegisterInstanceCommand, ReportInstanceStatusCommand, RenewLeaseCommand, not_serving,
}
use sdkwork_discovery.Contract.Context.{CallerContext, RegistryPermission}
use sdkwork_discovery.Memory.Store.{MemoryDiscoveryStore, InstanceKey, instance_key_eq, u64_mod}
use sdkwork_discovery.Memory.Lifecycle.{renew_lease}
use sdkwork_discovery.Core.Policy.{default_registry_policy, belongs_to, not_authorized}
use sdkwork_discovery.Core.Store.{memory_ops}
use sdkwork_discovery.Core.Plane.{DiscoveryControlPlane}
use sdkwork_discovery.Core.Plane
use sdkwork_discovery.Core.Isolation.{tenant_isolation}
use sdkwork_discovery.Core.Crossing.{renew_crosses_tenants}
use sdkwork_discovery.Tests.Data.{store_1, key, instance_1}

abbrev pub hash : ℕ → ℕ → ℕ
hash m n = 7

abbrev pub hash_text : String → String
hash_text value = value

abbrev pub plane : DiscoveryControlPlane
plane = record {
  parsers = record { json_error = λ value. none; toml_error = λ value. none };
  config_policy = record {
    enabled = true;
    require_publish_for_reads = false;
    allow_secret_values = false;
    allow_secret_refs = true;
    max_config_body_bytes = 1000;
  };
  registry_policy = default_registry_policy;
}

-- A caller of another tenant than the one of the stored instance.
abbrev caller : CallerContext
caller = record {
  subject_id = "eve";
  tenant_id = some "evil";
  organization_id = none;
  registry_permissions = RegistryPermission.write ∷ [];
  config_permissions = [];
}

tenant_isolation_example :
    ((c : RegisterInstanceCommand)
      → get key
          (Plane.register_instance (memory_ops hash hash_text) plane caller c store_1).1.instances
        ≡ get key store_1.instances)
    × ((cs : List RegisterInstanceCommand)
        → get key
            (Plane.batch_register_instances
              (memory_ops hash hash_text)
              plane
              caller
              cs
              store_1).1.instances
          ≡ get key store_1.instances)
    × ((c : ReportInstanceStatusCommand)
        → get key
            (Plane.report_instance_status
              (memory_ops hash hash_text)
              plane
              caller
              c
              store_1).1.instances
          ≡ get key store_1.instances)
    × ((k : InstanceKey) (now : ℕ)
        → get key
            (Plane.deregister_instance
              (memory_ops hash hash_text)
              plane
              caller
              k
              now
              store_1).1.instances
          ≡ get key store_1.instances)
unfolding belongs_to
tenant_isolation_example = tenant_isolation hash hash_text plane caller "evil" refl store_1 key refl

abbrev renewal : RenewLeaseCommand
renewal = record { lease_id = "lease-1"; lease_ttl_seconds = 60; now_ms = 5000 }

abbrev report : ReportInstanceStatusCommand
report = record {
  namespace = "acme";
  environment = "prod";
  service_name = "orders";
  instance_id = "orders-1";
  status = not_serving;
  now_ms = 5000;
  expected_revision = none;
}

-- A caller without permissions.
abbrev reader : CallerContext
reader = record caller { registry_permissions = [] }

renew_crosses_tenants_example :
    (Plane.report_instance_status (memory_ops hash hash_text) plane caller report store_1
      ≡ (err (permission_denied (not_authorized caller "acme")), store_1))
    × (Plane.deregister_instance (memory_ops hash hash_text) plane caller key 5000 store_1
        ≡ (err (permission_denied (not_authorized caller "acme")), store_1))
    × (get key
          (Plane.renew_lease (memory_ops hash hash_text) plane caller renewal store_1).1.instances
        ≡ some (record instance_1 {
          expires_at_ms = 5000 + 60 * 1000;
          revision = (store_1.revision + 1) % u64_mod;
        }))
    × ((Plane.renew_lease (memory_ops hash hash_text) plane reader renewal store_1).1 ≡ store_1)
    × ((Plane.renew_lease
          (memory_ops hash hash_text)
          plane
          caller
          (record renewal { lease_ttl_seconds = 1000000 })
          store_1).1
        ≡ store_1)
unfolding belongs_to get sdkwork_discovery.Contract.Context.has_registry_permission
    sdkwork_discovery.Memory.Lifecycle.validate_renew
    sdkwork_discovery.Memory.Store.validate_non_empty sdkwork_discovery.Prelude.Text.is_blank
renew_crosses_tenants_example =
    renew_crosses_tenants hash hash_text plane caller "evil" refl store_1 key refl refl renewal
      (record renewal { lease_ttl_seconds = 1000000 }) instance_1 report 5000 reader refl refl refl
      (omega arith) (omega arith)
      (record {
        ordered = omega arith;
        topped = omega arith;
        enough = omega arith;
        few = omega arith;
      })
      refl refl (omega arith)
