-- ===== src/Core/Isolation.antt =====
-- What the checks of crates/sdkwork-discovery-core/src/control_plane.rs keep apart, over the
-- in-memory store.
use sdkwork_discovery.Prelude.{
  ℕ, ◌≡◌, ◌≢◌, refl, sym, ap, ◌∙◌, String, true, false, inl, inr, Option, none, some, List, [], ◌∷◌,
  arith, ◌+◌,
}
use sdkwork_discovery.Prelude.Lists.{All}
use sdkwork_discovery.Prelude.Map.{Map, get, insert, get-insert, get-remove}
use sdkwork_discovery.Prelude.Tests.{text_eq, Bool-cases}
use sdkwork_discovery.Contract.Error.{DiscoveryResult, ok, err, Result-cases, Op, ◌>>◌}
use sdkwork_discovery.Contract.Registry.{
  RegisterInstanceCommand, ReportInstanceStatusCommand, ServiceInstance,
}
use sdkwork_discovery.Contract.Context.{CallerContext, RegistryPermission}
use sdkwork_discovery.Memory.Store.{
  MemoryDiscoveryStore, InstanceKey, instance_key_eq, instance_key_iff, next_revision, next_id,
}
use sdkwork_discovery.Core.Policy.{
  belongs_to, require_namespace_tenant_access, require_registry_permission,
}
use sdkwork_discovery.Core.Store.{memory_ops}
use sdkwork_discovery.Core.Plane.{DiscoveryControlPlane, guarded, check_register, check_all}
use sdkwork_discovery.Core.Plane
use sdkwork_discovery.Memory.Register
use sdkwork_discovery.Memory.Lifecycle

-- A caller of a tenant gets past the namespace check only in the tenant's own namespaces.
pub access-belongs :
    (caller : CallerContext) (tenant_id namespace : String)
    → caller.tenant_id ≡ some tenant_id
    → require_namespace_tenant_access caller namespace ≡ ok tt
    → belongs_to tenant_id namespace ≡ true
unfolding require_namespace_tenant_access
access-belongs caller tenant_id namespace h passed =
    elim (Bool-cases (belongs_to tenant_id namespace)) [
      | inl e ↦ e
      | inr e ↦ ground (arith, h, passed)
    ]

get-insert_other :
    (j k : InstanceKey) (i : ServiceInstance) (m : Map InstanceKey ServiceInstance)
    → j ≢ k
    → get k (insert j i m) ≡ get k m
get-insert_other j k i m apart = ground (arith, get-insert j k i m, instance_key_iff j k, apart)

-- The writes under one key leave every other key alone.
write_registration-spares :
    (c : RegisterInstanceCommand) (lease : Option String) (expiry : DiscoveryResult ℕ)
    (s : MemoryDiscoveryStore) (k : InstanceKey)
    → k.namespace ≢ c.namespace
    → get k (Register.write_registration c lease expiry s).1.instances ≡ get k s.instances
unfolding Register.write_registration Register.assign_lease Register.store_instance next_revision
    next_id
write_registration-spares c none (err e) s k apart = refl
write_registration-spares c none (ok at) s k apart =
    get-insert_other (Register.register_key c) k _ s.instances
      (λ e. apart (ap (λ x. x.namespace) (sym e)))
write_registration-spares c (some l) (err e) s k apart = refl
write_registration-spares c (some l) (ok at) s k apart =
    get-insert_other (Register.register_key c) k _ s.instances
      (λ e. apart (ap (λ x. x.namespace) (sym e)))

register_instance-spares :
    (c : RegisterInstanceCommand) (s : MemoryDiscoveryStore) (k : InstanceKey)
    → k.namespace ≢ c.namespace
    → get k (Register.register_instance c s).1.instances ≡ get k s.instances
unfolding Register.register_instance Register.register_checked
register_instance-spares c s k apart = ground (
  arith,
  write_registration-spares c
      (Register.live_lease c.now_ms (get (Register.register_key c) s.instances))
      (Register.register_expiry c) s k apart,
)

report-spares :
    (c : ReportInstanceStatusCommand) (s : MemoryDiscoveryStore) (k : InstanceKey)
    → k.namespace ≢ c.namespace
    → get k (Lifecycle.report_instance_status c s).1.instances ≡ get k s.instances
unfolding Lifecycle.report_instance_status Lifecycle.rewrite_instance next_revision
report-spares c s k apart = elim (Result-cases (Lifecycle.report_lookup c s)) [
  | inl (e, h) ↦ rw (h, Lifecycle.report_instance_status) refl
  | inr (i, h) ↦
      rw (h, Lifecycle.report_instance_status)
        (get-insert_other (Lifecycle.report_key c) k _ s.instances
          (λ e. apart (ap (λ x. x.namespace) (sym e))))
]

evict_live-spares :
    (now : ℕ) (key : InstanceKey) (o : Option ServiceInstance) (s : MemoryDiscoveryStore)
    (k : InstanceKey)
    → k.namespace ≢ key.namespace
    → get k (Lifecycle.evict_live now key o s).1.instances ≡ get k s.instances
unfolding Lifecycle.evict next_revision
evict_live-spares now key none s k apart = refl
evict_live-spares now key (some i) s k apart =
    let differs : key ≢ k = λ e. apart (ap (λ x. x.namespace) (sym e)) in
    ground (arith, get-remove key k s.instances, instance_key_iff key k, differs)

deregister-spares :
    (key : InstanceKey) (now : ℕ) (s : MemoryDiscoveryStore) (k : InstanceKey)
    → k.namespace ≢ key.namespace
    → get k (Lifecycle.deregister_instance key now s).1.instances ≡ get k s.instances
unfolding Lifecycle.deregister_instance
deregister-spares key now s k apart =
    ground (arith, evict_live-spares now key (get key s.instances) s k apart)

batch_register_from-spares :
    (index : ℕ) (cs : List RegisterInstanceCommand) (s : MemoryDiscoveryStore) (k : InstanceKey)
    → All (λ c. k.namespace ≢ c.namespace) cs
    → get k (Register.batch_register_from index cs s).1.instances ≡ get k s.instances
unfolding Register.batch_register_from
batch_register_from-spares index [] s k apart = refl
batch_register_from-spares index (c ∷ cs) s k apart =
    batch_register_from-spares (index + 1) cs (Register.register_instance c s).1 k apart.1
    ∙ register_instance-spares c s k apart.0

both : (a b : DiscoveryResult (Unit {0})) → (a >> b) ≡ ok tt → (a ≡ ok tt) × (b ≡ ok tt)
both (ok _) b h = (refl, h)
both (err e) b h = ground (arith, h)

module _ (hash : ℕ → ℕ → ℕ) (content_hash : String → String) (plane : DiscoveryControlPlane)
    (caller : CallerContext) (tenant_id : String) (member : caller.tenant_id ≡ some tenant_id)
    (s : MemoryDiscoveryStore) (k : InstanceKey)
    (foreign : belongs_to tenant_id k.namespace ≡ false) where
  away :
      (namespace : String)
      → require_namespace_tenant_access caller namespace ≡ ok tt
      → k.namespace ≢ namespace
  away namespace passed e =
      let own = access-belongs caller tenant_id namespace member passed in
      ground (arith, ap (belongs_to tenant_id) e)

  guarded-spares :
      {A : Type 0} (checks : DiscoveryResult (Unit {0})) (op : Op MemoryDiscoveryStore A)
      → (checks ≡ ok tt → get k (op s).1.instances ≡ get k s.instances)
      → get k (guarded (memory_ops hash content_hash) plane caller checks op s).1.instances
        ≡ get k s.instances
  guarded-spares (ok _) op h = h refl
  guarded-spares (err e) op h = refl

  check_all-away :
      (cs : List RegisterInstanceCommand)
      → check_all (memory_ops hash content_hash) plane caller cs ≡ ok tt
      → All (λ c. k.namespace ≢ c.namespace) cs
  unfolding check_all check_register
  check_all-away [] h = tt
  check_all-away (c ∷ cs) h =
      let (first, rest) = both (check_register (memory_ops hash content_hash) plane caller c) _ h in
      let (access, ttl) = both (require_namespace_tenant_access caller c.namespace) _ first in
      (away c.namespace access, check_all-away cs rest)

  -- A caller of one tenant that registers, registers in a batch, reports a status or deregisters
  -- through the control plane changes no instance of a namespace outside the tenant, whatever the
  -- command names and whatever the caller's permissions are.
  pub tenant_isolation :
      ((c : RegisterInstanceCommand)
        → get k
            (Plane.register_instance (memory_ops hash content_hash) plane caller c s).1.instances
          ≡ get k s.instances)
      × ((cs : List RegisterInstanceCommand)
          → get k
              (Plane.batch_register_instances
                (memory_ops hash content_hash)
                plane
                caller
                cs
                s).1.instances
            ≡ get k s.instances)
      × ((c : ReportInstanceStatusCommand)
          → get k
              (Plane.report_instance_status
                (memory_ops hash content_hash)
                plane
                caller
                c
                s).1.instances
            ≡ get k s.instances)
      × ((key : InstanceKey) (now : ℕ)
          → get k
              (Plane.deregister_instance
                (memory_ops hash content_hash)
                plane
                caller
                key
                now
                s).1.instances
            ≡ get k s.instances)
  unfolding Plane.register_instance Plane.batch_register_instances Plane.report_instance_status
      Plane.deregister_instance check_register Register.batch_register_instances
  tenant_isolation = (
    (λ c. guarded-spares _ (Register.register_instance c) (λ h.
        let (permitted, checked) =
          both (require_registry_permission caller RegistryPermission.write) _ h in
        let (access, ttl) = both (require_namespace_tenant_access caller c.namespace) _ checked in
        register_instance-spares c s k (away c.namespace access))),
    (λ cs. guarded-spares _ (Register.batch_register_instances cs) (λ h.
        let (permitted, checked) =
          both (require_registry_permission caller RegistryPermission.write) _ h in
        batch_register_from-spares 0 cs s k (check_all-away cs checked))),
    (λ c. guarded-spares _ (Lifecycle.report_instance_status c) (λ h.
        let (permitted, access) =
          both (require_registry_permission caller RegistryPermission.write) _ h in
        report-spares c s k (away c.namespace access))),
    (λ key now. guarded-spares _ (Lifecycle.deregister_instance key now) (λ h.
        let (permitted, access) =
          both (require_registry_permission caller RegistryPermission.write) _ h in
        deregister-spares key now s k (away key.namespace access))),
  )
