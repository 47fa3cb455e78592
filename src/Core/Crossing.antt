-- ===== src/Core/Crossing.antt =====
-- crates/sdkwork-discovery-core/src/control_plane.rs: what a caller may do to an instance of another
-- tenant, over the in-memory store.
use sdkwork_discovery.Prelude.{
  ℕ, ◌+◌, ◌*◌, ◌%◌, ◌≤◌, ◌<◌, ◌≡◌, refl, ap, String, ◌||◌, true, false, some, inl, inr, arith,
}
use sdkwork_discovery.Prelude.Map.{get, get-insert_self}
use sdkwork_discovery.Prelude.Tests.{text_eq, ltb, Bool-cases}
use sdkwork_discovery.Contract.Error.{
  DiscoveryError, ok, err, permission_denied, policy_violation, invalid_config,
}
use sdkwork_discovery.Contract.Registry.{
  RenewLeaseCommand, ReportInstanceStatusCommand, ServiceInstance,
}
use sdkwork_discovery.Contract.Context.{CallerContext, RegistryPermission, has_registry_permission}
use sdkwork_discovery.Memory.Store.{
  MemoryDiscoveryStore, InstanceKey, instance_key_eq, next_revision, lease_expires_at_ms, u64_max,
  u64_mod,
}
use sdkwork_discovery.Memory.Lifecycle.{
  report_key, renew_lease, renew_lookup, renew_found, rewrite_instance, validate_renew,
}
use sdkwork_discovery.Core.Policy.{
  RegistryPolicy, belongs_to, not_authorized, require_namespace_tenant_access,
  require_registry_permission, validate_registry_lease_ttl, ttl_range, lacks_permission,
}
use sdkwork_discovery.Core.Store.{memory_ops}
use sdkwork_discovery.Core.Plane.{DiscoveryControlPlane}
use sdkwork_discovery.Core.Plane

-- The seconds are within the bounds of a policy whose bounds are in order.
pub record IsWithin (policy : RegistryPolicy) (seconds : ℕ) : Type 0 where
  pub ordered : policy.min_lease_ttl_seconds ≤ policy.default_lease_ttl_seconds
  pub topped : policy.default_lease_ttl_seconds ≤ policy.max_lease_ttl_seconds
  pub enough : policy.min_lease_ttl_seconds ≤ seconds
  pub few : seconds ≤ policy.max_lease_ttl_seconds

within-ok :
    (policy : RegistryPolicy) (seconds : ℕ)
    → IsWithin policy seconds
    → validate_registry_lease_ttl policy seconds ≡ ok tt
unfolding validate_registry_lease_ttl
within-ok policy seconds h = ground (arith, h.ordered, h.topped, h.enough, h.few)

over-err :
    (policy : RegistryPolicy) (seconds : ℕ)
    → policy.max_lease_ttl_seconds < seconds
    → (e : DiscoveryError) × (validate_registry_lease_ttl policy seconds ≡ err e)
unfolding validate_registry_lease_ttl
over-err policy seconds h =
    elim (Bool-cases (
      ltb policy.default_lease_ttl_seconds policy.min_lease_ttl_seconds
      || ltb policy.max_lease_ttl_seconds policy.default_lease_ttl_seconds)) [
        | inl t ↦ (
          invalid_config "lease ttl bounds must satisfy min <= default <= max",
          rw (t, validate_registry_lease_ttl) refl,
        )
        | inr f ↦
            let above : ltb policy.max_lease_ttl_seconds seconds ≡ true = ground arith in
            (policy_violation (ttl_range policy), ground (arith, f, above))
      ]

unpermitted :
    (caller : CallerContext)
    → has_registry_permission caller RegistryPermission.write ≡ false
    → require_registry_permission caller RegistryPermission.write
      ≡ err (permission_denied (lacks_permission caller " lacks registry permission"))
unfolding require_registry_permission
unpermitted caller h = rw h refl

-- A renewal of the lease of a live instance, whose end fits, stores the new end.
renew_live :
    (c : RenewLeaseCommand) (s : MemoryDiscoveryStore) (k : InstanceKey) (i : ServiceInstance)
    → validate_renew c ≡ ok tt
    → get c.lease_id s.lease_index ≡ some k
    → get k s.instances ≡ some i
    → c.now_ms < i.expires_at_ms
    → c.now_ms + c.lease_ttl_seconds * 1000 ≤ u64_max
    → get k (renew_lease c s).1.instances
      ≡ some (record i {
        expires_at_ms = c.now_ms + c.lease_ttl_seconds * 1000;
        revision = (s.revision + 1) % u64_mod;
      })
unfolding renew_lease renew_lookup renew_found lease_expires_at_ms next_revision rewrite_instance
renew_live c s k i valid index at live fits = ground (
  arith,
  get-insert_self k
      (record i {
        expires_at_ms = c.now_ms + c.lease_ttl_seconds * 1000;
        revision = (s.revision + 1) % u64_mod;
      })
      s.instances,
)

module _ (hash : ℕ → ℕ → ℕ) (content_hash : String → String) (plane : DiscoveryControlPlane)
    (caller : CallerContext) (tenant_id : String) (member : caller.tenant_id ≡ some tenant_id)
    (s : MemoryDiscoveryStore) (k : InstanceKey)
    (foreign : belongs_to tenant_id k.namespace ≡ false)
    (may_write : has_registry_permission caller RegistryPermission.write ≡ true) where
  refused :
      require_namespace_tenant_access caller k.namespace
      ≡ err (permission_denied (not_authorized caller k.namespace))
  unfolding require_namespace_tenant_access
  refused = rw (member, foreign) refl

  permitted : require_registry_permission caller RegistryPermission.write ≡ ok tt
  unfolding require_registry_permission
  permitted = rw may_write refl

  -- A caller of one tenant who may write to the registry is refused to report the status of a
  -- foreign instance and to deregister it, and the store stays as it is. But the same caller
  -- renews the lease of that instance, if it has not expired, for any seconds within the bounds
  -- of the policy, when the renewal is valid and its end fits in 64 bits. A caller without the
  -- permission to write, and seconds above the policy's maximum, leave the store as it is.
  pub renew_crosses_tenants :
      (c d : RenewLeaseCommand) (i : ServiceInstance) (report : ReportInstanceStatusCommand)
      (now : ℕ) (reader : CallerContext)
      → validate_renew c ≡ ok tt
      → get c.lease_id s.lease_index ≡ some k
      → get k s.instances ≡ some i
      → c.now_ms < i.expires_at_ms
      → c.now_ms + c.lease_ttl_seconds * 1000 ≤ u64_max
      → IsWithin plane.registry_policy c.lease_ttl_seconds
      → report_key report ≡ k
      → has_registry_permission reader RegistryPermission.write ≡ false
      → plane.registry_policy.max_lease_ttl_seconds < d.lease_ttl_seconds
      → (Plane.report_instance_status (memory_ops hash content_hash) plane caller report s
          ≡ (err (permission_denied (not_authorized caller k.namespace)), s))
        × (Plane.deregister_instance (memory_ops hash content_hash) plane caller k now s
            ≡ (err (permission_denied (not_authorized caller k.namespace)), s))
        × (get k (Plane.renew_lease (memory_ops hash content_hash) plane caller c s).1.instances
            ≡ some (record i {
              expires_at_ms = c.now_ms + c.lease_ttl_seconds * 1000;
              revision = (s.revision + 1) % u64_mod;
            }))
        × ((Plane.renew_lease (memory_ops hash content_hash) plane reader c s).1 ≡ s)
        × ((Plane.renew_lease (memory_ops hash content_hash) plane caller d s).1 ≡ s)
  unfolding Plane.renew_lease Plane.report_instance_status Plane.deregister_instance
  renew_crosses_tenants c d i report now reader valid index at live fits within names without long =
      let named : report.namespace ≡ k.namespace = ap (λ x. x.namespace) names in
      let (e, too_long) = over-err plane.registry_policy d.lease_ttl_seconds long in
      let bounds = within-ok plane.registry_policy c.lease_ttl_seconds within in
      (
        rw (permitted, named, refused) refl,
        rw (permitted, refused) refl,
        rw (permitted, bounds) (renew_live c s k i valid index at live fits),
        rw (unpermitted reader without) refl,
        rw (permitted, too_long) refl,
      )
