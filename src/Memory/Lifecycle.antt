-- ===== src/Memory/Lifecycle.antt =====
-- crates/sdkwork-discovery-storage-memory/src/registry.rs: `renew_lease`, `report_instance_status`,
-- `deregister_instance`, its batch, and `update_health_check_state`.
use sdkwork_discovery.Prelude.{ℕ, String, Bool, not, Option, none, some, List, [], ◌∷◌, true, false}
use sdkwork_discovery.Prelude.Tests.{nat_beq, if◌then◌else◌, text_eq, nat_eq}
use sdkwork_discovery.Prelude.Map.{get, insert, remove}
use sdkwork_discovery.Contract.Error.{
  DiscoveryResult, ok, err, ◌>>=◌, ◌>>◌, ensure, ok_or, invalid_argument, not_found, Op,
}
use sdkwork_discovery.Contract.Health.{HealthCheckRuntimeState}
use sdkwork_discovery.Contract.Registry.{
  RenewLeaseCommand, RenewLeaseResult, ServiceInstance, ReportInstanceStatusCommand,
  DeregisterInstanceResult, ReportInstanceStatusResult,
}
use sdkwork_discovery.Contract.Event.{
  DiscoveryEventKind, instance_renewed, instance_status_reported, instance_deregistered,
}
use sdkwork_discovery.Memory.Store.{
  MemoryDiscoveryStore, InstanceKey, instance_key_eq, next_revision, validate_non_empty,
  lease_expires_at_ms,
}
use sdkwork_discovery.Memory.Register.{expired_at, instance_event, push_event, check_expected}

unfoldable pub validate_renew : RenewLeaseCommand → DiscoveryResult (Unit {0})
validate_renew c = do
  validate_non_empty "lease_id" c.lease_id
  ensure (not (nat_beq c.lease_ttl_seconds 0))
      (invalid_argument "lease ttl must be greater than zero")

abbrev pub renew_result : String → ServiceInstance → RenewLeaseResult
renew_result lease_id i = record {
  lease_id = lease_id;
  namespace = i.namespace;
  environment = i.environment;
  service_name = i.service_name;
  instance_id = i.instance_id;
  revision = i.revision;
  expires_at_ms = i.expires_at_ms;
}

-- `get_mut` on an instance that is there: the changed instance and its event go into the store.
unfoldable pub rewrite_instance :
    InstanceKey → ServiceInstance → DiscoveryEventKind → MemoryDiscoveryStore → MemoryDiscoveryStore
rewrite_instance key i kind s =
    push_event (instance_event i.revision kind i)
      (record s { instances = insert key i s.instances })

-- `renew_lease` for the lease of a found instance.
unfoldable pub renew_found :
    RenewLeaseCommand → InstanceKey → ServiceInstance → ℕ → Op MemoryDiscoveryStore RenewLeaseResult
renew_found c key current expires_at_ms s =
    if expired_at c.now_ms current
    then (
      err (not_found "lease not found"),
      record s { lease_index = remove c.lease_id s.lease_index },
    )
    else let (revision, s1) = next_revision s in
      let i = record current { expires_at_ms = expires_at_ms; revision = revision } in
      (ok (renew_result c.lease_id i), rewrite_instance key i instance_renewed s1)

-- What `renew_lease` reads before it writes: the owner of the lease, its instance, the new end.
unfoldable pub renew_lookup :
    RenewLeaseCommand → MemoryDiscoveryStore → DiscoveryResult (InstanceKey × ServiceInstance × ℕ)
renew_lookup c s = do
  validate_renew c
  key ← ok_or (get c.lease_id s.lease_index) (not_found "lease not found")
  expires_at_ms ← lease_expires_at_ms c.now_ms c.lease_ttl_seconds
  current ← ok_or (get key s.instances) (not_found "instance not found")
  ok (key, current, expires_at_ms)

unfoldable pub renew_lease : RenewLeaseCommand → Op MemoryDiscoveryStore RenewLeaseResult
renew_lease c s = elim (renew_lookup c s) [
  | err e ↦ (err e, s)
  | ok (key, current, expires_at_ms) ↦ renew_found c key current expires_at_ms s
]

unfoldable pub validate_key : InstanceKey → DiscoveryResult (Unit {0})
validate_key k = do
  validate_non_empty "namespace" k.namespace
  validate_non_empty "environment" k.environment
  validate_non_empty "service_name" k.service_name
  validate_non_empty "instance_id" k.instance_id

abbrev pub report_key : ReportInstanceStatusCommand → InstanceKey
report_key c = record {
  namespace = c.namespace;
  environment = c.environment;
  service_name = c.service_name;
  instance_id = c.instance_id;
}

-- What `report_instance_status` reads before it writes: the instance, alive and as expected.
unfoldable pub report_lookup :
    ReportInstanceStatusCommand → MemoryDiscoveryStore → DiscoveryResult ServiceInstance
report_lookup c s = do
  validate_key (report_key c)
  current ← ok_or (get (report_key c) s.instances) (not_found "instance not found")
  ensure (not (expired_at c.now_ms current)) (not_found "instance not found")
  check_expected c.expected_revision (some current)
  ok current

unfoldable pub report_instance_status :
    ReportInstanceStatusCommand → Op MemoryDiscoveryStore ReportInstanceStatusResult
report_instance_status c s = elim (report_lookup c s) [
  | err e ↦ (err e, s)
  | ok current ↦
      let (revision, s1) = next_revision s in
      let i = record current { status = c.status; revision = revision } in
      (
        ok (record { revision = revision; status = i.status }),
        rewrite_instance (report_key c) i instance_status_reported s1,
      )
]

abbrev pub deregister_result : InstanceKey → ℕ → Bool → DeregisterInstanceResult
deregister_result k revision deregistered = record {
  namespace = k.namespace;
  environment = k.environment;
  service_name = k.service_name;
  instance_id = k.instance_id;
  revision = revision;
  deregistered = deregistered;
}

-- The key that an instance names.
abbrev pub key_of : ServiceInstance → InstanceKey
key_of i = record {
  namespace = i.namespace;
  environment = i.environment;
  service_name = i.service_name;
  instance_id = i.instance_id;
}

-- Takes a found instance, its lease and a revision, and leaves an event.
unfoldable pub evict :
    InstanceKey
    → ServiceInstance
    → MemoryDiscoveryStore
    → DeregisterInstanceResult × MemoryDiscoveryStore
evict key i s =
    let taken = record s {
      instances = remove key s.instances;
      lease_index = remove i.lease_id s.lease_index;
    } in
    let (revision, s1) = next_revision taken in
    (
      deregister_result (key_of i) revision true,
      push_event (instance_event revision instance_deregistered i) s1,
    )

abbrev pub evict_live :
    ℕ
    → InstanceKey
    → Option ServiceInstance
    → MemoryDiscoveryStore
    → DeregisterInstanceResult × MemoryDiscoveryStore
evict_live now_ms key none s = (deregister_result key 0 false, s)
evict_live now_ms key (some i) s =
    if expired_at now_ms i then (deregister_result key 0 false, s) else evict key i s

-- The key stands for the four arguments `namespace`, `environment`, `service_name`, `instance_id`.
unfoldable pub deregister_instance :
    InstanceKey → ℕ → Op MemoryDiscoveryStore DeregisterInstanceResult
deregister_instance key now_ms s = elim (validate_key key) [
  | err e ↦ (err e, s)
  | ok _ ↦ let (r, s1) = evict_live now_ms key (get key s.instances) s in (ok r, s1)
]

-- The loop stops at the first error; what it took before stays taken.
unfoldable pub batch_deregister_instances :
    String
    → String
    → String
    → List String
    → ℕ
    → Op MemoryDiscoveryStore (List DeregisterInstanceResult)
batch_deregister_instances namespace environment service_name [] now_ms s = (ok [], s)
batch_deregister_instances namespace environment service_name (instance_id ∷ ids) now_ms s =
    let key : InstanceKey = record {
      namespace = namespace;
      environment = environment;
      service_name = service_name;
      instance_id = instance_id;
    } in
    let (r, s1) = deregister_instance key now_ms s in
    let (rs, s2) = batch_deregister_instances namespace environment service_name ids now_ms s1 in
    elim r [ err e ↦ (err e, s1) | ok result ↦ (rs >>= (λ results. ok (result ∷ results)), s2) ]

unfoldable pub update_health_check_state :
    InstanceKey → HealthCheckRuntimeState → Op MemoryDiscoveryStore (Unit {0})
update_health_check_state key state s = elim (get key s.instances) [
  | none ↦ (err (not_found "instance not found"), s)
  | some i ↦ (
    ok tt,
    record s { instances = insert key (record i { health_check_state = state }) s.instances },
  )
]
