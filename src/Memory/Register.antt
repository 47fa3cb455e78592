-- ===== src/Memory/Register.antt =====
-- crates/sdkwork-discovery-storage-memory/src/registry.rs: `register_instance` and its batch. What
-- an operation wrote before it fails stays written.
use sdkwork_discovery.Prelude.{ℕ, ◌+◌, String, Bool, not, Option, none, some, List, [], ◌∷◌, ◌++◌}
use sdkwork_discovery.Prelude.Tests.{◌==◌, nat_beq, leb, ltb, if◌then◌else◌, text_eq, nat_eq}
use sdkwork_discovery.Prelude.Map.{Map, get, insert, remove}
use sdkwork_discovery.Prelude.Text.{str_append, decimal}
use sdkwork_discovery.Contract.Error.{
  DiscoveryResult, ok, err, ◌>>◌, ensure, invalid_argument, conflict, kind_string, to_string, Op,
}
use sdkwork_discovery.Contract.Health.{default_state}
use sdkwork_discovery.Contract.Registry.{
  RegisterInstanceCommand, RegisterInstanceResult, BatchRegisterResult, ServiceInstance,
}
use sdkwork_discovery.Contract.Event.{
  DiscoveryEvent, DiscoveryEventKind, instance_registered, instance_updated,
}
use sdkwork_discovery.Memory.Store.{
  MemoryDiscoveryStore, InstanceKey, instance_key_eq, next_revision, next_id, validate_non_empty,
  lease_expires_at_ms, u64_max,
}

-- The test of an expired lease: `expires_at_ms <= now_ms`.
abbrev pub expired_at : ℕ → ServiceInstance → Bool
expired_at now_ms i = leb i.expires_at_ms now_ms

-- The event about an instance.
abbrev pub instance_event : ℕ → DiscoveryEventKind → ServiceInstance → DiscoveryEvent
instance_event revision kind i = record {
  revision = revision;
  namespace = i.namespace;
  environment = i.environment;
  kind = kind;
  resource_id = i.instance_id;
  service_name = some i.service_name;
  config_group = none;
  config_key = none;
  config_application = none;
}

abbrev pub push_event : DiscoveryEvent → MemoryDiscoveryStore → MemoryDiscoveryStore
push_event e s = record s { events = s.events ++ e ∷ [] }

unfoldable pub validate_register : RegisterInstanceCommand → DiscoveryResult (Unit {0})
validate_register c = do
  validate_non_empty "namespace" c.namespace
  validate_non_empty "environment" c.environment
  validate_non_empty "service_name" c.service_name
  validate_non_empty "instance_id" c.instance_id
  validate_non_empty "endpoint" c.endpoint
  validate_non_empty "protocol" c.protocol
  validate_non_empty "version" c.version
  validate_non_empty "region" c.region
  validate_non_empty "zone" c.zone
  ensure (not (nat_beq c.lease_ttl_seconds 0))
      (invalid_argument "lease ttl must be greater than zero")

abbrev pub register_key : RegisterInstanceCommand → InstanceKey
register_key c = record {
  namespace = c.namespace;
  environment = c.environment;
  service_name = c.service_name;
  instance_id = c.instance_id;
}

-- `format!("expected revision {} but found {}", expected, found)`
unfoldable pub revision_conflict : ℕ → ℕ → String
revision_conflict expected found =
    str_append "expected revision "
      (str_append (decimal expected) (str_append " but found " (decimal found)))

-- The check of `expected_revision` against the stored instance, if there are both.
unfoldable pub check_expected : Option ℕ → Option ServiceInstance → DiscoveryResult (Unit {0})
check_expected none existing = ok tt
check_expected (some expected) none = ok tt
check_expected (some expected) (some existing) =
    ensure (nat_beq existing.revision expected)
      (conflict (revision_conflict expected existing.revision))

-- The lease of an instance that has not expired.
unfoldable pub live_lease : ℕ → Option ServiceInstance → Option String
live_lease now_ms none = none
live_lease now_ms (some i) = if ltb now_ms i.expires_at_ms then some i.lease_id else none

unfoldable pub assign_lease : Option String → MemoryDiscoveryStore → String × MemoryDiscoveryStore
assign_lease none s = next_id "lease" s
assign_lease (some lease_id) s = (lease_id, s)

unfoldable pub register_expiry : RegisterInstanceCommand → DiscoveryResult ℕ
register_expiry c =
    if c.persistent then ok u64_max else lease_expires_at_ms c.now_ms c.lease_ttl_seconds

unfoldable pub new_instance : RegisterInstanceCommand → String → ℕ → ℕ → ServiceInstance
new_instance c lease_id expires_at_ms revision = record {
  namespace = c.namespace;
  environment = c.environment;
  service_name = c.service_name;
  instance_id = c.instance_id;
  endpoint = c.endpoint;
  protocol = c.protocol;
  version = c.version;
  region = c.region;
  zone = c.zone;
  weight = c.weight;
  priority = c.priority;
  status = c.status;
  metadata = c.metadata;
  lease_id = lease_id;
  expires_at_ms = expires_at_ms;
  revision = revision;
  health_check = c.health_check;
  health_check_state = default_state;
}

-- The lease that the instance had before leaves the index, if it is another one.
unfoldable pub drop_previous_lease :
    String → Option ServiceInstance → Map String InstanceKey → Map String InstanceKey
drop_previous_lease lease_id none index = index
drop_previous_lease lease_id (some previous) index =
    if previous.lease_id == lease_id then index else remove previous.lease_id index

abbrev pub registered_kind : Option String → DiscoveryEventKind
registered_kind none = instance_registered
registered_kind (some lease_id) = instance_updated

-- The instance, its lease and its event go into the store.
unfoldable pub store_instance :
    InstanceKey → ServiceInstance → DiscoveryEventKind → MemoryDiscoveryStore → MemoryDiscoveryStore
unfolding drop_previous_lease
store_instance key i kind s =
    let index = drop_previous_lease i.lease_id (get key s.instances) s.lease_index in
    push_event (instance_event i.revision kind i)
      (record s { lease_index = insert i.lease_id key index; instances = insert key i s.instances })

abbrev pub register_result : ServiceInstance → RegisterInstanceResult
register_result i = record {
  lease_id = i.lease_id;
  namespace = i.namespace;
  environment = i.environment;
  service_name = i.service_name;
  instance_id = i.instance_id;
  revision = i.revision;
  expires_at_ms = i.expires_at_ms;
}

-- The writes of `register_instance`: the lease and the revision are taken before the end of the
-- lease may turn out not to fit.
unfoldable pub write_registration :
    RegisterInstanceCommand
    → Option String
    → DiscoveryResult ℕ
    → Op MemoryDiscoveryStore RegisterInstanceResult
write_registration c existing_lease_id expiry s =
    let (lease_id, s1) = assign_lease existing_lease_id s in
    let (revision, s2) = next_revision s1 in
    elim expiry [
      | err e ↦ (err e, s2)
      | ok expires_at_ms ↦
          let i = new_instance c lease_id expires_at_ms revision in
          (
            ok (register_result i),
            store_instance (register_key c) i (registered_kind existing_lease_id) s2,
          )
    ]

-- `register_instance` behind its checks.
unfoldable pub register_checked :
    RegisterInstanceCommand → Op MemoryDiscoveryStore RegisterInstanceResult
register_checked c s =
    write_registration c (live_lease c.now_ms (get (register_key c) s.instances))
      (register_expiry c) s

unfoldable pub register_instance :
    RegisterInstanceCommand → Op MemoryDiscoveryStore RegisterInstanceResult
register_instance c s =
    elim (validate_register c
      >> check_expected c.expected_revision (get (register_key c) s.instances)) [
        | err e ↦ (err e, s)
        | ok _ ↦ register_checked c s
      ]

abbrev push_result :
    ℕ → DiscoveryResult RegisterInstanceResult → BatchRegisterResult → BatchRegisterResult
push_result index (ok r) b = record b { results = r ∷ b.results }
push_result index (err e) b = record b {
  errors =
      record { index = index; error_code = kind_string e; error_message = to_string e } ∷ b.errors;
}

-- The loop of `batch_register_instances` from an index on.
unfoldable pub batch_register_from :
    ℕ
    → List RegisterInstanceCommand
    → MemoryDiscoveryStore
    → BatchRegisterResult × MemoryDiscoveryStore
batch_register_from index [] s = (record { results = []; errors = [] }, s)
batch_register_from index (c ∷ cs) s =
    let (r, s1) = register_instance c s in
    let (b, s2) = batch_register_from (index + 1) cs s1 in (push_result index r b, s2)

unfoldable pub batch_register_instances :
    List RegisterInstanceCommand → Op MemoryDiscoveryStore BatchRegisterResult
batch_register_instances cs s = let (b, s1) = batch_register_from 0 cs s in (ok b, s1)
