-- ===== src/Memory/Store.antt =====
-- crates/sdkwork-discovery-storage-memory/src/{store,validation}.rs: the in-memory state, its keys
-- and counters. `u64` counters wrap around, as in a release build.
use Prim.Native.String.{◌++◌}
use sdkwork_discovery.Prelude.{
  ℕ, ◌+◌, ◌*◌, ◌%◌, ◌^◌, ◌-◌, ◌≡◌, ◌↔◌, true, String, Bool, ◌&&◌, not, List, [], arith, eq_iff,
  Option, none, some,
}
use sdkwork_discovery.Prelude.Tests.{PartialEq, ◌==◌, text_eq, leb, if◌then◌else◌}
use sdkwork_discovery.Prelude.Map.{Map}
use sdkwork_discovery.Prelude.Text.{is_blank, decimal, str_append}
use sdkwork_discovery.Contract.Error.{DiscoveryResult, ensure, invalid_argument, ok_or, ◌>>=◌}
use sdkwork_discovery.Contract.Registry.{ServiceInstance}
use sdkwork_discovery.Contract.Config.{ConfigDraft, ConfigRelease}
use sdkwork_discovery.Contract.Event.{DiscoveryEvent}

abbrev pub u64_mod : ℕ
u64_mod = 2 ^ 64

-- `u64::MAX`
abbrev pub u64_max : ℕ
u64_max = 2 ^ 64 - 1

pub record InstanceKey : Type 0 where
  pub namespace : String
  pub environment : String
  pub service_name : String
  pub instance_id : String

abbrev pub instance_key_beq : InstanceKey → InstanceKey → Bool
instance_key_beq a b =
    a.namespace == b.namespace
    && a.environment == b.environment
    && a.service_name == b.service_name
    && a.instance_id == b.instance_id

pub instance_key_iff : (a b : InstanceKey) → (instance_key_beq a b ≡ true) ↔ (a ≡ b)
instance_key_iff a b = ground (
  arith,
  eq_iff a.namespace b.namespace,
  eq_iff a.environment b.environment,
  eq_iff a.service_name b.service_name,
  eq_iff a.instance_id b.instance_id,
)

instance abbrev pub instance_key_eq : PartialEq InstanceKey
instance_key_eq = record { is_same = instance_key_beq; is_same_iff = instance_key_iff }

pub record IdempotencyKey : Type 0 where
  pub operation_id : String
  pub key : String

abbrev pub idempotency_key_beq : IdempotencyKey → IdempotencyKey → Bool
idempotency_key_beq a b = a.operation_id == b.operation_id && a.key == b.key

pub idempotency_key_iff : (a b : IdempotencyKey) → (idempotency_key_beq a b ≡ true) ↔ (a ≡ b)
idempotency_key_iff a b = ground (arith, eq_iff a.operation_id b.operation_id, eq_iff a.key b.key)

instance abbrev pub idempotency_key_eq : PartialEq IdempotencyKey
idempotency_key_eq = record { is_same = idempotency_key_beq; is_same_iff = idempotency_key_iff }

pub record IdempotencyRecord : Type 0 where
  pub request_hash : String
  pub resource_id : String

pub record MemoryDiscoveryStore : Type 0 where
  pub revision : ℕ
  pub next_sequence : ℕ
  pub instances : Map InstanceKey ServiceInstance
  pub lease_index : Map String InstanceKey
  pub drafts : Map String ConfigDraft
  pub releases : List ConfigRelease
  pub events : List DiscoveryEvent
  pub idempotency : Map IdempotencyKey IdempotencyRecord

-- `MemoryDiscoveryStore::new()`
abbrev pub new : MemoryDiscoveryStore
new = record {
  revision = 0;
  next_sequence = 0;
  instances = [];
  lease_index = [];
  drafts = [];
  releases = [];
  events = [];
  idempotency = [];
}

unfoldable pub next_revision : MemoryDiscoveryStore → ℕ × MemoryDiscoveryStore
next_revision s =
    let revision = (s.revision + 1) % u64_mod in (revision, record s { revision = revision })

-- `format!("{prefix}-{}", n)`
unfoldable pub id_text : String → ℕ → String
id_text prefix n = prefix ++ str_append "-" (decimal n)

unfoldable pub next_id : String → MemoryDiscoveryStore → String × MemoryDiscoveryStore
next_id prefix s =
    let n = (s.next_sequence + 1) % u64_mod in (id_text prefix n, record s { next_sequence = n })

unfoldable pub validate_non_empty : String → String → DiscoveryResult (Unit {0})
validate_non_empty field value =
    ensure (not (is_blank value)) (invalid_argument (str_append field " must not be empty"))

-- `u64::checked_mul`, `u64::checked_add`
abbrev pub checked : ℕ → Option ℕ
checked n = if leb n u64_max then some n else none

-- The end of a lease of registry.rs.
unfoldable pub lease_expires_at_ms : ℕ → ℕ → DiscoveryResult ℕ
lease_expires_at_ms now_ms lease_ttl_seconds = do
  ttl_ms ←
      ok_or (checked (lease_ttl_seconds * 1000))
        (invalid_argument "lease ttl overflows milliseconds")
  ok_or (checked (now_ms + ttl_ms)) (invalid_argument "lease expiration overflows")
