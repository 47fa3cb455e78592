-- ===== src/Memory/Snapshot.antt =====
-- crates/sdkwork-discovery-storage-memory/src/snapshot.rs: snapshots, and their bytes. The JSON
-- encoder and decoder are another package's: parameters.
use sdkwork_discovery.Prelude.{ℕ, String, ◌≡◌, refl, List}
use sdkwork_discovery.Prelude.Map.{Map}
use sdkwork_discovery.Prelude.Text.{str_append}
use sdkwork_discovery.Contract.Error.{DiscoveryResult, ok, err, invalid_config, ◌>>=◌}
use sdkwork_discovery.Contract.Registry.{ServiceInstance}
use sdkwork_discovery.Contract.Config.{ConfigDraft, ConfigRelease}
use sdkwork_discovery.Contract.Event.{DiscoveryEvent}
use sdkwork_discovery.Memory.Store.{
  MemoryDiscoveryStore, InstanceKey, IdempotencyKey, IdempotencyRecord,
}

pub record MemoryDiscoverySnapshot : Type 0 where
  pub revision : ℕ
  pub next_sequence : ℕ
  pub instances : Map InstanceKey ServiceInstance
  pub lease_index : Map String InstanceKey
  pub drafts : Map String ConfigDraft
  pub releases : List ConfigRelease
  pub events : List DiscoveryEvent
  pub idempotency : Map IdempotencyKey IdempotencyRecord

unfoldable pub to_snapshot : MemoryDiscoveryStore → MemoryDiscoverySnapshot
to_snapshot s = record {
  revision = s.revision;
  next_sequence = s.next_sequence;
  instances = s.instances;
  lease_index = s.lease_index;
  drafts = s.drafts;
  releases = s.releases;
  events = s.events;
  idempotency = s.idempotency;
}

unfoldable pub from_snapshot : MemoryDiscoverySnapshot → MemoryDiscoveryStore
from_snapshot s = record {
  revision = s.revision;
  next_sequence = s.next_sequence;
  instances = s.instances;
  lease_index = s.lease_index;
  drafts = s.drafts;
  releases = s.releases;
  events = s.events;
  idempotency = s.idempotency;
}

-- The encoder's and the decoder's own errors are texts.
pub data Encoded (A : Type 0) : Type 0 where
  encoded : A → Encoded A
  fails : String → Encoded A

abbrev or_invalid : {A : Type 0} → String → Encoded A → DiscoveryResult A
or_invalid label (encoded a) = ok a
or_invalid label (fails e) = err (invalid_config (str_append label e))

or_invalid-ok :
    {A : Type 0} (label : String) (e : Encoded A) (a : A)
    → or_invalid label e ≡ ok a
    → e ≡ encoded a
or_invalid-ok label (encoded b) a h = cc
or_invalid-ok label (fails m) a h = cc

module _ (to_vec : MemoryDiscoverySnapshot → Encoded (List ℕ))
    (from_slice : List ℕ → Encoded MemoryDiscoverySnapshot) where
  unfoldable pub to_snapshot_bytes : MemoryDiscoveryStore → DiscoveryResult (List ℕ)
  to_snapshot_bytes s = or_invalid "memory snapshot encode failed: " (to_vec (to_snapshot s))

  unfoldable pub from_snapshot_bytes : List ℕ → DiscoveryResult MemoryDiscoveryStore
  from_snapshot_bytes bytes =
      or_invalid "memory snapshot decode failed: " (from_slice bytes) >>= λ snapshot.
      ok (from_snapshot snapshot)

  -- If the decoder reads back the snapshot of a store from the bytes that the encoder writes it to,
  -- as JSON promises: the bytes that the store is saved as are loaded as the same store.
  pub snapshot-restores :
      (s : MemoryDiscoveryStore) (bytes : List ℕ)
      → (to_vec (to_snapshot s) ≡ encoded bytes → from_slice bytes ≡ encoded (to_snapshot s))
      → to_snapshot_bytes s ≡ ok bytes
      → from_snapshot_bytes bytes ≡ ok s
  unfolding to_snapshot_bytes from_snapshot_bytes from_snapshot to_snapshot
  snapshot-restores s bytes law h =
      let wrote =
        or_invalid-ok "memory snapshot encode failed: " (to_vec (to_snapshot s)) bytes h in
      rw (law wrote) refl
