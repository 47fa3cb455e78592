-- ===== src/Rpc/Actor/Effects.antt =====
-- crates/sdkwork-discovery-rpc/src/actor.rs: what a write and a read may change of the runtime,
-- whatever the store.
use sdkwork_discovery.Prelude.{◌≡◌, refl, ap, String, List, ◌++◌, inl, inr}
use sdkwork_discovery.Contract.Error.{DiscoveryResult, Result-cases, Op}
use sdkwork_discovery.Contract.Event.{DiscoveryEvent}
use sdkwork_discovery.Rpc.Resilience.{gate, read, write, read_only, StaleReadCache}
use sdkwork_discovery.Rpc.Gate.{gate-write}
use sdkwork_discovery.Rpc.Actor.{
  Runtime, Readings, StaleReads, write_command, finish_write, read_command, finish_read,
}

module _ {S A : Type 0} (op : Op S A) (publish : S → DiscoveryResult A → List DiscoveryEvent)
    (t : Readings) (r : Runtime S) where
  -- A write leaves the store, or makes it what the operation makes of it.
  pub write_command-store :
      (P : S → Type 0) → P r.store → P (op r.store).1 → P (write_command op publish t r).1.store
  unfolding write_command finish_write
  write_command-store P same done =
      elim (Result-cases (gate t.acquired t.at_gate write r.resilience).0) [
        | inl (e, h) ↦ rw (h, write_command) same
        | inr (u, h) ↦ rw (h, write_command) done
      ]

  -- A write streams nothing, or what the publication finds in the store after the operation.
  pub write_command-streamed :
      (P : S → List DiscoveryEvent → Type 0)
      → P r.store r.streamed
      → P (op r.store).1 (r.streamed ++ publish (op r.store).1 (op r.store).0)
      → P (write_command op publish t r).1.store (write_command op publish t r).1.streamed
  unfolding write_command finish_write
  write_command-streamed P same done =
      elim (Result-cases (gate t.acquired t.at_gate write r.resilience).0) [
        | inl (e, h) ↦ rw (h, write_command) same
        | inr (u, h) ↦ rw (h, write_command) done
      ]

  pub write_command-degraded :
      r.resilience.degradation ≡ read_only
      → ((write_command op publish t r).1.store ≡ r.store)
        × ((write_command op publish t r).1.streamed ≡ r.streamed)
  unfolding write_command
  write_command-degraded h =
      let (m, e) = gate-write t.acquired t.at_gate r.resilience h in
      rw (ap (λ p. p.0) e, write_command) (refl, refl)

module _ {S A : Type 0} (cache : StaleReads → StaleReadCache A)
    (put : StaleReadCache A → StaleReads → StaleReads) (key : String)
    (answer : S → DiscoveryResult A) (t : Readings) (r : Runtime S) where
  -- A read changes neither the store nor the streams.
  pub read_command-keeps :
      ((read_command cache put key answer t r).1.store ≡ r.store)
      × ((read_command cache put key answer t r).1.streamed ≡ r.streamed)
  unfolding read_command finish_read
  read_command-keeps = elim (Result-cases (gate t.acquired t.at_gate read r.resilience).0) [
    | inl (e, h) ↦ rw (h, read_command) (refl, refl)
    | inr (u, h) ↦ rw (h, read_command) (refl, refl)
  ]
