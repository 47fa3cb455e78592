-- ===== src/Rpc/Actor/Streams.antt =====
-- crates/sdkwork-discovery-rpc/src/{actor,watch}.rs over the in-memory store: where the events of
-- the watch streams come from.
use sdkwork_discovery.Prelude.{ℕ, zero, suc, String, List, [], ◌∷◌, inl, inr, Bool, Option}
use sdkwork_discovery.Prelude.Lists.{All, take, retain, All-append}
use sdkwork_discovery.Prelude.Tests.{Bool-cases, nat_beq}
use sdkwork_discovery.Contract.Error.{Result-cases, DiscoveryResult}
use sdkwork_discovery.Contract.Event.{DiscoveryEvent}
use sdkwork_discovery.Memory.Store.{MemoryDiscoveryStore}
use sdkwork_discovery.Memory.Watch.{watch_events, validate_watch_query}
use sdkwork_discovery.Core.Store.{StoreOps, memory_ops}
use sdkwork_discovery.Contract.Error.{Op, DiscoveryResult, ok, err}
use sdkwork_discovery.Contract.Registry.{DeregisterInstanceResult}
use sdkwork_discovery.Core.Plane.{DiscoveryControlPlane}
use sdkwork_discovery.Prelude.{ℕ}
use sdkwork_discovery.Rpc.Actor.{
  Runtime, Readings, RuntimeCommand, register_instance, batch_register_instances, renew_lease,
  deregister_instance, expire_instances, report_instance_status, discover_instances,
  retrieve_instance, list_services, create_config_draft, publish_config, rollback_config,
  retrieve_effective_config, watch_registry_events, watch_config_events, write_command,
  publish_scoped, publish_renewal, publish_deregister, publish_release, publish_nothing,
}
use sdkwork_discovery.Rpc.Actor.Dispatch.{dispatch_command}
use sdkwork_discovery.Rpc.Actor.Effects.{write_command-streamed, read_command-keeps}
use sdkwork_discovery.Rpc.Watch.{events_for_revision, revision_query}
use sdkwork_discovery.Rpc.Actor.{
  publish_events_for_revision, publish_scoped, publish_renewal, publish_deregister,
  publish_deregisters, publish_release, publish_nothing, publish_removal, publish_removals,
  Readings, Runtime, RuntimeCommand, write_command,
}

module _ (P : DiscoveryEvent → Type 0) where
  All-retain :
      (p : DiscoveryEvent → Bool) (es : List DiscoveryEvent) → All P es → All P (retain p es)
  All-retain p [] h = tt
  All-retain p (e ∷ es) h = elim (Bool-cases (p e)) [
    | inl t ↦ rw t (h.0, All-retain p es h.1)
    | inr f ↦ rw f (All-retain p es h.1)
  ]

  All-take : (n : ℕ) (es : List DiscoveryEvent) → All P es → All P (take n es)
  All-take zero es h = tt
  All-take (suc n) [] h = tt
  All-take (suc n) (e ∷ es) h = (h.0, All-take n es h.1)

  module _ (hash : ℕ → ℕ → ℕ) (content_hash : String → String) where
    abbrev ops : StoreOps MemoryDiscoveryStore
    ops = memory_ops hash content_hash

    publish-All :
        (n e : String) (revision : ℕ) (s : MemoryDiscoveryStore)
        → All P s.events
        → All P (publish_events_for_revision ops n e revision s)
    unfolding publish_events_for_revision events_for_revision watch_events
    publish-All n e revision s h = elim (Bool-cases (nat_beq revision 0)) [
      | inl z ↦ rw z tt
      | inr pos ↦ elim (Result-cases (validate_watch_query (revision_query n e revision))) [
        | inl (x, bad) ↦ rw (pos, bad) tt
        | inr (u, good) ↦ rw (pos, good) (All-retain _ _ (All-take 1 _ (All-retain _ s.events h)))
      ]
    ]

    -- What is published after an operation satisfies what all events of the store satisfy.
    abbrev Publishes :
        {A : Type 0} → (MemoryDiscoveryStore → DiscoveryResult A → List DiscoveryEvent) → Type 0
    Publishes {A} publish =
        (s : MemoryDiscoveryStore) (a : DiscoveryResult A) → All P s.events → All P (publish s a)

    scoped-Publishes :
        {A : Type 0} (n e : String) (revision : A → ℕ) → Publishes (publish_scoped ops n e revision)
    scoped-Publishes n e revision s (err x) h = tt
    scoped-Publishes n e revision s (ok a) h = publish-All n e (revision a) s h

    renewal-Publishes : Publishes (publish_renewal ops)
    renewal-Publishes s (err x) h = tt
    renewal-Publishes s (ok r) h = publish-All r.namespace r.environment r.revision s h

    removal-All :
        (s : MemoryDiscoveryStore) (r : DeregisterInstanceResult)
        → All P s.events
        → All P (publish_removal ops s r)
    removal-All s r h = elim (Bool-cases r.deregistered) [
      | inl t ↦ rw t (publish-All r.namespace r.environment r.revision s h)
      | inr f ↦ rw f tt
    ]

    deregister-Publishes : Publishes (publish_deregister ops)
    deregister-Publishes s (err x) h = tt
    deregister-Publishes s (ok r) h = removal-All s r h

    removals-All :
        (s : MemoryDiscoveryStore) (rs : List DeregisterInstanceResult)
        → All P s.events
        → All P (publish_removals ops s rs)
    removals-All s [] h = tt
    removals-All s (r ∷ rs) h =
        All-append P (publish_removal ops s r) (publish_removals ops s rs) (removal-All s r h)
          (removals-All s rs h)

    deregisters-Publishes : Publishes (publish_deregisters ops)
    deregisters-Publishes s (err x) h = tt
    deregisters-Publishes s (ok rs) h = removals-All s rs h

    release-Publishes : Publishes (publish_release ops)
    release-Publishes s (err x) h = tt
    release-Publishes s (ok r) h = publish-All r.namespace r.environment r.revision s h

    nothing-Publishes :
        {A : Type 0} → Publishes (publish_nothing {S = MemoryDiscoveryStore} {A = A})
    nothing-Publishes s a h = tt

    -- The streams of a runtime draw on its log, if they did before.
    abbrev Draws : MemoryDiscoveryStore → List DiscoveryEvent → Type 0
    Draws s streamed = All P s.events → All P streamed

    write-Draws :
        {A : Type 0} (op : Op MemoryDiscoveryStore A)
        (publish : MemoryDiscoveryStore → DiscoveryResult A → List DiscoveryEvent) (t : Readings)
        (r : Runtime MemoryDiscoveryStore)
        → Publishes publish
        → All P r.streamed
        → Draws (write_command op publish t r).1.store (write_command op publish t r).1.streamed
    write-Draws op publish t r draws before =
        write_command-streamed op publish t r Draws (λ h. before)
          (λ h. All-append P r.streamed _ before (draws _ _ h))

    module _ (debug : Option String → String) (plane : DiscoveryControlPlane) where
      -- Whatever holds of every event streamed before a command, and of every event in the log of
      -- the in-memory store after it, holds of every event streamed after the command: what a
      -- command puts on the watch streams stands in the log.
      pub streamed-logged :
          (t : Readings) (c : RuntimeCommand) (r : Runtime MemoryDiscoveryStore)
          → All P r.streamed
          → All P (dispatch_command debug ops plane t c r).1.store.events
          → All P (dispatch_command debug ops plane t c r).1.streamed
      unfolding dispatch_command
      streamed-logged t (register_instance caller c) r before h =
          write-Draws _ _ t r (scoped-Publishes c.namespace c.environment (λ a. a.revision)) before
            h
      streamed-logged t (batch_register_instances caller cs) r before h =
          write-Draws _ _ t r nothing-Publishes before h
      streamed-logged t (renew_lease caller c) r before h =
          write-Draws _ _ t r renewal-Publishes before h
      streamed-logged t (deregister_instance caller key now_ms) r before h =
          write-Draws _ _ t r deregister-Publishes before h
      streamed-logged t (expire_instances now_ms max_instances) r before h =
          write-Draws _ _ t r deregisters-Publishes before h
      streamed-logged t (report_instance_status caller c) r before h =
          write-Draws _ _ t r (scoped-Publishes c.namespace c.environment (λ a. a.revision)) before
            h
      streamed-logged t (discover_instances caller q now_ms) r before h =
          rw (read_command-keeps _ _ _ _ t r).1 before
      streamed-logged t (retrieve_instance caller q now_ms) r before h =
          rw (read_command-keeps _ _ _ _ t r).1 before
      streamed-logged t (list_services caller q now_ms) r before h =
          rw (read_command-keeps _ _ _ _ t r).1 before
      streamed-logged t (create_config_draft caller c) r before h =
          write-Draws _ _ t r nothing-Publishes before h
      streamed-logged t (publish_config caller c) r before h =
          write-Draws _ _ t r release-Publishes before h
      streamed-logged t (rollback_config caller c) r before h =
          write-Draws _ _ t r release-Publishes before h
      streamed-logged t (retrieve_effective_config caller q) r before h =
          rw (read_command-keeps _ _ _ _ t r).1 before
      streamed-logged t (watch_registry_events caller q) r before h =
          rw (read_command-keeps _ _ _ _ t r).1 before
      streamed-logged t (watch_config_events caller q) r before h =
          rw (read_command-keeps _ _ _ _ t r).1 before
