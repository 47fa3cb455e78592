-- ===== src/Memory/Log/Steps.antt =====
-- crates/sdkwork-discovery-storage-memory/src/{config,watch}.rs: what the configuration and the
-- collections do to the order of the log, and the log after a history of calls.
use sdkwork_discovery.Prelude.{
  ℕ, ◌+◌, ◌%◌, ◌^◌, ◌<◌, ◌≡◌, refl, ap, ◌&&◌, String, List, [], ◌∷◌, ◌++◌, arith, inl, inr, Option,
  none, some, zero, suc,
}
use sdkwork_discovery.Prelude.Lists.{All, length, find}
use sdkwork_discovery.Prelude.Tests.{Bool-cases, Option-cases, nat_beq, leb, ltb, text_eq}
use sdkwork_discovery.Contract.Error.{Result-cases, ◌>>◌}
use sdkwork_discovery.Contract.Event.{
  DiscoveryEvent, DiscoveryEventKind, config_published, config_rolled_back,
}
use sdkwork_discovery.Contract.Config.{
  PublishConfigCommand, RollbackConfigCommand, CreateConfigDraftCommand, ConfigRelease,
  IdempotencyContext,
}
use sdkwork_discovery.Memory.Store.{MemoryDiscoveryStore, next_revision, next_id, new, u64_mod}
use sdkwork_discovery.Memory.Register.{batch_register_instances}
use sdkwork_discovery.Memory.Config.{
  create_config_draft, store_draft, record_idempotency, publish_config, publish_draft, push_release,
  rollback_config, republish, validate_config_draft_command, replay_config_draft,
  validate_publish_config_command, replay_config_release, unpublished_draft,
  validate_rollback_config_command, has_release_id, release_event,
}
use sdkwork_discovery.Memory.Watch.{
  gc_loop, gc_watch_events, remove_at, remove_all_at, compact_watch_events,
}
use sdkwork_discovery.Memory.Call.{
  Call, registers, registers_all, renews, reports, deregisters, deregisters_all, expires, checks,
  drafts, publishes, rolls_back, collects, compacts, step, run,
}
use sdkwork_discovery.Memory.Log.{Logged, stays, pushes, chain, IsOrdered, Ascending}
use sdkwork_discovery.Memory.Log.Calls.{
  register_instance-Logged, batch_register_from-Logged, renew_lease-Logged,
  report_instance_status-Logged, update_health_check_state-Logged, deregister_instance-Logged,
  batch_deregister_instances-Logged, expire_instances-Logged,
}

record_idempotency-log :
    (o : Option IdempotencyContext) (id : String) (s : MemoryDiscoveryStore)
    → ((record_idempotency o id s).events ≡ s.events)
      × ((record_idempotency o id s).revision ≡ s.revision)
unfolding record_idempotency
record_idempotency-log none id s = (refl, refl)
record_idempotency-log (some c) id s = (refl, refl)

store_draft-Logged :
    (content_hash : String → String) (c : CreateConfigDraftCommand) (s : MemoryDiscoveryStore)
    → Logged 0 s (store_draft content_hash c s).1
unfolding store_draft next_id
store_draft-Logged content_hash c s =
    let (log, now) = record_idempotency-log c.idempotency _ _ in stays 0 log now

create_config_draft-Logged :
    (content_hash : String → String) (c : CreateConfigDraftCommand) (s : MemoryDiscoveryStore)
    → Logged 0 s (create_config_draft content_hash c s).1
unfolding create_config_draft
create_config_draft-Logged content_hash c s =
    elim (Result-cases (validate_config_draft_command c >> replay_config_draft c.idempotency s)) [
      | inl (e, h) ↦ rw (h, create_config_draft) (stays 0 refl refl)
      | inr (some d, h) ↦ rw (h, create_config_draft) (stays 0 refl refl)
      | inr (none, h) ↦ rw (h, create_config_draft) (store_draft-Logged content_hash c s)
    ]

push_release-Logged :
    (kind : DiscoveryEventKind) (o : Option IdempotencyContext) (r : ConfigRelease)
    (s t : MemoryDiscoveryStore)
    → t.events ≡ s.events
    → t.revision ≡ (s.revision + 1) % u64_mod
    → r.revision ≡ (s.revision + 1) % u64_mod
    → Logged 1 s (push_release kind o r t)
unfolding push_release record_idempotency
push_release-Logged kind none r s t log now at =
    pushes (release_event kind r) (ap (λ es. es ++ release_event kind r ∷ []) log) now at
push_release-Logged kind (some c) r s t log now at =
    pushes (release_event kind r) (ap (λ es. es ++ release_event kind r ∷ []) log) now at

publish_config-Logged :
    (c : PublishConfigCommand) (s : MemoryDiscoveryStore) → Logged 1 s (publish_config c s).1
unfolding publish_config publish_draft next_revision next_id
publish_config-Logged c s =
    elim (Result-cases
      (validate_publish_config_command c >> replay_config_release c.idempotency s)) [
        | inl (e, h) ↦ rw (h, publish_config) (stays 1 refl refl)
        | inr (some r, h) ↦ rw (h, publish_config) (stays 1 refl refl)
        | inr (none, h) ↦ elim (Result-cases (unpublished_draft c.draft_id s)) [
          | inl (e, k) ↦ rw (h, k, publish_config) (stays 1 refl refl)
          | inr (d, k) ↦
              rw (h, k, publish_config)
                (push_release-Logged config_published c.idempotency _ s _ refl refl refl)
        ]
      ]

rollback_config-Logged :
    (c : RollbackConfigCommand) (s : MemoryDiscoveryStore) → Logged 1 s (rollback_config c s).1
unfolding rollback_config republish next_revision next_id
rollback_config-Logged c s =
    elim (Result-cases
      (validate_rollback_config_command c >> replay_config_release c.idempotency s)) [
        | inl (e, h) ↦ rw (h, rollback_config) (stays 1 refl refl)
        | inr (some r, h) ↦ rw (h, rollback_config) (stays 1 refl refl)
        | inr (none, h) ↦
            elim (Option-cases (find (has_release_id c.source_release_id) s.releases)) [
              | inl k ↦ rw (h, k, rollback_config) (stays 1 refl refl)
              | inr (r, k) ↦
                  rw (h, k, rollback_config)
                    (push_release-Logged config_rolled_back c.idempotency _ s _ refl refl refl)
            ]
      ]

-- What is left of a log when some events go.
module _ (P : DiscoveryEvent → Type 0) where
  All-gc :
      (before limit removed : ℕ) (es : List DiscoveryEvent)
      → All P es
      → All P (gc_loop before limit removed es).0
  unfolding gc_loop
  All-gc before limit removed [] h = tt
  All-gc before limit removed (e ∷ es) h =
      elim (Bool-cases (leb e.revision before && ltb removed limit)) [
        | inl t ↦ rw (t, gc_loop) (All-gc before limit (removed + 1) es h.1)
        | inr f ↦ rw (f, gc_loop) (h.0, All-gc before limit removed es h.1)
      ]

  All-remove_at : (n : ℕ) (es : List DiscoveryEvent) → All P es → All P (remove_at n es)
  unfolding remove_at
  All-remove_at n [] h = tt
  All-remove_at zero (e ∷ es) h = h.1
  All-remove_at (suc n) (e ∷ es) h = (h.0, All-remove_at n es h.1)

  All-remove_all_at :
      (is : List ℕ) (es : List DiscoveryEvent) → All P es → All P (remove_all_at is es)
  unfolding remove_all_at
  All-remove_all_at [] es h = h
  All-remove_all_at (i ∷ is) es h = All-remove_all_at is (remove_at i es) (All-remove_at i es h)

Ascending-gc :
    (before limit removed : ℕ) (es : List DiscoveryEvent)
    → Ascending es
    → Ascending (gc_loop before limit removed es).0
unfolding gc_loop
Ascending-gc before limit removed [] h = tt
Ascending-gc before limit removed (e ∷ es) h =
    elim (Bool-cases (leb e.revision before && ltb removed limit)) [
      | inl t ↦ rw (t, gc_loop) (Ascending-gc before limit (removed + 1) es h.1)
      | inr f ↦
          rw (f, gc_loop)
            (All-gc _ before limit removed es h.0, Ascending-gc before limit removed es h.1)
    ]

Ascending-remove_at : (n : ℕ) (es : List DiscoveryEvent) → Ascending es → Ascending (remove_at n es)
unfolding remove_at
Ascending-remove_at n [] h = tt
Ascending-remove_at zero (e ∷ es) h = h.1
Ascending-remove_at (suc n) (e ∷ es) h = (All-remove_at _ n es h.0, Ascending-remove_at n es h.1)

Ascending-remove_all_at :
    (is : List ℕ) (es : List DiscoveryEvent) → Ascending es → Ascending (remove_all_at is es)
unfolding remove_all_at
Ascending-remove_all_at [] es h = h
Ascending-remove_all_at (i ∷ is) es h =
    Ascending-remove_all_at is (remove_at i es) (Ascending-remove_at i es h)

gc_watch_events-Logged :
    (before limit : ℕ) (s : MemoryDiscoveryStore) → Logged 0 s (gc_watch_events before limit s).1
unfolding gc_watch_events
gc_watch_events-Logged before limit s = elim (Bool-cases (nat_beq limit 0)) [
  | inl h ↦ rw (h, gc_watch_events) (stays 0 refl refl)
  | inr h ↦
      rw (h, gc_watch_events)
        (λ room o. (
          record {
            ascending = Ascending-gc before limit 0 s.events o.ascending;
            bounded = All-gc _ before limit 0 s.events o.bounded;
          },
          omega arith,
        ))
]

compact_watch_events-Logged :
    (n e : String) (keep : ℕ) (s : MemoryDiscoveryStore)
    → Logged 0 s (compact_watch_events n e keep s).1
unfolding compact_watch_events
compact_watch_events-Logged n e keep s room o = (
  record {
    ascending = Ascending-remove_all_at _ s.events o.ascending;
    bounded = All-remove_all_at _ _ s.events o.bounded;
  },
  omega arith,
)

-- The most revisions that a call may take.
abbrev pub revisions : Call → ℕ
revisions (registers c) = 1
revisions (registers_all cs) = length cs
revisions (renews c) = 1
revisions (reports c) = 1
revisions (deregisters k now) = 1
revisions (deregisters_all n e sn ids now) = length ids
revisions (expires now limit) = limit
revisions (checks k h) = 0
revisions (drafts c) = 0
revisions (publishes c) = 1
revisions (rolls_back c) = 1
revisions (collects before limit) = 0
revisions (compacts n e keep) = 0

abbrev pub total_revisions : List Call → ℕ
total_revisions [] = 0
total_revisions (c ∷ cs) = revisions c + total_revisions cs

module _ (content_hash : String → String) where
  step-Logged :
      (c : Call) (s : MemoryDiscoveryStore) → Logged (revisions c) s (step content_hash c s)
  unfolding step batch_register_instances
  step-Logged (registers c) s = register_instance-Logged c s
  step-Logged (registers_all cs) s = batch_register_from-Logged 0 cs s
  step-Logged (renews c) s = renew_lease-Logged c s
  step-Logged (reports c) s = report_instance_status-Logged c s
  step-Logged (deregisters key now) s = deregister_instance-Logged key now s
  step-Logged (deregisters_all n e sn ids now) s =
      batch_deregister_instances-Logged n e sn ids now s
  step-Logged (expires now limit) s = expire_instances-Logged now limit s
  step-Logged (checks key state) s = update_health_check_state-Logged key state s
  step-Logged (drafts c) s = create_config_draft-Logged content_hash c s
  step-Logged (publishes c) s = publish_config-Logged c s
  step-Logged (rolls_back c) s = rollback_config-Logged c s
  step-Logged (collects before limit) s = gc_watch_events-Logged before limit s
  step-Logged (compacts n e keep) s = compact_watch_events-Logged n e keep s

  run-Logged :
      (cs : List Call) (s : MemoryDiscoveryStore)
      → Logged (total_revisions cs) s (run content_hash cs s)
  unfolding run
  run-Logged [] s = stays 0 refl refl
  run-Logged (c ∷ cs) s =
      chain (revisions c) (total_revisions cs) (step-Logged c s)
        (run-Logged cs (step content_hash c s))

  -- After any history of calls from the empty store that takes fewer than 2 ^ 64 revisions, the
  -- revisions of the log ascend strictly, and none is above the store's.
  pub run-IsOrdered :
      (cs : List Call) → total_revisions cs < 2 ^ 64 → IsOrdered (run content_hash cs new)
  run-IsOrdered cs room =
      (run-Logged cs new (omega arith) (record { ascending = tt; bounded = tt })).0
