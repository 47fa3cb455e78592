-- ===== src/Memory/Replay.antt =====
-- crates/sdkwork-discovery-storage-memory/src/config.rs: a request with an idempotency key that
-- comes again.
use sdkwork_discovery.Prelude.{
  ◌≡◌, refl, sym, ap, ◌∙◌, Bool, true, Option, none, some, List, [], ◌∷◌, ◌++◌, arith, inl, inr,
}
use sdkwork_discovery.Prelude.Lists.{find}
use sdkwork_discovery.Prelude.Map.{get-insert_self}
use sdkwork_discovery.Prelude.Tests.{Bool-cases, text_eq, ==_refl}
use sdkwork_discovery.Contract.Error.{DiscoveryResult, ok, err, Result-cases, ◌>>◌}
use sdkwork_discovery.Contract.Event.{DiscoveryEventKind, config_published}
use sdkwork_discovery.Contract.Config.{IdempotencyContext, ConfigRelease, PublishConfigCommand}
use sdkwork_discovery.Memory.Store.{
  MemoryDiscoveryStore, next_id, next_revision, idempotency_key_eq, IdempotencyRecord,
}
use sdkwork_discovery.Memory.Config.{
  publish_config, publish_draft, push_release, record_idempotency, replay_config_release,
  replay_target, validate_publish_config_command, has_release_id, unpublished_draft,
  idempotency_key,
}

find-append :
    (p : ConfigRelease → Bool) (rs : List ConfigRelease) (r : ConfigRelease)
    → find p rs ≡ none
    → p r ≡ true
    → find p (rs ++ r ∷ []) ≡ some r
find-append p [] r h k = rw k refl
find-append p (x ∷ rs) r h k = elim (Bool-cases (p x)) [
  | inl t ↦ absurd (ground (arith, rw t at h))
  | inr f ↦ rw f (find-append p rs r (rw f at h) k)
]

push_release-replays :
    (kind : DiscoveryEventKind) (c : IdempotencyContext) (r : ConfigRelease)
    (s : MemoryDiscoveryStore)
    → find (has_release_id r.release_id) s.releases ≡ none
    → replay_config_release (some c) (push_release kind (some c) r s) ≡ ok (some r)
unfolding push_release record_idempotency replay_config_release replay_target
push_release-replays kind c r s fresh =
    let stored : IdempotencyRecord = record {
      request_hash = c.request_hash;
      resource_id = r.release_id;
    } in
    ground (
      arith,
      get-insert_self (idempotency_key c) stored s.idempotency,
      ==_refl c.request_hash,
      find-append (has_release_id r.release_id) s.releases r fresh (==_refl r.release_id),
    )

last_ok :
    (a : DiscoveryResult (Unit {0})) (b : DiscoveryResult (Option ConfigRelease))
    {v : Option ConfigRelease}
    → (a >> b) ≡ ok v
    → b ≡ ok v
last_ok (ok _) b h = h
last_ok (err e) b h = absurd (ground (arith, h))

carry :
    (k : IdempotencyContext) (s t : MemoryDiscoveryStore) (x r : ConfigRelease)
    → ◌≡◌ {A = DiscoveryResult ConfigRelease × MemoryDiscoveryStore} (ok x, s) (ok r, t)
    → replay_config_release (some k) s ≡ ok (some x)
    → replay_config_release (some k) t ≡ ok (some r)
carry k s t x r e h =
    let state : s ≡ t = ap (λ p. p.1) e in
    let same : x ≡ r = ground (arith, e) in
    ap (replay_config_release (some k)) (sym state) ∙ h ∙ ap (λ y. ok (some y)) same

-- What a publication with a key does: it is a replay, or it leaves one.
publish_config-outcome :
    (c : PublishConfigCommand) (k : IdempotencyContext) (s t : MemoryDiscoveryStore)
    (r : ConfigRelease)
    → find (has_release_id (next_id "release" s).0) s.releases ≡ none
    → c.idempotency ≡ some k
    → publish_config c s ≡ (ok r, t)
    → replay_config_release (some k) t ≡ ok (some r)
unfolding publish_config publish_draft next_revision next_id
publish_config-outcome c k s t r fresh keyed h =
    elim (Result-cases
      (validate_publish_config_command c >> replay_config_release c.idempotency s)) [
        | inl (e, f) ↦ absurd (ground (arith, rw (f, publish_config) at h))
        | inr (some x, f) ↦
            let replayed : replay_config_release (some k) s ≡ ok (some x) =
              (let g =
                  last_ok (validate_publish_config_command c)
                    (replay_config_release c.idempotency s) f in
                rw keyed at g) in
            carry k s t x r (rw (f, publish_config) at h) replayed
        | inr (none, f) ↦ elim (Result-cases (unpublished_draft c.draft_id s)) [
          | inl (e, g) ↦ absurd (ground (arith, rw (f, g, publish_config) at h))
          | inr (d, g) ↦
              let (x, s1) = publish_draft c d s in
              let left : replay_config_release (some k) (publish_draft c d s).1
                  ≡ ok (some (publish_draft c d s).0) =
                rw keyed (push_release-replays config_published k _ _ fresh) in
              carry k s1 t x r (rw (f, g, publish_config) at h) left
        ]
      ]

-- A publication with an idempotency key that succeeded, and whose release id was new if it made a
-- release: any valid publication with the same key and request hash gets the same release again,
-- whatever draft it names, and changes nothing.
pub publish-replays :
    (c d : PublishConfigCommand) (k : IdempotencyContext) (s t : MemoryDiscoveryStore)
    (r : ConfigRelease)
    → find (has_release_id (next_id "release" s).0) s.releases ≡ none
    → c.idempotency ≡ some k
    → d.idempotency ≡ some k
    → validate_publish_config_command d ≡ ok tt
    → publish_config c s ≡ (ok r, t)
    → publish_config d t ≡ (ok r, t)
unfolding publish_config
publish-replays c d k s t r fresh keyed again valid h =
    let replay = publish_config-outcome c k s t r fresh keyed h in
    ground (arith, valid, again, replay)
