-- ===== src/Memory/Rollback.antt =====
-- crates/sdkwork-discovery-storage-memory/src/config.rs: a rollback takes effect.
use sdkwork_discovery.Prelude.{
  ◌≡◌, refl, ap, ◌∙◌, Bool, true, not, ◌&&◌, ◌||◌, none, some, List, [], ◌∷◌, ◌++◌, arith, inl, inr,
}
use sdkwork_discovery.Prelude.Lists.{find, retain, retain-append, All}
use sdkwork_discovery.Prelude.Map.{get, get-insert, get-insert_self}
use sdkwork_discovery.Prelude.Tests.{Bool-cases, text_eq, ◌==◌, leb}
use sdkwork_discovery.Contract.Error.{ok, ◌>>◌}
use sdkwork_discovery.Contract.Config.{
  specificity, ConfigRelease, RollbackConfigCommand, RetrieveEffectiveConfigQuery, EffectiveConfig,
}
use sdkwork_discovery.Memory.Store.{MemoryDiscoveryStore, next_revision, next_id}
use sdkwork_discovery.Memory.Config.{
  rollback_config, republish, push_release, record_idempotency, replay_config_release,
  validate_rollback_config_command, has_release_id,
}
use sdkwork_discovery.Memory.Config.Read.{
  is_in_scope, effective_value, replaces, fold_release, fold_releases, retrieve_effective_config,
  validate_effective_query,
}

-- A release is of another key, or neither more specific nor of a later revision.
abbrev pub yields : ConfigRelease → ConfigRelease → Bool
yields r w =
    not (w.key == r.key)
    || (leb (specificity w.scope) (specificity r.scope) && leb w.revision r.revision)

fold_releases-append :
    (rs : List ConfigRelease) (r : ConfigRelease) (c : EffectiveConfig)
    → fold_releases (rs ++ r ∷ []) c ≡ fold_release r (fold_releases rs c)
unfolding fold_releases
fold_releases-append [] r c = refl
fold_releases-append (w ∷ rs) r c = fold_releases-append rs r (fold_release w c)

yields-replaces :
    (r w : ConfigRelease)
    → yields r w ≡ true
    → (w.key == r.key) ≡ true
    → replaces r (some (effective_value w)) ≡ true
unfolding replaces
yields-replaces r w y k = ground arith

replaces-fold_release :
    (r w : ConfigRelease) (c : EffectiveConfig)
    → yields r w ≡ true
    → replaces r (get r.key c.values) ≡ true
    → replaces r (get r.key (fold_release w c).values) ≡ true
unfolding fold_release
replaces-fold_release r w c y h = elim (Bool-cases (replaces w (get w.key c.values))) [
  | inl e ↦ rw e (
      rw (get-insert w.key r.key (effective_value w) c.values) (elim (Bool-cases (w.key == r.key)) [
        | inl k ↦ rw k (yields-replaces r w y k)
        | inr k ↦ rw k h
      ]))
  | inr e ↦ rw e h
]

replaces-fold_releases :
    (r : ConfigRelease) (rs : List ConfigRelease) (c : EffectiveConfig)
    → All (λ w. yields r w ≡ true) rs
    → replaces r (get r.key c.values) ≡ true
    → replaces r (get r.key (fold_releases rs c).values) ≡ true
unfolding fold_releases
replaces-fold_releases r [] c y h = h
replaces-fold_releases r (w ∷ rs) c y h =
    replaces-fold_releases r rs (fold_release w c) y.1 (replaces-fold_release r w c y.0 h)

fold_release-replaced :
    (r : ConfigRelease) (c : EffectiveConfig)
    → replaces r (get r.key c.values) ≡ true
    → get r.key (fold_release r c).values ≡ some (effective_value r)
unfolding fold_release
fold_release-replaced r c h =
    rw (h, fold_release) (get-insert_self r.key (effective_value r) c.values)

abbrev nothing : EffectiveConfig
nothing = record { revision = 0; values = [] }

replaces-nothing : (r : ConfigRelease) → replaces r (get r.key nothing.values) ≡ true
unfolding replaces get
replaces-nothing r = refl

-- The release that a rollback makes of its source.
abbrev pub rolled_back :
    RollbackConfigCommand → ConfigRelease → MemoryDiscoveryStore → ConfigRelease
rolled_back c source s = record source {
  release_id = (next_id "release" s).0;
  published_by = c.rolled_back_by;
  published_at_ms = c.now_ms;
  revision = (next_revision s).0;
}

rollback_config-pushes :
    (c : RollbackConfigCommand) (s : MemoryDiscoveryStore) (source : ConfigRelease)
    → (validate_rollback_config_command c >> replay_config_release c.idempotency s) ≡ ok none
    → find (has_release_id c.source_release_id) s.releases ≡ some source
    → ((rollback_config c s).0 ≡ ok (rolled_back c source s))
      × ((rollback_config c s).1.releases ≡ s.releases ++ rolled_back c source s ∷ [])
unfolding rollback_config republish push_release record_idempotency next_revision next_id
rollback_config-pushes c s source first found = ground (arith, first, found)

-- A valid rollback that is no replay and whose source is found takes effect at once: for a query
-- whose scope the source is in, and in whose scope no release of the key is more specific than the
-- source or of a later revision than the rollback's, the value of the key is from then on that of
-- the source, in the new release.
pub rollback-effective :
    (c : RollbackConfigCommand) (s : MemoryDiscoveryStore) (source : ConfigRelease)
    (query : RetrieveEffectiveConfigQuery)
    → (validate_rollback_config_command c >> replay_config_release c.idempotency s) ≡ ok none
    → find (has_release_id c.source_release_id) s.releases ≡ some source
    → validate_effective_query query ≡ ok tt
    → is_in_scope query source ≡ true
    → All (λ w. yields (rolled_back c source s) w ≡ true) (retain (is_in_scope query) s.releases)
    → (e : EffectiveConfig) × (retrieve_effective_config (rollback_config c s).1 query ≡ ok e)
      × (get source.key e.values ≡ some (effective_value (rolled_back c source s)))
unfolding retrieve_effective_config is_in_scope
rollback-effective c s source query first found valid inside yielding =
    let r = rolled_back c source s in
    let rs = retain (is_in_scope query) s.releases in
    let log = rollback_config-pushes c s source first found in
    let one : retain (is_in_scope query) (r ∷ []) ≡ r ∷ [] = ground (arith, inside) in
    let kept : retain (is_in_scope query) (rollback_config c s).1.releases ≡ rs ++ r ∷ [] =
      ap (retain (is_in_scope query)) log.1
      ∙ retain-append (is_in_scope query) s.releases (r ∷ [])
      ∙ ap (λ l. rs ++ l) one in
    let ready = replaces-fold_releases r rs nothing yielding (replaces-nothing r) in
    (
      fold_release r (fold_releases rs nothing),
      rw (valid, kept, fold_releases-append rs r nothing, retrieve_effective_config) refl,
      fold_release-replaced r (fold_releases rs nothing) ready,
    )
