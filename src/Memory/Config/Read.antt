-- ===== src/Memory/Config/Read.antt =====
-- crates/sdkwork-discovery-storage-memory/src/config.rs: the effective values of a query.
use sdkwork_discovery.Prelude.{Bool, true, ◌&&◌, ◌||◌, Option, none, some, List, [], ◌∷◌, max}
use sdkwork_discovery.Prelude.Lists.{retain}
use sdkwork_discovery.Prelude.Map.{get, insert}
use sdkwork_discovery.Prelude.Tests.{◌==◌, ltb, leb, nat_beq, if◌then◌else◌, text_eq}
use sdkwork_discovery.Contract.Error.{DiscoveryResult, ok, ◌>>◌}
use sdkwork_discovery.Contract.Config.{
  specificity, applies_to, ConfigRelease, RetrieveEffectiveConfigQuery, EffectiveConfigValue,
  EffectiveConfig,
}
use sdkwork_discovery.Memory.Store.{MemoryDiscoveryStore, idempotency_key_eq, validate_non_empty}

-- The filter of `retrieve_effective_config`.
unfoldable pub is_in_scope : RetrieveEffectiveConfigQuery → ConfigRelease → Bool
is_in_scope query r =
    r.namespace == query.namespace
    && r.environment == query.environment
    && r.group == query.group
    && applies_to r.scope query.application query.service_name

abbrev pub effective_value : ConfigRelease → EffectiveConfigValue
effective_value r = record {
  value = r.value;
  format = r.format;
  source_release_id = r.release_id;
  source_specificity = specificity r.scope;
  source_revision = r.revision;
}

-- Whether a release takes the place of the value found so far.
unfoldable pub replaces : ConfigRelease → Option EffectiveConfigValue → Bool
replaces r none = true
replaces r (some current) =
    ltb current.source_specificity (specificity r.scope)
    || (nat_beq (specificity r.scope) current.source_specificity
        && leb current.source_revision r.revision)

unfoldable pub fold_release : ConfigRelease → EffectiveConfig → EffectiveConfig
unfolding replaces
fold_release r c = record {
  revision = max c.revision r.revision;
  values =
      if replaces r (get r.key c.values)
      then insert r.key (effective_value r) c.values
      else c.values;
}

-- The loop of `retrieve_effective_config`.
unfoldable pub fold_releases : List ConfigRelease → EffectiveConfig → EffectiveConfig
unfolding fold_release
fold_releases [] c = c
fold_releases (r ∷ rs) c = fold_releases rs (fold_release r c)

unfoldable pub validate_effective_query : RetrieveEffectiveConfigQuery → DiscoveryResult (Unit {0})
validate_effective_query query = do
  validate_non_empty "namespace" query.namespace
  validate_non_empty "environment" query.environment
  validate_non_empty "application" query.application
  validate_non_empty "service_name" query.service_name
  validate_non_empty "group" query.group

unfoldable pub retrieve_effective_config :
    MemoryDiscoveryStore → RetrieveEffectiveConfigQuery → DiscoveryResult EffectiveConfig
retrieve_effective_config s query = do
  validate_effective_query query
  ok (fold_releases (retain (is_in_scope query) s.releases) (record { revision = 0; values = [] }))
