-- ===== src/Rpc/Actor/Stale.antt =====
-- crates/sdkwork-discovery-rpc/src/{actor,resilience}.rs: the answer of a stale value counts as a
-- success of the storage.
use sdkwork_discovery.Prelude.{ℕ, ◌-◌, ◌≤◌, ◌≡◌, refl, ap, String, Option, some, true, arith}
use sdkwork_discovery.Prelude.Map.{get}
use sdkwork_discovery.Prelude.Tests.{leb, text_eq}
use sdkwork_discovery.Contract.Error.{DiscoveryError, DiscoveryResult, ok, err}
use sdkwork_discovery.Contract.Config.{RetrieveEffectiveConfigQuery, EffectiveConfig}
use sdkwork_discovery.Contract.Context.{CallerContext}
use sdkwork_discovery.Core.Store.{StoreOps}
use sdkwork_discovery.Core.Plane.{DiscoveryControlPlane}
use sdkwork_discovery.Core.Plane
use sdkwork_discovery.Rpc.Breaker.{record_success}
use sdkwork_discovery.Rpc.Resilience.{
  RuntimeResilience, normal, read_only, gate, read, record_result, serve_stale_reads, resolve,
  is_storage_failure, StaleReadCache,
}
use sdkwork_discovery.Rpc.Gate.{gate-read}
use sdkwork_discovery.Rpc.Keys.{effective_config_cache_key}
use sdkwork_discovery.Rpc.Actor.{
  StaleReads, Runtime, Readings, retrieve_effective_config, read_command, finish_read,
}
use sdkwork_discovery.Rpc.Actor.Dispatch.{dispatch_command}

resolve-hit :
    {T : Type 0} (key : String) (now max_age at : ℕ) (v : T) (e : DiscoveryError)
    (cache : StaleReadCache T)
    → is_storage_failure e ≡ true
    → get key cache ≡ some (at, v)
    → now - at ≤ max_age
    → resolve key now max_age true (err e) cache ≡ (ok v, cache)
unfolding resolve
resolve-hit key now max_age at v e cache fails hit fresh =
    let young : leb (now - at) max_age ≡ true = ground arith in rw (fails, hit, young) refl

serves-degraded :
    (r : RuntimeResilience)
    → r.degradation ≡ read_only
    → r.degradation_config.read_only_on_storage_failure ≡ true
    → serve_stale_reads r ≡ true
unfolding serve_stale_reads
serves-degraded r degraded on = ground (arith, degraded, on)

read_command-stale :
    {S A : Type 0} (cache : StaleReads → StaleReadCache A)
    (put : StaleReadCache A → StaleReads → StaleReads) (key : String)
    (answer : S → DiscoveryResult A) (t : Readings) (r : Runtime S) (e : DiscoveryError) (at : ℕ)
    (v : A)
    → t.acquired ≡ true
    → r.resilience.degradation ≡ read_only
    → r.resilience.degradation_config.read_only_on_storage_failure ≡ true
    → answer r.store ≡ err e
    → is_storage_failure e ≡ true
    → get key (cache r.reads) ≡ some (at, v)
    → t.at_resolve - at ≤ r.resilience.degradation_config.stale_read_max_age_ms
    → ((read_command cache put key answer t r).0 ≡ ok v)
      × (((read_command cache put key answer t r).1).resilience ≡ record r.resilience {
        circuit_breaker = record_success r.resilience.circuit_breaker;
        degradation = normal;
      })
unfolding read_command finish_read record_result
read_command-stale cache put key answer t r e at v acquired degraded on failed fails hit fresh =
    let passes : gate t.acquired t.at_gate read r.resilience ≡ (ok tt, r.resilience) =
      rw acquired (gate-read t.at_gate r.resilience degraded) in
    let serves : serve_stale_reads r.resilience ≡ true = serves-degraded r.resilience degraded on in
    let resolved =
      resolve-hit key t.at_resolve r.resilience.degradation_config.stale_read_max_age_ms at v e
        (cache r.reads) fails hit fresh in
    rw (ap (λ p. p.0) passes, read_command)
      (rw (ap (λ p. p.1) passes, failed, serves, resolved) (refl, refl))

-- In read-only degradation, configured to serve stale reads, with the rate limit not reached: a
-- read of an effective configuration that fails on the storage, and whose key has a cached value
-- no older than the limit, is answered with that value; and though the storage has failed, the
-- runtime then leaves the degradation and records a success in its circuit breaker.
pub stale-recovers :
    {S : Type 0} (debug : Option String → String) (ops : StoreOps S) (plane : DiscoveryControlPlane)
    (t : Readings) (caller : CallerContext) (q : RetrieveEffectiveConfigQuery) (r : Runtime S)
    (e : DiscoveryError) (at : ℕ) (v : EffectiveConfig)
    → t.acquired ≡ true
    → r.resilience.degradation ≡ read_only
    → r.resilience.degradation_config.read_only_on_storage_failure ≡ true
    → Plane.retrieve_effective_config ops plane caller r.store q ≡ err e
    → is_storage_failure e ≡ true
    → get (effective_config_cache_key debug q) r.reads.effective_config_reads ≡ some (at, v)
    → t.at_resolve - at ≤ r.resilience.degradation_config.stale_read_max_age_ms
    → ((dispatch_command debug ops plane t (retrieve_effective_config caller q) r).0 ≡ ok v)
      × (((dispatch_command debug ops plane t (retrieve_effective_config caller q) r).1).resilience
          ≡ record r.resilience {
            circuit_breaker = record_success r.resilience.circuit_breaker;
            degradation = normal;
          })
unfolding dispatch_command
stale-recovers debug ops plane t caller q r e at v =
    read_command-stale (λ reads. reads.effective_config_reads)
      (λ m reads. record reads { effective_config_reads = m }) (effective_config_cache_key debug q)
      (λ s. Plane.retrieve_effective_config ops plane caller s q) t r e at v
