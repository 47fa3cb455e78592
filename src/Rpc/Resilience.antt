-- ===== src/Rpc/Resilience.antt =====
-- crates/sdkwork-discovery-rpc/src/{resilience,degradation,stale_read_cache}.rs. The token bucket of
-- rate_limiter.rs computes with floats: its answer is an argument of the gate.
use sdkwork_discovery.Prelude.{
  ℕ, ◌-◌, String, Bool, true, false, not, ◌&&◌, ◌||◌, Option, none, some,
}
use sdkwork_discovery.Prelude.Tests.{leb, if◌then◌else◌, text_eq}
use sdkwork_discovery.Prelude.Map.{Map, get, insert}
use sdkwork_discovery.Contract.Error.{
  DiscoveryError, DiscoveryResult, ok, err, unauthenticated, invalid_config, invalid_argument,
  not_found, already_published, permission_denied, policy_violation, conflict, unavailable,
  resource_exhausted, Op,
}
use sdkwork_discovery.Rpc.Breaker.{CircuitBreaker, allow_request, record_success, record_failure}

pub data OperationType : Type 0 where
  read write : OperationType

pub data DegradationState : Type 0 where
  normal read_only : DegradationState

pub record DegradationConfig : Type 0 where
  pub read_only_on_storage_failure : Bool
  pub stale_read_max_age_ms : ℕ

unfoldable pub allows : DegradationState → OperationType → Bool
allows normal op = true
allows read_only read = true
allows read_only write = false

pub record RuntimeResilience : Type 0 where
  pub circuit_breaker : CircuitBreaker
  pub rate_limit_enabled : Bool
  pub degradation : DegradationState
  pub degradation_config : DegradationConfig

unfoldable pub is_storage_failure : DiscoveryError → Bool
is_storage_failure (unavailable m) = true
is_storage_failure (unauthenticated m) = false
is_storage_failure (invalid_config m) = false
is_storage_failure (invalid_argument m) = false
is_storage_failure (not_found m) = false
is_storage_failure (already_published m) = false
is_storage_failure (permission_denied m) = false
is_storage_failure (policy_violation m) = false
is_storage_failure (conflict m) = false
is_storage_failure (resource_exhausted m) = false

abbrev is_write : OperationType → Bool
is_write read = false
is_write write = true

abbrev is_normal : DegradationState → Bool
is_normal normal = true
is_normal read_only = false

-- The part of `gate` that asks the circuit breaker.
abbrev gate_breaker : ℕ → Op RuntimeResilience (Unit {0})
gate_breaker now r =
    let (allowed, b) = allow_request now r.circuit_breaker in
    let r1 = record r { circuit_breaker = b } in
    if allowed then (ok tt, r1) else (err (unavailable "storage circuit breaker is open"), r1)

-- `acquired` is the answer of the token bucket, if it is asked.
unfoldable pub gate : Bool → ℕ → OperationType → Op RuntimeResilience (Unit {0})
unfolding allows
gate acquired now operation r =
    if r.rate_limit_enabled && not acquired
    then (err (unavailable "rpc rate limit exceeded"), r)
    else if not (allows r.degradation operation)
    then (err (unavailable "discovery runtime is in read-only degradation mode"), r)
    else if is_write operation || is_normal r.degradation
    then gate_breaker now r
    else (ok tt, r)

unfoldable pub record_result {ℓ} :
    {T : Type ℓ} → ℕ → DiscoveryResult T → RuntimeResilience → RuntimeResilience
unfolding is_storage_failure
record_result now (ok v) r = record r {
  circuit_breaker = record_success r.circuit_breaker;
  degradation = normal;
}
record_result now (err e) r =
    if is_storage_failure e
    then record r {
      circuit_breaker = record_failure now r.circuit_breaker;
      degradation =
          if r.degradation_config.read_only_on_storage_failure then read_only else r.degradation;
    }
    else r

unfoldable pub serve_stale_reads : RuntimeResilience → Bool
serve_stale_reads r =
    not (is_normal r.degradation) && r.degradation_config.read_only_on_storage_failure

-- `StaleReadCache`: the time and the value of the last good answer to each request.
abbrev pub StaleReadCache : Type 0 → Type 0
StaleReadCache T = Map String (ℕ × T)

module _ {T : Type 0} where
  abbrev stale_or : DiscoveryError → ℕ → ℕ → Option (ℕ × T) → DiscoveryResult T
  stale_or e now max_age none = err e
  stale_or e now max_age (some (cached_at, value)) =
      if leb (now - cached_at) max_age then ok value else err e

  unfoldable pub resolve :
      String
      → ℕ
      → ℕ
      → Bool
      → DiscoveryResult T
      → StaleReadCache T
      → DiscoveryResult T × StaleReadCache T
  unfolding is_storage_failure
  resolve key now max_age serve_stale (ok value) cache = (ok value, insert key (now, value) cache)
  resolve key now max_age serve_stale (err e) cache =
      if serve_stale && is_storage_failure e
      then (stale_or e now max_age (get key cache), cache)
      else (err e, cache)
