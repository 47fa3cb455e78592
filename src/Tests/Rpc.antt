-- ===== src/Tests/Rpc.antt =====
-- Concrete inputs for the theorems on the breaker, the gate and the cache.
use sdkwork_discovery.Prelude.{ℕ, ◌≡◌, ◌-◌, refl, String, true, false, none, some, [], ◌∷◌, arith}
use sdkwork_discovery.Prelude.Tests.{leb, if◌then◌else◌}
use sdkwork_discovery.Contract.Error.{DiscoveryError, ok, err, unavailable}
use sdkwork_discovery.Rpc.Breaker.{
  CircuitBreaker, CircuitBreakerConfig, closed, open_, half_open, allow_request, record_failure,
}
use sdkwork_discovery.Rpc.Resilience.{
  RuntimeResilience, normal, read, write, gate, record_result, is_storage_failure, resolve,
}
use sdkwork_discovery.Rpc.Opening.{fails, asks, refusals, fails-opens, open-recovers}
use sdkwork_discovery.Rpc.Probing.{FailingRequest, attempts, first, probed, attempts-half_open}
use sdkwork_discovery.Prelude.{min}
use sdkwork_discovery.Rpc.Resilience.{OperationType}
use sdkwork_discovery.Contract.Error.{not_found}
use sdkwork_discovery.Tests.Data.{texts_differ}
use sdkwork_discovery.Rpc.Gate.{degraded-gate, resolve-stale}

abbrev config : CircuitBreakerConfig
config = record {
  enabled = true;
  failure_threshold = 3;
  recovery_timeout_ms = 1000;
  half_open_max_requests = 2;
}

abbrev shut : CircuitBreaker
shut = record {
  state = closed;
  failure_count = 0;
  success_count = 0;
  config = config;
  last_failure = none;
  half_open_requests = 0;
}

fails-opens_example :
    (fails (10 ∷ 20 ∷ []) shut ≡ record shut { failure_count = 2 })
    × (record_failure 30 (fails (10 ∷ 20 ∷ []) shut)
        ≡ record shut { failure_count = 3; state = open_; last_failure = some 30 })
fails-opens_example = fails-opens shut (10 ∷ 20 ∷ []) 30 refl refl refl

abbrev opened : CircuitBreaker
opened = record shut { failure_count = 3; state = open_; last_failure = some 30 }

open-recovers_example :
    (asks (40 ∷ 50 ∷ []) opened ≡ (refusals (40 ∷ 50 ∷ []), opened))
    × (allow_request 1030 opened
        ≡ (true, record opened { state = half_open; half_open_requests = 0 }))
open-recovers_example =
    open-recovers opened 30 1030 (40 ∷ 50 ∷ []) refl refl refl
      ((omega arith, omega arith), ((omega arith, omega arith), tt)) (omega arith)

abbrev pub runtime : RuntimeResilience
runtime = record {
  circuit_breaker = shut;
  rate_limit_enabled = false;
  degradation = normal;
  degradation_config = record {
    read_only_on_storage_failure = true;
    stale_read_max_age_ms = 30000;
  };
}

abbrev pub down : DiscoveryError
down = unavailable "database is down"

degraded-gate_example :
    ((m : String) × (gate false 60 write (record_result {T = ℕ} 50 (err down) runtime)
        ≡ (err (unavailable m), record_result {T = ℕ} 50 (err down) runtime)))
    × (gate true 60 read (record_result {T = ℕ} 50 (err down) runtime)
        ≡ (ok tt, record_result {T = ℕ} 50 (err down) runtime))
    × ((record_result {T = ℕ} 70 (ok 1) (record_result {T = ℕ} 50 (err down) runtime)).degradation
        ≡ normal)
unfolding is_storage_failure
degraded-gate_example = degraded-gate {T = ℕ} down 1 50 60 70 false runtime refl refl

resolve-stale_example :
    (resolve {T = ℕ} "orders" 150 100 true
      (err down)
      (resolve {T = ℕ} "users" 120 100 false
        (ok 2)
        (resolve {T = ℕ} "orders" 60 100 false (ok 1) []).1).1).0
    ≡ (if leb (150 - 60) 100 then ok 1 else err down)
unfolding is_storage_failure
resolve-stale_example =
    resolve-stale {T = ℕ} "orders" "users" 60 150 100 1 2 false down [] 120
      (texts_differ "orders" "users" refl) refl

abbrev probing : RuntimeResilience
probing = record runtime {
  circuit_breaker = record opened { state = half_open; half_open_requests = 1 };
}

abbrev missed : ℕ → OperationType → FailingRequest
missed now operation = record {
  at_gate = now;
  at_record = now;
  operation = operation;
  error = not_found "service instance not found";
}

attempts-half_open_example :
    attempts (missed 2000 read ∷ missed 3000 write ∷ missed 1000000 read ∷ []) probing ≡ (
      first 1 (missed 2000 read ∷ missed 3000 write ∷ missed 1000000 read ∷ []),
      probed (min 1 3) probing,
    )
unfolding is_storage_failure
attempts-half_open_example =
    attempts-half_open 1 (missed 2000 read ∷ missed 3000 write ∷ missed 1000000 read ∷ []) probing
      (refl, (refl, (refl, tt))) refl refl refl refl
