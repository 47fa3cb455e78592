-- ===== src/Rpc/Probing.antt =====
-- crates/sdkwork-discovery-rpc/src/{resilience,circuit_breaker}.rs: a half-open breaker whose requests
-- end with errors that are not failures of the storage.
use sdkwork_discovery.Prelude.{
  ℕ, zero, suc, ◌+◌, ◌≤◌, ◌<◌, ◌≡◌, refl, ap, Bool, true, false, List, [], ◌∷◌, arith, min,
}
use sdkwork_discovery.Prelude.Lists.{length, All}
use sdkwork_discovery.Prelude.Tests.{if◌then◌else◌}
use sdkwork_discovery.Contract.Error.{DiscoveryError, DiscoveryResult, ok, err, unavailable}
use sdkwork_discovery.Rpc.Breaker.{half_open, allow_request}
use sdkwork_discovery.Rpc.Opening.{allow_request-probe, allow_request-half_open}
use sdkwork_discovery.Rpc.Resilience.{
  OperationType, read, write, normal, RuntimeResilience, gate, record_result, is_storage_failure,
}

-- A request: the times of the gate and of the recording, what it does, and the error it ends with
-- when it is let through.
pub record FailingRequest : Type 0 where
  pub at_gate : ℕ
  pub at_record : ℕ
  pub operation : OperationType
  pub error : DiscoveryError

abbrev record_error :
    FailingRequest → DiscoveryResult (Unit {0}) × RuntimeResilience → Bool × RuntimeResilience
record_error q (ok u, r) = (true, record_result {T = Unit {0}} q.at_record (err q.error) r)
record_error q (err e, r) = (false, r)

-- Whether the gate lets the request through, which the rate limit does, and what is left of the
-- runtime's resilience.
unfoldable pub attempt : FailingRequest → RuntimeResilience → Bool × RuntimeResilience
attempt q r = record_error q (gate true q.at_gate q.operation r)

unfoldable pub attempts : List FailingRequest → RuntimeResilience → List Bool × RuntimeResilience
attempts [] r = ([], r)
attempts (q ∷ qs) r =
    ((attempt q r).0 ∷ (attempts qs (attempt q r).1).0, (attempts qs (attempt q r).1).1)

-- The first `n` requests, and no other.
abbrev pub first : ℕ → List FailingRequest → List Bool
first n [] = []
first zero (q ∷ qs) = false ∷ first zero qs
first (suc n) (q ∷ qs) = true ∷ first n qs

abbrev counted : ℕ → RuntimeResilience → RuntimeResilience
counted n r = record r { circuit_breaker = record r.circuit_breaker { half_open_requests = n } }

-- The resilience after `n` more probes of the breaker.
abbrev pub probed : ℕ → RuntimeResilience → RuntimeResilience
probed n r = counted (r.circuit_breaker.half_open_requests + n) r

-- In a runtime that is not degraded the gate asks the breaker, for reads and for writes.
gate-normal :
    (now : ℕ) (operation : OperationType) (r : RuntimeResilience)
    → r.degradation ≡ normal
    → gate true now operation r ≡ (
        if (allow_request now r.circuit_breaker).0
        then (ok tt, record r { circuit_breaker = (allow_request now r.circuit_breaker).1 })
        else (
          err (unavailable "storage circuit breaker is open"),
          record r { circuit_breaker = (allow_request now r.circuit_breaker).1 },
        ))
unfolding gate
gate-normal now read r healthy = ground (arith, healthy)
gate-normal now write r healthy = ground (arith, healthy)

module _ (q : FailingRequest) (other_error : is_storage_failure q.error ≡ false)
    (r : RuntimeResilience) (on : r.circuit_breaker.config.enabled ≡ true)
    (half : r.circuit_breaker.state ≡ half_open) (healthy : r.degradation ≡ normal) where
  attempt-probe :
      r.circuit_breaker.half_open_requests < r.circuit_breaker.config.half_open_max_requests
      → attempt q r ≡ (true, probed 1 r)
  unfolding attempt record_result
  attempt-probe room =
      let asked = allow_request-probe q.at_gate r.circuit_breaker on half room in
      rw (gate-normal q.at_gate q.operation r healthy, asked, other_error) refl

  attempt-refused :
      r.circuit_breaker.config.half_open_max_requests ≤ r.circuit_breaker.half_open_requests
      → attempt q r ≡ (false, r)
  unfolding attempt
  attempt-refused spent =
      let asked = allow_request-half_open q.at_gate r.circuit_breaker on half spent in
      rw (gate-normal q.at_gate q.operation r healthy, asked) refl

-- While a half-open breaker that is enabled, in a runtime that is not degraded, gets requests that
-- end with errors other than failures of the storage, it lets through as many of the next requests
-- as it has probes left, whatever they do, and refuses every later one, at any time. It stays half
-- open, and only its count of probes changes.
pub attempts-half_open :
    (n : ℕ) (qs : List FailingRequest) (r : RuntimeResilience)
    → All (λ q. is_storage_failure q.error ≡ false) qs
    → r.circuit_breaker.config.enabled ≡ true
    → r.circuit_breaker.state ≡ half_open
    → r.degradation ≡ normal
    → r.circuit_breaker.half_open_requests + n ≡ r.circuit_breaker.config.half_open_max_requests
    → attempts qs r ≡ (first n qs, probed (min n (length qs)) r)
unfolding attempts
attempts-half_open n [] r others on half healthy left =
    ap (λ (m : ℕ). ([], counted m r)) (omega arith)
attempts-half_open zero (q ∷ qs) r others on half healthy left =
    let refused = attempt-refused q others.0 r on half healthy (omega (arith, left)) in
    let rest = attempts-half_open zero qs r others.1 on half healthy left in
    rw (refused, rest) (ap (λ (m : ℕ). (false ∷ first zero qs, counted m r)) (omega arith))
attempts-half_open (suc n) (q ∷ qs) r others on half healthy left =
    let passed = attempt-probe q others.0 r on half healthy (omega (arith, left)) in
    let rest =
      attempts-half_open n qs (probed 1 r) others.1 on half healthy (omega (arith, left)) in
    rw (passed, rest) (ap (λ (m : ℕ). (true ∷ first n qs, counted m r)) (omega arith))
