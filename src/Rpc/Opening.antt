-- ===== src/Rpc/Opening.antt =====
-- How the breaker of crates/sdkwork-discovery-rpc/src/circuit_breaker.rs changes its state.
use sdkwork_discovery.Prelude.{
  ℕ, ◌+◌, ◌-◌, ◌≤◌, ◌<◌, ◌≡◌, refl, ap, ◌∙◌, Bool, true, false, List, [], ◌∷◌, some, arith,
}
use sdkwork_discovery.Prelude.Tests.{leb, if◌then◌else◌}
use sdkwork_discovery.Prelude.Lists.{length, All, All-map}
use sdkwork_discovery.Rpc.Breaker.{
  CircuitBreaker, closed, open_, half_open, allow_request, record_failure,
}

-- Failures at the given times, one after another.
abbrev pub fails : List ℕ → CircuitBreaker → CircuitBreaker
fails [] b = b
fails (t ∷ ts) b = fails ts (record_failure t b)

record_failure-closed :
    (t : ℕ) (b : CircuitBreaker)
    → b.config.enabled ≡ true
    → b.state ≡ closed
    → record_failure t b ≡ (
        if leb b.config.failure_threshold (b.failure_count + 1)
        then record b { failure_count = b.failure_count + 1; state = open_; last_failure = some t }
        else record b { failure_count = b.failure_count + 1 })
unfolding record_failure
record_failure-closed t b on shut = ground arith

fails-count :
    (b : CircuitBreaker) (ts : List ℕ)
    → b.config.enabled ≡ true
    → b.state ≡ closed
    → b.failure_count + length ts < b.config.failure_threshold
    → fails ts b ≡ record b { failure_count = b.failure_count + length ts }
fails-count b [] on shut h = ap (λ n. record b { failure_count = n }) (omega arith)
fails-count b (t ∷ ts) on shut h =
    let below : leb b.config.failure_threshold (b.failure_count + 1) ≡ false = ground arith in
    let first : record_failure t b ≡ record b { failure_count = b.failure_count + 1 } =
      rw (record_failure-closed t b on shut, below) refl in
    rw first (
      fails-count (record b { failure_count = b.failure_count + 1 }) ts on shut (omega arith)
      ∙ ap (λ n. record b { failure_count = n }) (omega arith))

-- A closed breaker that is enabled stays closed through fewer failures in a row than its
-- threshold, and counts them; the failure that reaches the threshold opens it.
pub fails-opens :
    (b : CircuitBreaker) (ts : List ℕ) (t : ℕ)
    → b.config.enabled ≡ true
    → b.state ≡ closed
    → b.failure_count + length ts + 1 ≡ b.config.failure_threshold
    → (fails ts b ≡ record b { failure_count = b.failure_count + length ts })
      × (record_failure t (fails ts b) ≡ record b {
        failure_count = b.config.failure_threshold;
        state = open_;
        last_failure = some t;
      })
fails-opens b ts t on shut h =
    let counted = fails-count b ts on shut (omega arith) in
    let b1 = record b { failure_count = b.failure_count + length ts } in
    let reached : leb b.config.failure_threshold (b1.failure_count + 1) ≡ true = ground arith in
    (
      counted,
      rw counted (
          record_failure-closed t b1 on shut
          ∙ rw reached
              (ap (λ n. record b { failure_count = n; state = open_; last_failure = some t }) h)),
    )

-- The answers to requests at the given times, none of which records an outcome, and the breaker
-- after them.
abbrev pub asks : List ℕ → CircuitBreaker → List Bool × CircuitBreaker
asks [] b = ([], b)
asks (t ∷ ts) b =
    let (allowed, b1) = allow_request t b in let (rest, b2) = asks ts b1 in (allowed ∷ rest, b2)

abbrev pub refusals : List ℕ → List Bool
refusals [] = []
refusals (t ∷ ts) = false ∷ refusals ts

asks-refusals :
    (b : CircuitBreaker) (ts : List ℕ)
    → All (λ t. allow_request t b ≡ (false, b)) ts
    → asks ts b ≡ (refusals ts, b)
asks-refusals b [] h = refl
asks-refusals b (t ∷ ts) h = rw (h.0, asks-refusals b ts h.1) refl

allow_request-open :
    (t : ℕ) (b : CircuitBreaker) (failed : ℕ)
    → b.config.enabled ≡ true
    → b.state ≡ open_
    → b.last_failure ≡ some failed
    → allow_request t b ≡ (
        if leb b.config.recovery_timeout_ms (t - failed)
        then (true, record b { state = half_open; half_open_requests = 0 })
        else (false, b))
unfolding allow_request
allow_request-open t b failed on opened h = ground arith

-- A half-open breaker lets requests through until the probes are spent.
pub allow_request-probe :
    (t : ℕ) (b : CircuitBreaker)
    → b.config.enabled ≡ true
    → b.state ≡ half_open
    → b.half_open_requests < b.config.half_open_max_requests
    → allow_request t b ≡ (true, record b { half_open_requests = b.half_open_requests + 1 })
unfolding allow_request
allow_request-probe t b on half room = ground arith

pub allow_request-half_open :
    (t : ℕ) (b : CircuitBreaker)
    → b.config.enabled ≡ true
    → b.state ≡ half_open
    → b.config.half_open_max_requests ≤ b.half_open_requests
    → allow_request t b ≡ (false, b)
unfolding allow_request
allow_request-half_open t b on half spent = ground arith

-- An open breaker that is enabled refuses every request in the recovery time after the failure
-- that opened it, and stays as it is. The first request after that is let through and leaves the
-- breaker half open.
pub open-recovers :
    (b : CircuitBreaker) (failed now : ℕ) (ts : List ℕ)
    → b.config.enabled ≡ true
    → b.state ≡ open_
    → b.last_failure ≡ some failed
    → All (λ t. (failed ≤ t) × (t < failed + b.config.recovery_timeout_ms)) ts
    → failed + b.config.recovery_timeout_ms ≤ now
    → (asks ts b ≡ (refusals ts, b))
      × (allow_request now b ≡ (true, record b { state = half_open; half_open_requests = 0 }))
open-recovers b failed now ts on opened h early late =
    let later : leb b.config.recovery_timeout_ms (now - failed) ≡ true = ground arith in
    (
      asks-refusals b ts (
          All-map
            (λ t in_time.
              let sooner : leb b.config.recovery_timeout_ms (t - failed) ≡ false =
                ground (arith, in_time.0, in_time.1) in
              rw (allow_request-open t b failed on opened h, sooner) refl)
            ts early),
      rw (allow_request-open now b failed on opened h, later) refl,
    )
