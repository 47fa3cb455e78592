-- ===== src/Rpc/Breaker.antt =====
-- crates/sdkwork-discovery-rpc/src/circuit_breaker.rs. Times are milliseconds of a monotonic clock,
-- an argument of each call that reads it; `elapsed` is a difference of them.
use sdkwork_discovery.Prelude.{ℕ, ◌+◌, ◌-◌, Bool, true, false, Option, none, some, not}
use sdkwork_discovery.Prelude.Tests.{leb, ltb, if◌then◌else◌}

pub data CircuitState : Type 0 where
  closed open_ half_open : CircuitState

pub record CircuitBreakerConfig : Type 0 where
  pub enabled : Bool
  pub failure_threshold : ℕ
  pub recovery_timeout_ms : ℕ
  pub half_open_max_requests : ℕ

pub record CircuitBreaker : Type 0 where
  pub state : CircuitState
  pub failure_count : ℕ
  pub success_count : ℕ
  pub config : CircuitBreakerConfig
  pub last_failure : Option ℕ
  pub half_open_requests : ℕ

-- `CircuitBreaker::new`
unfoldable pub new_breaker : CircuitBreakerConfig → CircuitBreaker
new_breaker config = record {
  state = closed;
  failure_count = 0;
  success_count = 0;
  config = config;
  last_failure = none;
  half_open_requests = 0;
}

-- Whether the recovery time has passed since the last failure; never, without one.
abbrev recovered : CircuitBreaker → ℕ → Bool
recovered b now = elim b.last_failure [
  | none ↦ false
  | some failed ↦ leb b.config.recovery_timeout_ms (now - failed)
]

abbrev is_open_state : CircuitState → Bool → Bool
is_open_state closed recovered = false
is_open_state open_ recovered = not recovered
is_open_state half_open recovered = false

unfoldable pub is_open : CircuitBreaker → ℕ → Bool
is_open b now = if not b.config.enabled then false else is_open_state b.state (recovered b now)

abbrev allow_state : CircuitState → ℕ → CircuitBreaker → Bool × CircuitBreaker
allow_state closed now b = (true, b)
allow_state open_ now b =
    if recovered b now
    then (true, record b { state = half_open; half_open_requests = 0 })
    else (false, b)
allow_state half_open now b =
    if ltb b.half_open_requests b.config.half_open_max_requests
    then (true, record b { half_open_requests = b.half_open_requests + 1 })
    else (false, b)

unfoldable pub allow_request : ℕ → CircuitBreaker → Bool × CircuitBreaker
allow_request now b = if not b.config.enabled then (true, b) else allow_state b.state now b

abbrev success_state : CircuitState → CircuitBreaker → CircuitBreaker
success_state closed b = record b { failure_count = 0 }
success_state open_ b = b
success_state half_open b =
    if leb b.config.half_open_max_requests (b.success_count + 1)
    then record b { state = closed; failure_count = 0; success_count = 0 }
    else record b { success_count = b.success_count + 1 }

unfoldable pub record_success : CircuitBreaker → CircuitBreaker
record_success b = if not b.config.enabled then b else success_state b.state b

abbrev failure_state : CircuitState → ℕ → CircuitBreaker → CircuitBreaker
failure_state closed now b =
    if leb b.config.failure_threshold (b.failure_count + 1)
    then record b { failure_count = b.failure_count + 1; state = open_; last_failure = some now }
    else record b { failure_count = b.failure_count + 1 }
failure_state open_ now b = b
failure_state half_open now b = record b {
  state = open_;
  last_failure = some now;
  success_count = 0;
}

unfoldable pub record_failure : ℕ → CircuitBreaker → CircuitBreaker
record_failure now b = if not b.config.enabled then b else failure_state b.state now b

unfoldable pub reset : CircuitBreaker → CircuitBreaker
reset b = record b {
  state = closed;
  failure_count = 0;
  success_count = 0;
  last_failure = none;
  half_open_requests = 0;
}
