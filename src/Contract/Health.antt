-- ===== src/Contract/Health.antt =====
-- crates/sdkwork-discovery-contract/src/health_check.rs.
use sdkwork_discovery.Prelude.{ℕ, ◌-◌, String, Bool, false, ◌||◌}
use sdkwork_discovery.Prelude.Tests.{leb, nat_beq, if◌then◌else◌}

pub data HealthCheckProbe : Type 0 where
  tcp : HealthCheckProbe
  http : String → ℕ → HealthCheckProbe
  grpc : String → HealthCheckProbe

pub record HealthCheckConfig : Type 0 where
  pub probe : HealthCheckProbe
  pub interval_ms : ℕ
  pub timeout_ms : ℕ
  pub unhealthy_threshold : ℕ
  pub healthy_threshold : ℕ

pub record HealthCheckRuntimeState : Type 0 where
  pub consecutive_successes : ℕ
  pub consecutive_failures : ℕ
  pub last_check_ms : ℕ

-- `HealthCheckRuntimeState::default()`
abbrev pub default_state : HealthCheckRuntimeState
default_state = record { consecutive_successes = 0; consecutive_failures = 0; last_check_ms = 0 }

unfoldable pub is_healthy : HealthCheckRuntimeState → HealthCheckConfig → Bool
is_healthy s config = leb config.healthy_threshold s.consecutive_successes

unfoldable pub is_unhealthy : HealthCheckRuntimeState → HealthCheckConfig → Bool
is_unhealthy s config = leb config.unhealthy_threshold s.consecutive_failures

-- `saturating_sub` on `u64` is the subtraction of ℕ.
unfoldable pub due_for_check : HealthCheckRuntimeState → HealthCheckConfig → ℕ → Bool
due_for_check s config now_ms =
    if nat_beq config.interval_ms 0
    then false
    else (nat_beq s.last_check_ms 0 || leb config.interval_ms (now_ms - s.last_check_ms))
