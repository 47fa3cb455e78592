-- ===== src/Rpc/Health.antt =====
-- crates/sdkwork-discovery-rpc/src/health.rs: the status that the actor shares with the probes.
use sdkwork_discovery.Prelude.{ℕ, String, Bool, true, false, Option, none, some}
use sdkwork_discovery.Prelude.Tests.{nat_beq, if◌then◌else◌}
use sdkwork_discovery.Rpc.Breaker.{CircuitState, closed, open_, half_open}
use sdkwork_discovery.Rpc.Resilience.{DegradationState, normal, read_only, RuntimeResilience}

pub data DiscoveryHealthStatus : Type 0 where
  not_serving serving degraded : DiscoveryHealthStatus

-- The number of a status, which its cell and its gauge hold.
unfoldable pub as_gauge_value : DiscoveryHealthStatus → ℕ
as_gauge_value not_serving = 0
as_gauge_value serving = 1
as_gauge_value degraded = 2

unfoldable pub from_u8 : ℕ → DiscoveryHealthStatus
from_u8 value =
    if nat_beq value 0 then not_serving else if nat_beq value 1 then serving else degraded

unfoldable pub is_ready : DiscoveryHealthStatus → Bool
is_ready serving = true
is_ready not_serving = false
is_ready degraded = false

-- Whether `grpc.health.v1` reports `SERVING`.
unfoldable pub grpc_serving_status : DiscoveryHealthStatus → Bool
grpc_serving_status serving = true
grpc_serving_status degraded = true
grpc_serving_status not_serving = false

-- The cell holds a number; its reason stands beside it.
pub record DiscoveryHealthState : Type 0 where
  pub status_cell : ℕ
  pub last_reason : Option String

unfoldable pub with_status : DiscoveryHealthStatus → DiscoveryHealthState
unfolding as_gauge_value
with_status s = record { status_cell = as_gauge_value s; last_reason = none }

unfoldable pub status : DiscoveryHealthState → DiscoveryHealthStatus
unfolding from_u8
status h = from_u8 h.status_cell

unfoldable pub set :
    DiscoveryHealthStatus → Option String → DiscoveryHealthState → DiscoveryHealthState
unfolding as_gauge_value
set s reason h = record { status_cell = as_gauge_value s; last_reason = reason }

abbrev of_states : DegradationState → CircuitState → DiscoveryHealthStatus
of_states read_only c = degraded
of_states normal open_ = not_serving
of_states normal closed = serving
of_states normal half_open = serving

unfoldable pub from_resilience : RuntimeResilience → DiscoveryHealthStatus
from_resilience r = of_states r.degradation r.circuit_breaker.state

abbrev reason_of : DiscoveryHealthStatus → Option String
reason_of degraded = some "storage degraded: serving stale reads"
reason_of not_serving = some "storage circuit breaker open"
reason_of serving = none

abbrev is_same_status : DiscoveryHealthStatus → DiscoveryHealthStatus → Bool
is_same_status a b = nat_beq (as_gauge_value a) (as_gauge_value b)

-- The previous status, and the cell after it.
unfoldable pub sync_from_resilience :
    RuntimeResilience → DiscoveryHealthState → DiscoveryHealthStatus × DiscoveryHealthState
unfolding status from_resilience set as_gauge_value
sync_from_resilience r h =
    let previous = status h in
    let next = from_resilience r in
    (previous, if is_same_status previous next then h else set next (reason_of next) h)
