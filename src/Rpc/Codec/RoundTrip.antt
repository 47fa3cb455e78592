-- ===== src/Rpc/Codec/RoundTrip.antt =====
-- crates/sdkwork-discovery-rpc/src/codec.rs: values that are written to a message are read back.
use sdkwork_discovery.Prelude.{ℕ, ◌+◌, ◌*◌, ◌/◌, ◌^◌, ◌<◌, ◌≡◌, refl, ap, false, arith}
use sdkwork_discovery.Prelude.Text.{is_blank}
use sdkwork_discovery.Contract.Error.{ok}
use sdkwork_discovery.Contract.Health.{HealthCheckProbe, tcp, http, grpc, HealthCheckConfig}
use sdkwork_discovery.Contract.Registry.{InstanceStatus, serving, degraded, not_serving}
use sdkwork_discovery.Contract.Config.{
  ConfigFormat, text, json, toml, ConfigScope, namespace_scope, application_scope, service_scope,
}
use sdkwork_discovery.Rpc.Codec.Requests.{
  instance_status_from_proto, config_format_from_proto, config_scope_from_proto,
  health_check_probe_from_proto, health_check_from_proto,
}
use sdkwork_discovery.Rpc.Codec.Responses.{
  instance_status_to_proto, config_format_to_proto, config_scope_to_proto_fields, probe_to_proto,
  health_check_to_proto, timestamp_from_millis,
}

pub instance_status-roundtrip :
    (s : InstanceStatus) → instance_status_from_proto (instance_status_to_proto s) ≡ ok s
unfolding instance_status_from_proto instance_status_to_proto
instance_status-roundtrip serving = refl
instance_status-roundtrip degraded = refl
instance_status-roundtrip not_serving = refl

pub config_format-roundtrip :
    (f : ConfigFormat) → config_format_from_proto (config_format_to_proto f) ≡ ok f
unfolding config_format_from_proto config_format_to_proto
config_format-roundtrip text = refl
config_format-roundtrip json = refl
config_format-roundtrip toml = refl

-- The names of a scope are not blank.
abbrev pub IsNamed : ConfigScope → Type 0
IsNamed namespace_scope = Unit
IsNamed (application_scope application) = is_blank application ≡ false
IsNamed (service_scope application service_name) =
    (is_blank application ≡ false) × (is_blank service_name ≡ false)

-- A scope whose names are not blank is read back from the three fields that are written for it.
pub config_scope-roundtrip :
    (s : ConfigScope)
    → IsNamed s
    → config_scope_from_proto
        (config_scope_to_proto_fields s).0
        (config_scope_to_proto_fields s).1
        (config_scope_to_proto_fields s).2
      ≡ ok s
unfolding config_scope_from_proto config_scope_to_proto_fields
config_scope-roundtrip namespace_scope h = refl
config_scope-roundtrip (application_scope application) h = rw h refl
config_scope-roundtrip (service_scope application service_name) (h, k) = rw (h, k) refl

-- The status of an HTTP probe is a number of 16 bits.
abbrev pub HasShortStatus : HealthCheckProbe → Type 0
HasShortStatus tcp = Unit
HasShortStatus (http path expected_status) = expected_status < 2 ^ 16
HasShortStatus (grpc service_name) = Unit

probe-roundtrip :
    (p : HealthCheckProbe)
    → HasShortStatus p
    → health_check_probe_from_proto (probe_to_proto p) ≡ ok p
unfolding health_check_probe_from_proto probe_to_proto
probe-roundtrip tcp h = refl
probe-roundtrip (http path expected_status) h = ap (λ n. ok (http path n)) (omega (arith, h))
probe-roundtrip (grpc service_name) h = refl

-- A health check whose HTTP status, if it has one, is a number of 16 bits is read back from the
-- message that is written for it, with its probe, its times and its thresholds.
pub health_check-roundtrip :
    (c : HealthCheckConfig)
    → HasShortStatus c.probe
    → health_check_from_proto (health_check_to_proto c) ≡ ok c
unfolding health_check_from_proto health_check_to_proto
health_check-roundtrip c h = rw (probe-roundtrip c.probe h) refl

-- The time in a message has at most the nanoseconds of a second and, to the millisecond, is the
-- time that it was made from, as long as the seconds fit in 63 bits.
pub timestamp-roundtrip :
    (ms : ℕ)
    → ms < 2 ^ 63 * 1000
    → ((timestamp_from_millis ms).nanos < 1000000000)
      × ((timestamp_from_millis ms).seconds * 1000 + (timestamp_from_millis ms).nanos / 1000000
          ≡ ms)
unfolding timestamp_from_millis
timestamp-roundtrip ms h = (omega arith, omega (arith, h))
