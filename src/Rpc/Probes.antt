-- ===== src/Rpc/Probes.antt =====
-- crates/sdkwork-discovery-rpc/src/health_probes.rs: the scan that probes the instances and reports
-- those that fail. `healthy` is the answer of the network probe of an instance.
use sdkwork_discovery.Prelude.{
  ℕ, ◌+◌, ◌%◌, ◌^◌, Bool, true, false, not, ◌&&◌, Option, none, some, List, [], ◌∷◌,
}
use sdkwork_discovery.Prelude.Tests.{if◌then◌else◌}
use sdkwork_discovery.Contract.Error.{ok, err}
use sdkwork_discovery.Contract.Health.{
  HealthCheckConfig, HealthCheckRuntimeState, is_healthy, is_unhealthy, due_for_check,
}
use sdkwork_discovery.Contract.Registry.{
  ServiceInstance, InstanceStatus, serving, not_serving, is_discoverable,
  ReportInstanceStatusCommand,
}
use sdkwork_discovery.Contract.Context.{
  CallerContext, RegistryPermission, new_caller, with_registry_permission,
}
use sdkwork_discovery.Memory.Store.{InstanceKey}
use sdkwork_discovery.Core.Store.{StoreOps}
use sdkwork_discovery.Core.Plane.{DiscoveryControlPlane}
use sdkwork_discovery.Core.Plane

-- The counters are `u32`.
unfoldable pub probed_state : Bool → ℕ → HealthCheckRuntimeState → HealthCheckRuntimeState
probed_state true now_ms s = record {
  consecutive_successes = (s.consecutive_successes + 1) % 2 ^ 32;
  consecutive_failures = 0;
  last_check_ms = now_ms;
}
probed_state false now_ms s = record {
  consecutive_successes = 0;
  consecutive_failures = (s.consecutive_failures + 1) % 2 ^ 32;
  last_check_ms = now_ms;
}

unfoldable pub health_checker : CallerContext
unfolding new_caller with_registry_permission
health_checker =
    with_registry_permission (new_caller "discovery-health-checker") RegistryPermission.write

unfoldable pub report_command : ServiceInstance → InstanceStatus → ℕ → ReportInstanceStatusCommand
report_command i status now_ms = record {
  namespace = i.namespace;
  environment = i.environment;
  service_name = i.service_name;
  instance_id = i.instance_id;
  status = status;
  now_ms = now_ms;
  expected_revision = none;
}

-- The status that a probe makes the checker report, if any.
unfoldable pub verdict :
    HealthCheckRuntimeState → HealthCheckConfig → InstanceStatus → Option InstanceStatus
unfolding is_unhealthy is_healthy is_discoverable
verdict state config status =
    if is_unhealthy state config && is_discoverable status
    then some not_serving
    else if is_healthy state config && not (is_discoverable status)
    then some serving
    else none

abbrev pub instance_key : ServiceInstance → InstanceKey
instance_key i = record {
  namespace = i.namespace;
  environment = i.environment;
  service_name = i.service_name;
  instance_id = i.instance_id;
}

module _ {S : Type 0} (ops : StoreOps S) (plane : DiscoveryControlPlane)
    (healthy : ServiceInstance → Bool) (now_ms : ℕ) where
  -- Errors of the two store calls are logged only.
  abbrev pub report_verdict : ServiceInstance → Option InstanceStatus → S → S
  report_verdict i none s = s
  report_verdict i (some status) s =
      (Plane.report_instance_status ops plane health_checker (report_command i status now_ms) s).1

  unfoldable pub check_due : ServiceInstance → HealthCheckConfig → S → S
  unfolding probed_state verdict report_command health_checker Plane.report_instance_status
  check_due i config s =
      let state = probed_state (healthy i) now_ms i.health_check_state in
      report_verdict i (verdict state config i.status)
        (ops.update_health_check_state (instance_key i) state s).1

  abbrev pub check_instance : ServiceInstance → Option HealthCheckConfig → S → S
  check_instance i none s = s
  check_instance i (some config) s =
      if due_for_check i.health_check_state config now_ms then check_due i config s else s

  unfoldable pub check_instances : List ServiceInstance → S → S
  unfolding check_due due_for_check
  check_instances [] s = s
  check_instances (i ∷ is) s = check_instances is (check_instance i i.health_check s)

  unfoldable pub run_health_checks : S → S
  unfolding check_instances
  run_health_checks s = elim (ops.list_active_instances_with_health_check s now_ms) [
    | err e ↦ s
    | ok instances ↦ check_instances instances s
  ]
