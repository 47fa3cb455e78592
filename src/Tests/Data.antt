-- ===== src/Tests/Data.antt =====
-- One instance, its registration, and a store that holds it.
use sdkwork_discovery.Prelude.{ℕ, ◌≡◌, refl, String, Bool, true, false, none, some, List, [], ◌∷◌}
use sdkwork_discovery.Contract.Error.{ok}
use sdkwork_discovery.Contract.Health.{default_state}
use sdkwork_discovery.Contract.Registry.{
  RegisterInstanceCommand, RegisterInstanceResult, ServiceInstance, serving,
}
use sdkwork_discovery.Contract.Event.{DiscoveryEvent, instance_registered}
use sdkwork_discovery.Memory.Store.{MemoryDiscoveryStore, InstanceKey, new}
use mathlib.Core.Path.{subst}
use sdkwork_discovery.Prelude.Tests.{◌==◌, text_eq}
use sdkwork_discovery.Prelude.{◌≢◌, eq_iff, arith, ap}
use sdkwork_discovery.Memory.Call.{run, step, registers}
use sdkwork_discovery.Memory.Leases.Writes.{IsValid}
use sdkwork_discovery.Memory.Leases.Runs.{run-IsValid}
use sdkwork_discovery.Memory.Register.{register_instance}

abbrev pub reg : RegisterInstanceCommand
reg = record {
  namespace = "acme";
  environment = "prod";
  service_name = "orders";
  instance_id = "orders-1";
  endpoint = "10.0.0.1:80";
  protocol = "http";
  version = "1";
  region = "eu";
  zone = "a";
  weight = 10;
  priority = 0;
  status = serving;
  metadata = [];
  lease_ttl_seconds = 30;
  now_ms = 1000;
  expected_revision = none;
  persistent = false;
  health_check = none;
}

abbrev pub key : InstanceKey
key = record {
  namespace = "acme";
  environment = "prod";
  service_name = "orders";
  instance_id = "orders-1";
}

abbrev pub instance_1 : ServiceInstance
instance_1 = record {
  namespace = "acme";
  environment = "prod";
  service_name = "orders";
  instance_id = "orders-1";
  endpoint = "10.0.0.1:80";
  protocol = "http";
  version = "1";
  region = "eu";
  zone = "a";
  weight = 10;
  priority = 0;
  status = serving;
  metadata = [];
  lease_id = "lease-1";
  expires_at_ms = 31000;
  revision = 1;
  health_check = none;
  health_check_state = default_state;
}

abbrev pub result_1 : RegisterInstanceResult
result_1 = record {
  lease_id = "lease-1";
  namespace = "acme";
  environment = "prod";
  service_name = "orders";
  instance_id = "orders-1";
  revision = 1;
  expires_at_ms = 31000;
}

abbrev pub event_1 : DiscoveryEvent
event_1 = record {
  revision = 1;
  namespace = "acme";
  environment = "prod";
  kind = instance_registered;
  resource_id = "orders-1";
  service_name = some "orders";
  config_group = none;
  config_key = none;
  config_application = none;
}

abbrev pub store_1 : MemoryDiscoveryStore
store_1 = record new {
  revision = 1;
  next_sequence = 1;
  instances = (key, instance_1) ∷ [];
  lease_index = ("lease-1", key) ∷ [];
  events = event_1 ∷ [];
}

pub registered : register_instance reg new ≡ (ok result_1, store_1)
unfolding register_instance sdkwork_discovery.Memory.Register.validate_register
    sdkwork_discovery.Memory.Store.validate_non_empty sdkwork_discovery.Prelude.Text.is_blank
    sdkwork_discovery.Memory.Register.check_expected
    sdkwork_discovery.Memory.Register.register_checked
    sdkwork_discovery.Memory.Register.write_registration
    sdkwork_discovery.Memory.Register.register_expiry
    sdkwork_discovery.Memory.Store.lease_expires_at_ms
    sdkwork_discovery.Memory.Register.new_instance sdkwork_discovery.Memory.Register.store_instance
    sdkwork_discovery.Memory.Register.assign_lease sdkwork_discovery.Memory.Store.next_revision
    sdkwork_discovery.Prelude.Map.insert sdkwork_discovery.Memory.Register.live_lease
    sdkwork_discovery.Prelude.Map.get sdkwork_discovery.Memory.Store.next_id
    sdkwork_discovery.Memory.Store.id_text sdkwork_discovery.Prelude.Text.decimal
registered = refl

pub store_1-IsValid : IsValid store_1
unfolding run step
store_1-IsValid =
    let valid : IsValid (register_instance reg new).1 =
      run-IsValid (λ v. v) (registers reg ∷ []) (omega arith) in
    subst IsValid (ap (λ p. p.1) registered) valid

pub texts_differ : (s t : String) → (s == t) ≡ false → s ≢ t
texts_differ s t h e = ground (arith, eq_iff s t, h, e)
