-- ===== src/Rpc/Codec/Admitted.antt =====
-- crates/sdkwork-discovery-rpc/src/codec.rs: what a command holds that the codec makes of a request.
use sdkwork_discovery.Prelude.{ℕ, ◌≡◌, ap, sym, String}
use sdkwork_discovery.Contract.Error.{ok, bind-ok, then-ok, ok_injective}
use sdkwork_discovery.Contract.Registry.{RegisterInstanceCommand, ReportInstanceStatusCommand}
use sdkwork_discovery.Rpc.Codec.Proto
use sdkwork_discovery.Rpc.Codec.Fields.{validate_identity_field}
use sdkwork_discovery.Rpc.Codec.Requests.{
  validate_instance_fields, validate_registration, register_instance_command,
  instance_status_from_proto, report_status_command, deregister_instance_request,
  health_check_if_some,
}
use sdkwork_discovery.Rpc.Codec.Validated.{IsIdentity, validate_identity_field-IsIdentity}

-- The four texts that name an instance.
pub record NamesInstance (namespace environment service_name instance_id : String) : Type 0 where
  pub of_namespace : IsIdentity namespace
  pub of_environment : IsIdentity environment
  pub of_service : IsIdentity service_name
  pub of_instance : IsIdentity instance_id

validate_instance_fields-NamesInstance :
    (n e s i : String) → validate_instance_fields n e s i ≡ ok tt → NamesInstance n e s i
unfolding validate_instance_fields
validate_instance_fields-NamesInstance n e s i h =
    let (a, h1) = then-ok (validate_identity_field "namespace" n) _ tt h in
    let (b, h2) = then-ok (validate_identity_field "environment" e) _ tt h1 in
    let (c, d) = then-ok (validate_identity_field "service_name" s) _ tt h2 in
    record {
      of_namespace = validate_identity_field-IsIdentity "namespace" n a;
      of_environment = validate_identity_field-IsIdentity "environment" e b;
      of_service = validate_identity_field-IsIdentity "service_name" s c;
      of_instance = validate_identity_field-IsIdentity "instance_id" i d;
    }

pub deregister_instance_request-NamesInstance :
    (q c : Proto.DeregisterInstanceRequest)
    → deregister_instance_request q ≡ ok c
    → (c ≡ q) × NamesInstance q.namespace q.environment q.service_name q.instance_id
unfolding deregister_instance_request
deregister_instance_request-NamesInstance q c h =
    let (a, e) =
      then-ok (validate_instance_fields q.namespace q.environment q.service_name q.instance_id) _ c
        h in
    (sym (ok_injective e), validate_instance_fields-NamesInstance _ _ _ _ a)

pub report_status_command-NamesInstance :
    (now_ms : ℕ) (q : Proto.ReportInstanceStatusRequest) (c : ReportInstanceStatusCommand)
    → report_status_command now_ms q ≡ ok c
    → (c.namespace ≡ q.namespace)
      × NamesInstance q.namespace q.environment q.service_name q.instance_id
unfolding report_status_command
report_status_command-NamesInstance now_ms q c h =
    let (a, h1) =
      then-ok (validate_instance_fields q.namespace q.environment q.service_name q.instance_id) _ c
        h in
    let (status, s, e) = bind-ok (instance_status_from_proto q.status) _ c h1 in
    (sym (ap (λ x. x.namespace) (ok_injective e)), validate_instance_fields-NamesInstance _ _ _ _ a)

pub register_instance_command-NamesInstance :
    (now_ms : ℕ) (q : Proto.RegisterInstanceRequest) (c : RegisterInstanceCommand)
    → register_instance_command now_ms q ≡ ok c
    → (c.namespace ≡ q.namespace)
      × NamesInstance q.namespace q.environment q.service_name q.instance_id
unfolding register_instance_command validate_registration
register_instance_command-NamesInstance now_ms q c h =
    let (v, h1) = then-ok (validate_registration q) _ c h in
    let (a, rest) =
      then-ok (validate_instance_fields q.namespace q.environment q.service_name q.instance_id) _ tt
        v in
    let (status, s, h2) = bind-ok (instance_status_from_proto q.status) _ c h1 in
    let (health, t, e) = bind-ok (health_check_if_some q.health_check) _ c h2 in
    (sym (ap (λ x. x.namespace) (ok_injective e)), validate_instance_fields-NamesInstance _ _ _ _ a)
