-- ===== src/Rpc/Tenancy.antt =====
-- crates/sdkwork-discovery-rpc/src/services.rs: who a request that writes to a namespace speaks for,
-- from the metadata over the codec and the actor to the checks of the control plane.
use sdkwork_discovery.Prelude.{◌≡◌, refl, ap, ◌∙◌, sym, String, some, List, inl, inr}
use sdkwork_discovery.Contract.Error.{
  DiscoveryResult, ok, err, Op, ◌>>=◌, Result-cases, then-ok, ok_injective,
}
use sdkwork_discovery.Contract.Event.{DiscoveryEvent}
use sdkwork_discovery.Contract.Context.{CallerContext, RegistryPermission}
use sdkwork_discovery.Core.Policy.{require_namespace_tenant_access, require_registry_permission}
use sdkwork_discovery.Core.Store.{StoreOps}
use sdkwork_discovery.Core.Plane.{DiscoveryControlPlane, guarded}
use sdkwork_discovery.Core.Plane
use sdkwork_discovery.Core.Isolation.{access-belongs}
use sdkwork_discovery.Rpc.Token.{ServiceTokenVerifierConfig}
use sdkwork_discovery.Rpc.Callers.{SpeaksFor, caller-SpeaksFor}
use sdkwork_discovery.Rpc.Context.{caller_from_metadata}
use sdkwork_discovery.Rpc.Resilience.{gate, write}
use sdkwork_discovery.Rpc.Actor.{Runtime, Readings, write_command, finish_write}
use sdkwork_discovery.Rpc.Correlation.{request_id_from_metadata, trace_id_from_metadata}
use sdkwork_discovery.Rpc.Codec.Proto
use sdkwork_discovery.Rpc.Codec.Requests
use sdkwork_discovery.Rpc.Codec.Admitted.{
  register_instance_command-NamesInstance, deregister_instance_request-NamesInstance,
  report_status_command-NamesInstance,
}
use sdkwork_discovery.Rpc.Actor.Dispatch.{dispatch_command}
use sdkwork_discovery.Rpc.Codec.Validated.{IsIdentity, IsIdentity-belongs_to}
use sdkwork_discovery.Rpc.Service.{
  RpcResult, response, failure, Server, Call, unary, answer_with, caller,
}
use sdkwork_discovery.Rpc.Service

write_command-ok :
    {S A : Type 0} (op : Op S A) (publish : S → DiscoveryResult A → List DiscoveryEvent)
    (t : Readings) (r : Runtime S) (a : A)
    → (write_command op publish t r).0 ≡ ok a
    → (op r.store).0 ≡ ok a
unfolding write_command finish_write
write_command-ok op publish t r a h =
    elim (Result-cases (gate t.acquired t.at_gate write r.resilience).0) [
      | inl (e, g) ↦ absurd (cc (rw (g, write_command) at h))
      | inr (u, g) ↦ rw (g, write_command) at h
    ]

guarded-ok :
    {S A : Type 0} (ops : StoreOps S) (plane : DiscoveryControlPlane) (caller : CallerContext)
    (checks : DiscoveryResult (Unit {0})) (op : Op S A) (s : S) (a : A)
    → (guarded ops plane caller checks op s).0 ≡ ok a
    → checks ≡ ok tt
guarded-ok ops plane caller (ok u) op s a h = refl
guarded-ok ops plane caller (err e) op s a h = cc

-- A command of the control plane that is carried out has passed its checks.
checked-ok :
    {S A : Type 0} (ops : StoreOps S) (plane : DiscoveryControlPlane) (caller : CallerContext)
    (checks : DiscoveryResult (Unit {0})) (op : Op S A)
    (publish : S → DiscoveryResult A → List DiscoveryEvent) (t : Readings) (r : Runtime S) (a : A)
    → (write_command (guarded ops plane caller checks op) publish t r).0 ≡ ok a
    → checks ≡ ok tt
checked-ok ops plane caller checks op publish t r a h =
    guarded-ok ops plane caller checks op r.store a
      (write_command-ok (guarded ops plane caller checks op) publish t r a h)

-- A caller and a command that are both there.
prepared-ok :
    {A B : Type 0} (m : DiscoveryResult A) (n : DiscoveryResult B) (k : A × B)
    → (m >>= λ a. n >>= λ b. ok (a, b)) ≡ ok k
    → (m ≡ ok k.0) × (n ≡ ok k.1)
prepared-ok (ok a) (ok b) k h =
    let same : (a, b) ≡ k = ok_injective h in (ap (λ p. ok p.0) same, ap (λ p. ok p.1) same)
prepared-ok (ok a) (err e) k h = absurd cc
prepared-ok (err e) n k h = absurd cc

module _ {S : Type 0} (server : Server S) (call : Call) where
  answer_with-response :
      {A M : Type 0} (encode : A → DiscoveryResult M) (request_id trace_id : String)
      (p : DiscoveryResult A × Runtime S) (m : M)
      → (answer_with server call encode request_id trace_id p).0 ≡ response m
      → (a : A) × (p.0 ≡ ok a)
  answer_with-response encode request_id trace_id (ok a, r) m h = (a, refl)
  answer_with-response encode request_id trace_id (err e, r) m h = cc

  -- A method that answers has prepared its command, and the runtime has carried it out.
  unary-response :
      {K A M : Type 0} (prepared : DiscoveryResult K) (execute : K → Op (Runtime S) A)
      (encode : String → String → A → DiscoveryResult M) (r : Runtime S) (m : M)
      → (unary server call prepared execute encode r).0 ≡ response m
      → (k : K) × (prepared ≡ ok k) × (a : A) × ((execute k r).0 ≡ ok a)
  unfolding unary
  unary-response prepared execute encode r m h =
      elim (Result-cases (request_id_from_metadata call.generated_id call.metadata)) [
        | inl (e, x) ↦ absurd (cc (rw (x, unary) at h))
        | inr (request_id, x) ↦ elim (Result-cases (trace_id_from_metadata call.metadata)) [
          | inl (e, y) ↦ absurd (cc (rw (x, y, unary) at h))
          | inr (trace_id, y) ↦ elim (Result-cases prepared) [
            | inl (e, z) ↦ absurd (cc (rw (x, y, z, unary) at h))
            | inr (k, z) ↦
                let (a, done) =
                  answer_with-response (encode request_id trace_id) request_id trace_id
                    (execute k r) m (rw (x, y, z, unary) at h) in
                (k, z, a, done)
          ]
        ]
      ]

-- A method whose command is prepared and carried out answers.
module _ {S : Type 0} (server : Server S) (call : Call) where
  answer_with-answers :
      {A M : Type 0} (encode : A → DiscoveryResult M) (request_id trace_id : String)
      (p : DiscoveryResult A × Runtime S) {a : A} {m : M}
      → p.0 ≡ ok a
      → encode a ≡ ok m
      → (answer_with server call encode request_id trace_id p).0 ≡ response m
  answer_with-answers encode request_id trace_id (ok a, r) e f =
      rw (ap encode (ok_injective e) ∙ f, answer_with) refl
  answer_with-answers encode request_id trace_id (err x, r) e f = absurd cc

  pub unary-answers :
      {K A M : Type 0} (prepared : DiscoveryResult K) (execute : K → Op (Runtime S) A)
      (encode : String → String → A → DiscoveryResult M) (r : Runtime S)
      {request_id trace_id : String} {k : K} {a : A} {m : M}
      → request_id_from_metadata call.generated_id call.metadata ≡ ok request_id
      → trace_id_from_metadata call.metadata ≡ ok trace_id
      → prepared ≡ ok k
      → (execute k r).0 ≡ ok a
      → encode request_id trace_id a ≡ ok m
      → (unary server call prepared execute encode r).0 ≡ response m
  unfolding unary
  unary-answers prepared execute encode r {request_id} {trace_id} {k} x y z done f =
      rw (x, y, z, unary)
        (answer_with-answers (encode request_id trace_id) request_id trace_id (execute k r) done f)

-- A write to a namespace that names an instance.
pub data NamespaceWrite : Type 0 where
  registers : Proto.RegisterInstanceRequest → NamespaceWrite
  deregisters : Proto.DeregisterInstanceRequest → NamespaceWrite
  reports : Proto.ReportInstanceStatusRequest → NamespaceWrite

abbrev pub namespace_of : NamespaceWrite → String
namespace_of (registers q) = q.namespace
namespace_of (deregisters q) = q.namespace
namespace_of (reports q) = q.namespace

module _ {S : Type 0} (server : Server S) (call : Call) (r : Runtime S) where
  -- The service answers the write with a response.
  abbrev pub Answered : NamespaceWrite → Type 0
  Answered (registers q) =
      (m : Proto.RegisterInstanceResponse) × ((Service.register_instance server call q r).0
        ≡ response m)
  Answered (deregisters q) =
      (m : Proto.DeregisterInstanceResponse) × ((Service.deregister_instance server call q r).0
        ≡ response m)
  Answered (reports q) =
      (m : Proto.ReportInstanceStatusResponse) × ((Service.report_instance_status server call q r).0
        ≡ response m)

  -- A caller whom the metadata gives, and who is let into an identity.
  abbrev Admitted : String → Type 0
  Admitted namespace =
      (who : CallerContext) × (caller_from_metadata server.decoders call.token_now call.metadata
          server.context_policy
        ≡ ok who)
      × (require_namespace_tenant_access who namespace ≡ ok tt)
      × IsIdentity namespace

  register-Admitted :
      (q : Proto.RegisterInstanceRequest) (m : Proto.RegisterInstanceResponse)
      → (Service.register_instance server call q r).0 ≡ response m
      → Admitted q.namespace
  unfolding Service.register_instance Plane.register_instance Plane.check_register dispatch_command
  register-Admitted q m h =
      let (k, prepared, a, done) = unary-response server call _ _ _ r m h in
      let (called, coded) =
        prepared-ok (caller server call) (Requests.register_instance_command call.now_ms q) k
          prepared in
      let (same, names) = register_instance_command-NamesInstance call.now_ms q k.1 coded in
      let passed = checked-ok server.ops server.plane k.0 _ _ _ call.readings r a done in
      let (writes, checked) =
        then-ok (require_registry_permission k.0 RegistryPermission.write) _ tt passed in
      let (access, ttl) =
        then-ok (require_namespace_tenant_access k.0 (k.1).namespace) _ tt checked in
      (k.0, called, rw same at access, names.of_namespace)

  deregister-Admitted :
      (q : Proto.DeregisterInstanceRequest) (m : Proto.DeregisterInstanceResponse)
      → (Service.deregister_instance server call q r).0 ≡ response m
      → Admitted q.namespace
  unfolding Service.deregister_instance Plane.deregister_instance dispatch_command
  deregister-Admitted q m h =
      let (k, prepared, a, done) = unary-response server call _ _ _ r m h in
      let (called, coded) =
        prepared-ok (caller server call) (Requests.deregister_instance_request q) k prepared in
      let (same, names) = deregister_instance_request-NamesInstance q k.1 coded in
      let passed = checked-ok server.ops server.plane k.0 _ _ _ call.readings r a done in
      let (writes, access) =
        then-ok (require_registry_permission k.0 RegistryPermission.write) _ tt passed in
      (k.0, called, rw same at access, names.of_namespace)

  report-Admitted :
      (q : Proto.ReportInstanceStatusRequest) (m : Proto.ReportInstanceStatusResponse)
      → (Service.report_instance_status server call q r).0 ≡ response m
      → Admitted q.namespace
  unfolding Service.report_instance_status Plane.report_instance_status dispatch_command
  report-Admitted q m h =
      let (k, prepared, a, done) = unary-response server call _ _ _ r m h in
      let (called, coded) =
        prepared-ok (caller server call) (Requests.report_status_command call.now_ms q) k
          prepared in
      let (same, names) = report_status_command-NamesInstance call.now_ms q k.1 coded in
      let passed = checked-ok server.ops server.plane k.0 _ _ _ call.readings r a done in
      let (writes, access) =
        then-ok (require_registry_permission k.0 RegistryPermission.write) _ tt passed in
      (k.0, called, rw same at access, names.of_namespace)

  Answered-Admitted : (w : NamespaceWrite) → Answered w → Admitted (namespace_of w)
  Answered-Admitted (registers q) (m, h) = register-Admitted q m h
  Answered-Admitted (deregisters q) (m, h) = deregister-Admitted q m h
  Answered-Admitted (reports q) (m, h) = report-Admitted q m h

  -- Where a token verifier is configured: when the service answers a registration, a removal or a
  -- report of a status with a response, the metadata has both tokens and no unsigned context, its
  -- tokens are verified, and the namespace of the request is the tenant of the caller itself.
  pub write-own_tenant :
      (config : ServiceTokenVerifierConfig) (w : NamespaceWrite)
      → (server.context_policy).service_token_verifier ≡ some config
      → Answered w
      → (who : CallerContext) × SpeaksFor server.decoders call.token_now call.metadata config who
        × (who.tenant_id ≡ some (namespace_of w))
  write-own_tenant config w has answered =
      let (who, called, access, identity) = Answered-Admitted w answered in
      let (speaks, (t, of_tenant, filled)) =
        caller-SpeaksFor server.decoders call.token_now call.metadata config server.context_policy
          who has called in
      let own =
        IsIdentity-belongs_to t (namespace_of w) identity
          (access-belongs who t (namespace_of w) of_tenant access) in
      (who, speaks, of_tenant ∙ ap some (sym own))
