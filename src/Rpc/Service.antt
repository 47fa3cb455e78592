-- ===== src/Rpc/Service.antt =====
-- crates/sdkwork-discovery-rpc/src/services.rs: the unary methods of the registry, configuration and
-- administration services. Metrics and log lines are left out.
use sdkwork_discovery.Prelude.{ℕ, String, Option, none, some, List}
use sdkwork_discovery.Contract.Error.{
  DiscoveryError, DiscoveryResult, ok, err, ◌>>=◌, not_found, Op,
}
use sdkwork_discovery.Contract.Registry.{
  RegisterInstanceCommand, RenewLeaseCommand, ReportInstanceStatusCommand, ServiceInstance,
  RetrieveInstanceQuery, DiscoverInstancesQuery, ListServicesQuery,
}
use sdkwork_discovery.Contract.Context.{CallerContext}
use sdkwork_discovery.Contract.Config.{
  IdempotencyContext, RetrieveEffectiveConfigQuery, CreateConfigDraftCommand, PublishConfigCommand,
  RollbackConfigCommand,
}
use sdkwork_discovery.Memory.Store.{InstanceKey}
use sdkwork_discovery.Core.Store.{StoreOps}
use sdkwork_discovery.Core.Plane.{DiscoveryControlPlane}
use sdkwork_discovery.Rpc.Token.{Decoders}
use sdkwork_discovery.Rpc.Context.{
  MetadataMap, RpcContextPolicy, caller_from_metadata, registry_reader_from_metadata,
  caller_from_metadata_with_required_idempotency, idempotency_from_metadata,
}
use sdkwork_discovery.Rpc.Correlation.{request_id_from_metadata, trace_id_from_metadata}
use sdkwork_discovery.Rpc.Status.{
  Status, map_discovery_error_to_status, map_discovery_error_to_rpc_status,
}
use sdkwork_discovery.Rpc.Actor.{Runtime, Readings, RuntimeCommand}
use sdkwork_discovery.Rpc.Actor
use sdkwork_discovery.Rpc.Actor.Dispatch.{dispatch_command}
use sdkwork_discovery.Rpc.Codec.Proto
use sdkwork_discovery.Rpc.Codec.Requests
use sdkwork_discovery.Rpc.Codec.Responses

-- `Result<Response<M>, Status>`
pub data RpcResult (M : Type 0) : Type 0 where
  response : M → RpcResult M
  failure : Status → RpcResult M

-- The runtime's fixed parts, as the services hold them.
pub record Server (S : Type 0) : Type 0 where
  pub debug : Option String → String
  pub ops : StoreOps S
  pub plane : DiscoveryControlPlane
  pub decoders : Decoders
  pub context_policy : RpcContextPolicy
  pub parse_value : String → Option String

-- What a request brings, and what its handling reads from outside.
pub record Call : Type 0 where
  pub metadata : MetadataMap
  pub generated_id : String
  pub token_now : ℕ
  pub now_ms : ℕ
  pub server_now : ℕ
  pub readings : Readings

module _ {S : Type 0} (server : Server S) (call : Call) where
  abbrev rpc_failure : {M : Type 0} → DiscoveryError → String → String → RpcResult M
  rpc_failure e request_id trace_id =
      failure (map_discovery_error_to_rpc_status server.parse_value e request_id trace_id)

  abbrev pub answer_with :
      {A M : Type 0}
      → (A → DiscoveryResult M)
      → String
      → String
      → DiscoveryResult A × Runtime S
      → RpcResult M × Runtime S
  answer_with encode request_id trace_id (result, r) = (
    elim (result >>= encode) [ err e ↦ rpc_failure e request_id trace_id | ok m ↦ response m ],
    r,
  )

  -- The frame of every method: the identifiers, the caller and command, the runtime, the answer.
  unfoldable pub unary :
      {K A M : Type 0}
      → DiscoveryResult K
      → (K → Op (Runtime S) A)
      → (String → String → A → DiscoveryResult M)
      → Runtime S
      → RpcResult M × Runtime S
  unary prepared execute encode r =
      elim (request_id_from_metadata call.generated_id call.metadata) [
        | err e ↦ (failure (map_discovery_error_to_status server.parse_value e), r)
        | ok request_id ↦ elim (trace_id_from_metadata call.metadata) [
          | err e ↦ (rpc_failure e request_id "", r)
          | ok trace_id ↦ elim prepared [
            | err e ↦ (rpc_failure e request_id trace_id, r)
            | ok k ↦ answer_with (encode request_id trace_id) request_id trace_id (execute k r)
          ]
        ]
      ]

  abbrev pub caller : DiscoveryResult CallerContext
  caller = caller_from_metadata server.decoders call.token_now call.metadata server.context_policy

  abbrev registry_reader : DiscoveryResult CallerContext
  registry_reader =
      registry_reader_from_metadata server.decoders call.token_now call.metadata
        server.context_policy

  abbrev idempotent_caller : DiscoveryResult CallerContext
  idempotent_caller =
      caller_from_metadata_with_required_idempotency server.decoders call.token_now call.metadata
        server.context_policy

  abbrev dispatch : (c : RuntimeCommand) → Op (Runtime S) (Actor.Answer c)
  dispatch c = dispatch_command server.debug server.ops server.plane call.readings c

  unfoldable pub register_instance :
      Proto.RegisterInstanceRequest
      → Runtime S
      → RpcResult Proto.RegisterInstanceResponse × Runtime S
  register_instance request =
      unary {K = CallerContext × RegisterInstanceCommand}
        (caller >>= λ who.
          Requests.register_instance_command call.now_ms request >>= λ c. ok (who, c))
        (λ k. dispatch (Actor.register_instance k.0 k.1))
        (λ rid tid a. ok (Responses.register_instance_response call.server_now rid tid a))

  unfoldable pub batch_register_instances :
      Proto.BatchRegisterInstancesRequest
      → Runtime S
      → RpcResult Proto.BatchRegisterInstancesResponse × Runtime S
  batch_register_instances request =
      unary {K = CallerContext × List RegisterInstanceCommand}
        (caller >>= λ who.
          Requests.batch_register_instances_commands call.now_ms request >>= λ c. ok (who, c))
        (λ k. dispatch (Actor.batch_register_instances k.0 k.1))
        (λ rid tid a. ok (Responses.batch_register_instances_response call.server_now rid tid a))

  unfoldable pub renew_lease :
      Proto.RenewLeaseRequest → Runtime S → RpcResult Proto.RenewLeaseResponse × Runtime S
  renew_lease request =
      unary {K = CallerContext × RenewLeaseCommand}
        (caller >>= λ who. Requests.renew_lease_command call.now_ms request >>= λ c. ok (who, c))
        (λ k. dispatch (Actor.renew_lease k.0 k.1))
        (λ rid tid a. ok (Responses.renew_lease_response call.server_now rid tid a))

  abbrev key_of : Proto.DeregisterInstanceRequest → InstanceKey
  key_of r = record {
    namespace = r.namespace;
    environment = r.environment;
    service_name = r.service_name;
    instance_id = r.instance_id;
  }

  abbrev deregistered : ℕ → String → String → Proto.DeregisterInstanceResponse
  deregistered revision rid tid = record {
    metadata = some (Responses.response_metadata call.server_now rid tid revision);
  }

  unfoldable pub deregister_instance :
      Proto.DeregisterInstanceRequest
      → Runtime S
      → RpcResult Proto.DeregisterInstanceResponse × Runtime S
  deregister_instance request =
      unary {K = CallerContext × Proto.DeregisterInstanceRequest}
        (caller >>= λ who. Requests.deregister_instance_request request >>= λ c. ok (who, c))
        (λ k. dispatch (Actor.deregister_instance k.0 (key_of k.1) call.now_ms))
        (λ rid tid a. ok (deregistered a.revision rid tid))

  unfoldable pub report_instance_status :
      Proto.ReportInstanceStatusRequest
      → Runtime S
      → RpcResult Proto.ReportInstanceStatusResponse × Runtime S
  report_instance_status request =
      unary {K = CallerContext × ReportInstanceStatusCommand}
        (caller >>= λ who. Requests.report_status_command call.now_ms request >>= λ c. ok (who, c))
        (λ k. dispatch (Actor.report_instance_status k.0 k.1))
        (λ rid tid a. ok (Responses.report_status_response call.server_now rid tid a))

  abbrev found_instance :
      String → String → Option ServiceInstance → DiscoveryResult Proto.RetrieveInstanceResponse
  found_instance rid tid none = err (not_found "service instance not found")
  found_instance rid tid (some i) =
      ok (Responses.retrieve_instance_response call.server_now rid tid i)

  unfoldable pub retrieve_instance :
      Proto.RetrieveInstanceRequest
      → Runtime S
      → RpcResult Proto.RetrieveInstanceResponse × Runtime S
  retrieve_instance request =
      unary {K = CallerContext × RetrieveInstanceQuery}
        (registry_reader >>= λ who. Requests.retrieve_instance_query request >>= λ q. ok (who, q))
        (λ k. dispatch (Actor.retrieve_instance k.0 k.1 call.now_ms)) found_instance

  unfoldable pub discover_instances :
      Proto.DiscoverInstancesRequest
      → Runtime S
      → RpcResult Proto.DiscoverInstancesResponse × Runtime S
  discover_instances request =
      unary {K = CallerContext × DiscoverInstancesQuery}
        (caller >>= λ who. Requests.discover_instances_query request >>= λ q. ok (who, q))
        (λ k. dispatch (Actor.discover_instances k.0 k.1 call.now_ms))
        (λ rid tid a. ok (Responses.discover_instances_response call.server_now rid tid a))

  unfoldable pub retrieve_effective_config :
      Proto.RetrieveEffectiveConfigRequest
      → Runtime S
      → RpcResult Proto.RetrieveEffectiveConfigResponse × Runtime S
  retrieve_effective_config request =
      unary {K = CallerContext × RetrieveEffectiveConfigQuery}
        (caller >>= λ who. Requests.retrieve_effective_config_query request >>= λ q. ok (who, q))
        (λ k. dispatch (Actor.retrieve_effective_config k.0 k.1))
        (λ rid tid a. ok (Responses.retrieve_effective_config_response call.server_now rid tid a))

  -- The idempotency, then the caller, of a method that writes configuration.
  abbrev idempotent : String → DiscoveryResult (IdempotencyContext × CallerContext)
  idempotent operation_id = idempotency_from_metadata call.metadata operation_id >>= λ i.
      idempotent_caller >>= λ who. ok (i, who)

  unfoldable pub create_config_draft :
      Proto.CreateConfigDraftRequest
      → Runtime S
      → RpcResult Proto.CreateConfigDraftResponse × Runtime S
  create_config_draft request =
      unary {K = CallerContext × CreateConfigDraftCommand}
        (idempotent "discovery.config.drafts.create" >>= λ w.
          Requests.create_config_draft_command request (w.1).subject_id w.0 >>= λ c. ok (w.1, c))
        (λ k. dispatch (Actor.create_config_draft k.0 k.1))
        (λ rid tid a. ok (
          Responses.create_config_draft_response call.server_now rid tid a.draft_id a.content_hash))

  unfoldable pub publish_config :
      Proto.PublishConfigRequest → Runtime S → RpcResult Proto.PublishConfigResponse × Runtime S
  publish_config request =
      unary {K = CallerContext × PublishConfigCommand}
        (idempotent "discovery.config.releases.publish" >>= λ w.
          Requests.publish_config_command call.now_ms request (w.1).subject_id w.0 >>= λ c.
          ok (w.1, c))
        (λ k. dispatch (Actor.publish_config k.0 k.1))
        (λ rid tid a. ok (Responses.publish_config_response call.server_now rid tid a))

  unfoldable pub rollback_config :
      Proto.RollbackConfigRequest → Runtime S → RpcResult Proto.RollbackConfigResponse × Runtime S
  rollback_config request =
      unary {K = CallerContext × RollbackConfigCommand}
        (idempotent "discovery.config.releases.rollback" >>= λ w.
          Requests.rollback_config_command call.now_ms request (w.1).subject_id w.0 >>= λ c.
          ok (w.1, c))
        (λ k. dispatch (Actor.rollback_config k.0 k.1))
        (λ rid tid a. ok (Responses.rollback_config_response call.server_now rid tid a))

  unfoldable pub list_services :
      Proto.ListServicesRequest → Runtime S → RpcResult Proto.ListServicesResponse × Runtime S
  list_services request =
      unary {K = CallerContext × ListServicesQuery}
        (caller >>= λ who. Requests.list_services_query request >>= λ q. ok (who, q))
        (λ k. dispatch (Actor.list_services k.0 k.1 call.now_ms))
        (λ rid tid a. ok (Responses.list_services_response call.server_now rid tid a))
