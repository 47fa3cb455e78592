-- ===== src/Rpc/Status.antt =====
-- crates/sdkwork-discovery-rpc/src/error.rs: the gRPC status of an error. Logging is left out.
-- `parse_value` is the other package's check of a metadata value.
use sdkwork_discovery.Prelude.{String, [], Option, none, some}
use sdkwork_discovery.Prelude.Map.{Map, insert}
use sdkwork_discovery.Prelude.Tests.{◌==◌, if◌then◌else◌, text_eq}
use sdkwork_discovery.Contract.Error.{
  DiscoveryError, unauthenticated, invalid_config, invalid_argument, not_found, already_published,
  permission_denied, policy_violation, conflict, unavailable, resource_exhausted,
}

-- The status codes that are used.
pub data Code : Type 0 where
  code_unauthenticated failed_precondition code_invalid_argument code_not_found : Code
  already_exists code_permission_denied aborted code_unavailable code_resource_exhausted : Code
  unimplemented : Code

pub record Status : Type 0 where
  pub code : Code
  pub message : String
  pub metadata : Map String String

unfoldable pub sanitize_external_message : DiscoveryError → String
sanitize_external_message (invalid_argument m) = m
sanitize_external_message (not_found m) = m
sanitize_external_message (already_published m) = m
sanitize_external_message (conflict m) = m
sanitize_external_message (unauthenticated m) = m
sanitize_external_message (permission_denied m) = m
sanitize_external_message (policy_violation m) = m
sanitize_external_message (invalid_config m) = m
sanitize_external_message (unavailable m) = "service unavailable"
sanitize_external_message (resource_exhausted m) = "resource exhausted"

unfoldable pub grpc_status_code_for_discovery_error : DiscoveryError → String
grpc_status_code_for_discovery_error (unauthenticated m) = "UNAUTHENTICATED"
grpc_status_code_for_discovery_error (invalid_config m) = "FAILED_PRECONDITION"
grpc_status_code_for_discovery_error (invalid_argument m) = "INVALID_ARGUMENT"
grpc_status_code_for_discovery_error (not_found m) = "NOT_FOUND"
grpc_status_code_for_discovery_error (already_published m) = "ALREADY_EXISTS"
grpc_status_code_for_discovery_error (permission_denied m) = "PERMISSION_DENIED"
grpc_status_code_for_discovery_error (policy_violation m) = "PERMISSION_DENIED"
grpc_status_code_for_discovery_error (conflict m) = "ABORTED"
grpc_status_code_for_discovery_error (unavailable m) = "UNAVAILABLE"
grpc_status_code_for_discovery_error (resource_exhausted m) = "RESOURCE_EXHAUSTED"

unfoldable pub mapped_code : DiscoveryError → Code
mapped_code (unauthenticated m) = code_unauthenticated
mapped_code (invalid_config m) = failed_precondition
mapped_code (invalid_argument m) = code_invalid_argument
mapped_code (not_found m) = code_not_found
mapped_code (already_published m) = already_exists
mapped_code (permission_denied m) = code_permission_denied
mapped_code (policy_violation m) = code_permission_denied
mapped_code (conflict m) = aborted
mapped_code (unavailable m) = code_unavailable
mapped_code (resource_exhausted m) = code_resource_exhausted

module _ (parse_value : String → Option String) where
  abbrev pub insert_parsed : String → Option String → Status → Status
  insert_parsed key none s = s
  insert_parsed key (some value) s = record s { metadata = insert key value s.metadata }

  abbrev pub insert_nonempty : String → String → Status → Status
  insert_nonempty key text s = if text == "" then s else insert_parsed key (parse_value text) s

  unfoldable pub attach_correlation_metadata : Status → String → String → Status
  attach_correlation_metadata s request_id trace_id =
      insert_nonempty "x-request-id" request_id (insert_nonempty "x-trace-id" trace_id s)

  unfoldable pub map_discovery_error_to_rpc_status : DiscoveryError → String → String → Status
  map_discovery_error_to_rpc_status error request_id trace_id =
      attach_correlation_metadata
        (record {
          code = mapped_code error;
          message = sanitize_external_message error;
          metadata = [];
        })
        request_id trace_id

  unfoldable pub map_discovery_error_to_status : DiscoveryError → Status
  map_discovery_error_to_status error = map_discovery_error_to_rpc_status error "" ""
