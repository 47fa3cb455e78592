-- ===== src/Rpc/Codes.antt =====
-- crates/sdkwork-discovery-rpc/src/error.rs: the two tables of status codes, and what a client sees.
use sdkwork_discovery.Prelude.{String, ◌≡◌, refl, ap, ◌∙◌, [], Option, inl, inr}
use sdkwork_discovery.Prelude.Tests.{Bool-cases, Option-cases, ◌==◌, text_eq}
use sdkwork_discovery.Contract.Error.{
  DiscoveryError, unauthenticated, invalid_config, invalid_argument, not_found, already_published,
  permission_denied, policy_violation, conflict, unavailable, resource_exhausted,
}
use sdkwork_discovery.Rpc.Status.{
  Code, Status, code_unauthenticated, failed_precondition, code_invalid_argument, code_not_found,
  already_exists, code_permission_denied, aborted, code_unavailable, code_resource_exhausted,
  unimplemented, mapped_code, sanitize_external_message, grpc_status_code_for_discovery_error,
  insert_nonempty, attach_correlation_metadata, map_discovery_error_to_rpc_status,
}

-- The names that gRPC gives the codes.
unfoldable pub code_name : Code → String
code_name code_unauthenticated = "UNAUTHENTICATED"
code_name failed_precondition = "FAILED_PRECONDITION"
code_name code_invalid_argument = "INVALID_ARGUMENT"
code_name code_not_found = "NOT_FOUND"
code_name already_exists = "ALREADY_EXISTS"
code_name code_permission_denied = "PERMISSION_DENIED"
code_name aborted = "ABORTED"
code_name code_unavailable = "UNAVAILABLE"
code_name code_resource_exhausted = "RESOURCE_EXHAUSTED"
code_name unimplemented = "UNIMPLEMENTED"

tables_agree :
    (e : DiscoveryError) → code_name (mapped_code e) ≡ grpc_status_code_for_discovery_error e
unfolding code_name mapped_code grpc_status_code_for_discovery_error
tables_agree (unauthenticated m) = refl
tables_agree (invalid_config m) = refl
tables_agree (invalid_argument m) = refl
tables_agree (not_found m) = refl
tables_agree (already_published m) = refl
tables_agree (permission_denied m) = refl
tables_agree (policy_violation m) = refl
tables_agree (conflict m) = refl
tables_agree (unavailable m) = refl
tables_agree (resource_exhausted m) = refl

module _ (parse_value : String → Option String) where
  insert_nonempty-keeps :
      (key text : String) (s : Status)
      → ((insert_nonempty parse_value key text s).code ≡ s.code)
        × ((insert_nonempty parse_value key text s).message ≡ s.message)
  insert_nonempty-keeps key text s = elim (Bool-cases (text == "")) [
    | inl e ↦ rw e (refl, refl)
    | inr e ↦ elim (Option-cases (parse_value text)) [
      | inl p ↦ rw (e, p) (refl, refl)
      | inr (v, p) ↦ rw (e, p) (refl, refl)
    ]
  ]

  -- For every error and whatever the two identifiers are: the status that a client gets has the
  -- code that the table of code names gives the error, and the sanitised message; and a failure of
  -- the storage or a lack of resources gives the same status whatever the inner message was.
  pub status-agrees :
      (e : DiscoveryError) (request_id trace_id m n : String)
      → (code_name (map_discovery_error_to_rpc_status parse_value e request_id trace_id).code
          ≡ grpc_status_code_for_discovery_error e)
        × ((map_discovery_error_to_rpc_status parse_value e request_id trace_id).message
            ≡ sanitize_external_message e)
        × (map_discovery_error_to_rpc_status parse_value (unavailable m) request_id trace_id
            ≡ map_discovery_error_to_rpc_status parse_value (unavailable n) request_id trace_id)
        × (map_discovery_error_to_rpc_status parse_value (resource_exhausted m) request_id trace_id
            ≡ map_discovery_error_to_rpc_status parse_value
                (resource_exhausted n)
                request_id
                trace_id)
  unfolding map_discovery_error_to_rpc_status attach_correlation_metadata sanitize_external_message
      mapped_code
  status-agrees e request_id trace_id m n =
      let start : Status = record {
        code = mapped_code e;
        message = sanitize_external_message e;
        metadata = [];
      } in
      let (c1, m1) = insert_nonempty-keeps "x-trace-id" trace_id start in
      let (c2, m2) =
        insert_nonempty-keeps "x-request-id" request_id
          (insert_nonempty parse_value "x-trace-id" trace_id start) in
      (ap code_name (c2 ∙ c1) ∙ tables_agree e, m2 ∙ m1, refl, refl)
