-- ===== src/Rpc/Context.antt =====
-- crates/sdkwork-discovery-rpc/src/context.rs: the caller of a request, from its metadata. The
-- metadata map is another package's: it is the look-up of a key, whose value is text, or bytes that
-- are not visible ASCII. Correlation has the identifiers of requests and traces.
use sdkwork_discovery.Prelude.{
  ℕ, String, Bool, true, false, not, ◌&&◌, ◌||◌, Option, none, some, List, [], ◌∷◌,
}
use Prim.Native.Char.{code}
use sdkwork_discovery.Prelude.Tests.{◌==◌, nat_beq, if◌then◌else◌, text_eq}
use sdkwork_discovery.Prelude.Text.{str_append, is_blank, trim, split_on}
use sdkwork_discovery.Contract.Error.{
  DiscoveryResult, ok, err, ◌>>=◌, ◌>>◌, ensure, unauthenticated, invalid_argument,
  permission_denied,
}
use sdkwork_discovery.Contract.Config.{IdempotencyContext}
use sdkwork_discovery.Contract.Context.{
  CallerContext, RegistryPermission, ConfigPermission, new_caller, with_tenant_id,
  with_organization_id, with_registry_permission, with_config_permission, has_registry_permission,
  has_config_permission,
}
use sdkwork_discovery.Rpc.Token.{ServiceTokenVerifierConfig, Decoders, verify, if_some, lacks_text}

pub data MetadataValue : Type 0 where
  visible : String → MetadataValue
  not_ascii : MetadataValue

abbrev pub MetadataMap : Type 0
MetadataMap = String → Option MetadataValue

pub record RpcContextPolicy : Type 0 where
  pub allow_unsigned_local_context : Bool
  pub service_token_verifier : Option ServiceTokenVerifierConfig

pub record AuthenticatedMetadata : Type 0 where
  pub bearer_token : String
  pub access_token : String

abbrev value_text : String → Option MetadataValue → DiscoveryResult (Option String)
value_text key none = ok none
value_text key (some (visible text)) = ok (some text)
value_text key (some not_ascii) =
    err (invalid_argument (str_append "metadata " (str_append key " must be visible ASCII")))

unfoldable pub optional_metadata_value : MetadataMap → String → DiscoveryResult (Option String)
optional_metadata_value metadata key = value_text key (metadata key)

abbrev is_present : Option MetadataValue → Bool
is_present none = false
is_present (some v) = true

unfoldable pub has_unsigned_context_metadata : MetadataMap → Bool
has_unsigned_context_metadata metadata =
    is_present (metadata "x-sdkwork-subject-id")
    || is_present (metadata "x-sdkwork-registry-permissions")
    || is_present (metadata "x-sdkwork-config-permissions")

-- `str::strip_prefix`
unfoldable pub strip_prefix : String → String → Option String
strip_prefix String.[] s = some s
strip_prefix (String.◌∷◌ c p) String.[] = none
strip_prefix (String.◌∷◌ c p) (String.◌∷◌ d s) =
    let rest = strip_prefix p s in if nat_beq (code c) (code d) then rest else none

abbrev nonempty : Option String → Option String
nonempty none = none
nonempty (some t) = if is_blank t then none else some (trim t)

unfoldable pub bearer_token : String → Option String
bearer_token value = nonempty (strip_prefix "Bearer " value)

abbrev missing_metadata : String → String
missing_metadata names = str_append "missing required RPC metadata: " names

-- The tokens, by the authorization metadata and the access token that is not blank.
unfoldable pub authenticated_tokens :
    Option String → Option String → DiscoveryResult AuthenticatedMetadata
authenticated_tokens none none =
    err (unauthenticated (missing_metadata "authorization, access-token"))
authenticated_tokens none (some access) = err (unauthenticated (missing_metadata "authorization"))
authenticated_tokens (some value) access = elim (bearer_token (trim value)) [
  | none ↦ err (unauthenticated "authorization metadata must use Bearer token format")
  | some bearer ↦ elim access [
    | none ↦ err (unauthenticated (missing_metadata "access-token"))
    | some token ↦ ok (record { bearer_token = bearer; access_token = token })
  ]
]

unfoldable pub authenticated_metadata : MetadataMap → DiscoveryResult AuthenticatedMetadata
authenticated_metadata metadata = do
  authorization ← optional_metadata_value metadata "authorization"
  access_token ← optional_metadata_value metadata "access-token"
  authenticated_tokens authorization (nonempty access_token)

abbrev missing_idempotency : Bool → Bool → String
missing_idempotency true true = "idempotency-key, x-request-hash"
missing_idempotency true false = "idempotency-key"
missing_idempotency false h = "x-request-hash"

unfoldable pub validate_required_idempotency_metadata : MetadataMap → DiscoveryResult (Unit {0})
validate_required_idempotency_metadata metadata = do
  key ← optional_metadata_value metadata "idempotency-key"
  request_hash ← optional_metadata_value metadata "x-request-hash"
  ensure (not (lacks_text key || lacks_text request_hash)) (
      invalid_argument (
        str_append "missing required RPC idempotency metadata: "
          (missing_idempotency (lacks_text key) (lacks_text request_hash))))

-- The trimmed parts between commas that are not empty.
unfoldable pub nonempty_parts : List String → List String
nonempty_parts [] = []
nonempty_parts (p ∷ ps) = let rest = nonempty_parts ps in if is_blank p then rest else trim p ∷ rest

abbrev or_empty : Option String → String
or_empty none = ""
or_empty (some t) = t

unfoldable pub split_permissions : Option String → List String
split_permissions value = nonempty_parts (split_on 44 (or_empty value))

unfoldable pub parse_registry_permission : String → DiscoveryResult RegistryPermission
parse_registry_permission value =
    if value == "read"
    then ok RegistryPermission.read
    else if value == "write"
    then ok RegistryPermission.write
    else if value == "admin"
    then ok RegistryPermission.admin
    else err (invalid_argument (str_append "unknown registry permission " value))

unfoldable pub parse_config_permission : String → DiscoveryResult ConfigPermission
parse_config_permission value =
    if value == "read"
    then ok ConfigPermission.read
    else if value == "write"
    then ok ConfigPermission.write
    else if value == "publish"
    then ok ConfigPermission.publish
    else if value == "rollback"
    then ok ConfigPermission.rollback
    else if value == "admin"
    then ok ConfigPermission.admin
    else err (invalid_argument (str_append "unknown config permission " value))

unfoldable pub grant_registry : List String → CallerContext → DiscoveryResult CallerContext
grant_registry [] caller = ok caller
grant_registry (v ∷ vs) caller =
    parse_registry_permission v >>= λ p. grant_registry vs (with_registry_permission caller p)

unfoldable pub grant_config : List String → CallerContext → DiscoveryResult CallerContext
grant_config [] caller = ok caller
grant_config (v ∷ vs) caller =
    parse_config_permission v >>= λ p. grant_config vs (with_config_permission caller p)

unfoldable pub caller_from_validated_metadata : MetadataMap → DiscoveryResult CallerContext
caller_from_validated_metadata metadata = do
  subject ← optional_metadata_value metadata "x-sdkwork-subject-id"
  ensure (not (lacks_text subject))
      (unauthenticated "missing required RPC metadata: x-sdkwork-subject-id")
  tenant ← optional_metadata_value metadata "x-sdkwork-tenant-id"
  organization ← optional_metadata_value metadata "x-sdkwork-organization-id"
  registry ← optional_metadata_value metadata "x-sdkwork-registry-permissions"
  granted ← grant_registry (split_permissions registry) (
      if_some organization with_organization_id
        (if_some tenant with_tenant_id (new_caller (trim (or_empty subject)))))
  config ← optional_metadata_value metadata "x-sdkwork-config-permissions"
  grant_config (split_permissions config) granted

abbrev unsigned_refused : String
unsigned_refused =
    "unsigned context metadata is not accepted with verified service-token authentication"

abbrev is_configured : Option ServiceTokenVerifierConfig → Bool
is_configured none = false
is_configured (some c) = true

module _ (d : Decoders) (now : ℕ) (metadata : MetadataMap) where
  abbrev pub by_verifier :
      Bool
      → AuthenticatedMetadata
      → Option ServiceTokenVerifierConfig
      → DiscoveryResult CallerContext
  by_verifier allowed a (some config) =
      ensure (not (has_unsigned_context_metadata metadata)) (unauthenticated unsigned_refused)
      >> verify d config now a.bearer_token a.access_token
  by_verifier allowed a none =
      ensure allowed (
        unauthenticated
          "unsigned local context is disabled; a verified service-token context resolver is required")
      >> caller_from_validated_metadata metadata

  unfoldable pub caller_from_authenticated_metadata :
      RpcContextPolicy → AuthenticatedMetadata → DiscoveryResult CallerContext
  caller_from_authenticated_metadata policy a =
      by_verifier policy.allow_unsigned_local_context a policy.service_token_verifier

  -- `checked` is the further check of the metadata, on both ways to a caller.
  abbrev pub caller_after :
      DiscoveryResult (Unit {0}) → RpcContextPolicy → DiscoveryResult CallerContext
  caller_after checked policy =
      if policy.allow_unsigned_local_context && has_unsigned_context_metadata metadata
      then (ensure (not (is_configured policy.service_token_verifier))
            (unauthenticated unsigned_refused)
          >> (checked >> caller_from_validated_metadata metadata))
      else (authenticated_metadata metadata >>= λ a.
          checked >> caller_from_authenticated_metadata policy a)

  unfoldable pub caller_from_metadata : RpcContextPolicy → DiscoveryResult CallerContext
  caller_from_metadata policy = caller_after (ok tt) policy

  unfoldable pub caller_from_metadata_with_required_idempotency :
      RpcContextPolicy → DiscoveryResult CallerContext
  caller_from_metadata_with_required_idempotency policy =
      caller_after (validate_required_idempotency_metadata metadata) policy

  abbrev lacks_permission : CallerContext → String → String
  lacks_permission caller what = str_append "subject " (str_append caller.subject_id what)

  unfoldable pub registry_reader_from_metadata : RpcContextPolicy → DiscoveryResult CallerContext
  registry_reader_from_metadata policy = do
    caller ← caller_from_metadata policy
    ensure (has_registry_permission caller RegistryPermission.read)
        (permission_denied (lacks_permission caller " lacks registry permission"))
    ok caller

  unfoldable pub config_reader_from_metadata : RpcContextPolicy → DiscoveryResult CallerContext
  config_reader_from_metadata policy = do
    caller ← caller_from_metadata policy
    ensure (has_config_permission caller ConfigPermission.read)
        (permission_denied (lacks_permission caller " lacks config permission"))
    ok caller

unfoldable pub idempotency_from_metadata : MetadataMap → String → DiscoveryResult IdempotencyContext
idempotency_from_metadata metadata operation_id = do
  key ← optional_metadata_value metadata "idempotency-key"
  request_hash ← optional_metadata_value metadata "x-request-hash"
  ok (record {
    operation_id = operation_id;
    key = trim (or_empty key);
    request_hash = trim (or_empty request_hash);
  })
