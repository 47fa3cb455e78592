-- ===== src/Tests/Token.antt =====
-- Concrete inputs for the theorems on the service tokens and the status codes.
use sdkwork_discovery.Prelude.{
  ℕ, ◌≡◌, ◌≢◌, refl, String, Bool, true, false, none, some, Option, List, [], ◌∷◌, arith,
}
use sdkwork_discovery.Prelude.Tests.{◌==◌, text_eq, if◌then◌else◌}
use sdkwork_discovery.Prelude.Text.{lacks, str_append}
use sdkwork_discovery.Contract.Error.{ok}
use sdkwork_discovery.Contract.Context.{CallerContext, RegistryPermission}
use sdkwork_discovery.Rpc.Token.{
  ServiceTokenVerifierConfig, ParsedServiceToken, ServiceTokenHeader, ServiceTokenClaims, Decoders,
  parse, verify, verify_signature, decode_json_part,
}
use sdkwork_discovery.Rpc.Verified.{print, parse-print, IsVouched, verify-IsVouched}
use sdkwork_discovery.Prelude.Text.{is_blank}
use sdkwork_discovery.Rpc.Context.{
  MetadataMap, visible, RpcContextPolicy, validate_required_idempotency_metadata,
}
use sdkwork_discovery.Rpc.Callers.{SpeaksFor, caller-SpeaksFor}
use sdkwork_discovery.Tests.Data.{texts_differ}

abbrev token : String
token = print "head" "claims" "sig"

parse-print_example :
    parse token
    ≡ ok (record {
      header = "head";
      claims = "claims";
      signature = "sig";
      signing_input = "head.claims";
    })
unfolding lacks
parse-print_example =
    parse-print "head" "claims" "sig" refl refl refl (texts_differ "head" "" refl)
      (texts_differ "claims" "" refl) (texts_differ "sig" "" refl)

abbrev bytes_32 : List ℕ
bytes_32 =
    1 ∷ 2 ∷ 3 ∷ 4 ∷ 5 ∷ 6 ∷ 7 ∷ 8 ∷ 1 ∷ 2 ∷ 3 ∷ 4 ∷ 5 ∷ 6 ∷ 7 ∷ 8 ∷ 1 ∷ 2 ∷ 3 ∷ 4 ∷ 5 ∷ 6 ∷ 7 ∷ 8
    ∷ 1 ∷ 2 ∷ 3 ∷ 4 ∷ 5 ∷ 6 ∷ 7 ∷ 8 ∷ []

abbrev pub config : ServiceTokenVerifierConfig
config = record {
  hmac_secret = bytes_32;
  issuer = "iam";
  audience = "discovery";
  max_token_ttl_seconds = 60;
}

abbrev claims : ServiceTokenClaims
claims = record {
  issuer = "iam";
  audience = "discovery";
  subject_id = "orders";
  tenant_id = some "acme";
  organization_id = none;
  iat_ms = 1000;
  exp_ms = 31000;
  access_token_sha256 = "access";
  registry_permissions = "write" ∷ [];
  config_permissions = [];
}

abbrev pub decoders : Decoders
decoders = record {
  base64url_decode = λ s. some [];
  verify_hmac = λ input secret signature. input == "head.claims";
  sha256_hash = λ s. s;
  json_header = λ b. some (record { alg = "HS256"; typ = "sdkwork.discovery.service-token.v1" });
  json_claims = λ b. some claims;
}

abbrev pub caller : CallerContext
caller = record {
  subject_id = "orders";
  tenant_id = some "acme";
  organization_id = none;
  registry_permissions = RegistryPermission.write ∷ [];
  config_permissions = [];
}

verify-IsVouched_example :
    (token : ParsedServiceToken) × (found : ServiceTokenClaims) × (parse
        "sdkwork-discovery-v1.head.claims.sig"
      ≡ ok token)
    × (verify_signature decoders config token ≡ ok tt)
    × (decode_json_part decoders config "service token claims" decoders.json_claims token.claims
        ≡ ok found)
    × IsVouched decoders config 5000 found " access "
    × (some "acme" ≡ found.tenant_id)
unfolding verify sdkwork_discovery.Rpc.Token.parse sdkwork_discovery.Rpc.Token.parse_parts
    sdkwork_discovery.Prelude.Text.split_on sdkwork_discovery.Prelude.Text.trim
    sdkwork_discovery.Prelude.Text.trim_start sdkwork_discovery.Prelude.Text.trim_end
    sdkwork_discovery.Prelude.Text.is_blank sdkwork_discovery.Prelude.Text.is_whitespace
    sdkwork_discovery.Rpc.Token.validate_config sdkwork_discovery.Rpc.Token.validate_header
    sdkwork_discovery.Rpc.Token.verify_signature sdkwork_discovery.Rpc.Token.decode_json_part
    sdkwork_discovery.Rpc.Token.validate_claims sdkwork_discovery.Rpc.Token.caller_from_claims
    sdkwork_discovery.Rpc.Token.add_registry_permissions
    sdkwork_discovery.Rpc.Token.add_config_permissions
    sdkwork_discovery.Rpc.Token.parse_registry_permission
    sdkwork_discovery.Contract.Context.new_caller sdkwork_discovery.Contract.Context.with_tenant_id
    sdkwork_discovery.Contract.Context.with_registry_permission
verify-IsVouched_example =
    verify-IsVouched decoders config 5000 "sdkwork-discovery-v1.head.claims.sig" " access " caller
      refl

abbrev pub metadata : MetadataMap
metadata key =
    if key == "authorization"
    then some (visible "Bearer sdkwork-discovery-v1.head.claims.sig")
    else if key == "access-token"
    then some (visible " access ")
    else if key == "idempotency-key"
    then some (visible "k1")
    else if key == "x-request-hash"
    then some (visible "h1")
    else none

abbrev pub policy : RpcContextPolicy
policy = record { allow_unsigned_local_context = true; service_token_verifier = some config }

caller-SpeaksFor_example :
    SpeaksFor decoders 5000 metadata config caller
    × ((t : String) × (some "acme" ≡ some t) × (is_blank t ≡ false))
unfolding sdkwork_discovery.Rpc.Context.caller_from_metadata
    sdkwork_discovery.Rpc.Context.authenticated_metadata
    sdkwork_discovery.Rpc.Context.authenticated_tokens
    sdkwork_discovery.Rpc.Context.optional_metadata_value sdkwork_discovery.Rpc.Context.bearer_token
    sdkwork_discovery.Rpc.Context.strip_prefix
    sdkwork_discovery.Rpc.Context.has_unsigned_context_metadata
    sdkwork_discovery.Rpc.Context.caller_from_authenticated_metadata verify
    sdkwork_discovery.Rpc.Token.parse sdkwork_discovery.Rpc.Token.parse_parts
    sdkwork_discovery.Prelude.Text.split_on sdkwork_discovery.Prelude.Text.trim
    sdkwork_discovery.Prelude.Text.trim_start sdkwork_discovery.Prelude.Text.trim_end
    sdkwork_discovery.Prelude.Text.is_blank sdkwork_discovery.Prelude.Text.is_whitespace
    sdkwork_discovery.Rpc.Token.validate_config sdkwork_discovery.Rpc.Token.validate_header
    sdkwork_discovery.Rpc.Token.verify_signature sdkwork_discovery.Rpc.Token.decode_json_part
    sdkwork_discovery.Rpc.Token.validate_claims sdkwork_discovery.Rpc.Token.caller_from_claims
    sdkwork_discovery.Rpc.Token.add_registry_permissions
    sdkwork_discovery.Rpc.Token.add_config_permissions
    sdkwork_discovery.Rpc.Token.parse_registry_permission
    sdkwork_discovery.Contract.Context.new_caller sdkwork_discovery.Contract.Context.with_tenant_id
    sdkwork_discovery.Contract.Context.with_registry_permission
caller-SpeaksFor_example = caller-SpeaksFor decoders 5000 metadata config policy caller refl refl
