-- ===== src/Rpc/Token.antt =====
-- crates/sdkwork-discovery-rpc/src/service_token.rs: the verification of service tokens. The
-- decoders, the hash and the signature check are those of other packages; the clock is an argument.
use sdkwork_discovery.Prelude.{
  ℕ, ◌-◌, ◌*◌, ◌^◌, String, Bool, not, ◌||◌, Option, none, some, List, [], ◌∷◌, true,
}
use sdkwork_discovery.Prelude.Lists.{length}
use sdkwork_discovery.Prelude.Tests.{◌==◌, leb, ltb, nat_beq, if◌then◌else◌, text_eq}
use sdkwork_discovery.Prelude.Text.{str_append, is_blank, trim, split_on}
use sdkwork_discovery.Contract.Error.{
  DiscoveryResult, ok, err, ◌>>=◌, ◌>>◌, ensure, ok_or, unauthenticated, invalid_config,
}
use sdkwork_discovery.Contract.Context.{
  CallerContext, RegistryPermission, ConfigPermission, new_caller, with_tenant_id,
  with_organization_id, with_registry_permission, with_config_permission,
}

abbrev pub token_prefix : String
token_prefix = "sdkwork-discovery-v1"

pub record ServiceTokenVerifierConfig : Type 0 where
  pub hmac_secret : List ℕ
  pub issuer : String
  pub audience : String
  pub max_token_ttl_seconds : ℕ

pub record ParsedServiceToken : Type 0 where
  pub header : String
  pub claims : String
  pub signature : String
  pub signing_input : String

pub record ServiceTokenHeader : Type 0 where
  pub alg : String
  pub typ : String

pub record ServiceTokenClaims : Type 0 where
  pub issuer : String
  pub audience : String
  pub subject_id : String
  pub tenant_id : Option String
  pub organization_id : Option String
  pub iat_ms : ℕ
  pub exp_ms : ℕ
  pub access_token_sha256 : String
  pub registry_permissions : List String
  pub config_permissions : List String

-- What other packages give.
pub record Decoders : Type 0 where
  pub base64url_decode : String → Option (List ℕ)
  pub verify_hmac : String → List ℕ → List ℕ → Bool
  pub sha256_hash : String → String
  pub json_header : List ℕ → Option ServiceTokenHeader
  pub json_claims : List ℕ → Option ServiceTokenClaims

abbrev not_a_token : String
not_a_token = "authorization bearer token is not an SDKWork Discovery service-token"

-- The four parts of a token, separated by dots.
unfoldable pub parse_parts : List String → DiscoveryResult ParsedServiceToken
parse_parts (prefix ∷ header ∷ claims ∷ signature ∷ []) = do
  ensure (prefix == token_prefix) (unauthenticated not_a_token)
  ensure (not (header == "" || claims == "" || signature == ""))
      (unauthenticated "service-token must include header, claims, and signature")
  ok (record {
    header = header;
    claims = claims;
    signature = signature;
    signing_input = str_append header (str_append "." claims);
  })
parse_parts [] = err (unauthenticated not_a_token)
parse_parts (a ∷ []) = err (unauthenticated not_a_token)
parse_parts (a ∷ b ∷ []) = err (unauthenticated not_a_token)
parse_parts (a ∷ b ∷ c ∷ []) = err (unauthenticated not_a_token)
parse_parts (a ∷ b ∷ c ∷ d ∷ e ∷ rest) = err (unauthenticated not_a_token)

unfoldable pub parse : String → DiscoveryResult ParsedServiceToken
parse token = parse_parts (split_on 46 token)

unfoldable pub validate_config : ServiceTokenVerifierConfig → DiscoveryResult (Unit {0})
validate_config config = do
  ensure (leb 32 (length config.hmac_secret))
      (invalid_config "service-token HMAC secret must contain at least 32 bytes")
  ensure (not (is_blank config.issuer)) (invalid_config "service-token issuer must not be empty")
  ensure (not (is_blank config.audience))
      (invalid_config "service-token audience must not be empty")
  ensure (not (nat_beq config.max_token_ttl_seconds 0))
      (invalid_config "service-token max ttl must be greater than zero")

unfoldable pub validate_header : ServiceTokenHeader → DiscoveryResult (Unit {0})
validate_header h = do
  ensure (h.alg == "HS256") (unauthenticated "service-token algorithm is not supported")
  ensure (h.typ == "sdkwork.discovery.service-token.v1")
      (unauthenticated "service-token type is not supported")

-- `map(str::trim).unwrap_or_default().is_empty()`
abbrev pub lacks_text : Option String → Bool
lacks_text none = true
lacks_text (some t) = is_blank t

module _ (d : Decoders) (config : ServiceTokenVerifierConfig) where
  unfoldable pub verify_signature : ParsedServiceToken → DiscoveryResult (Unit {0})
  verify_signature token = do
    signature ←
        ok_or (d.base64url_decode token.signature)
          (unauthenticated "service-token signature is not base64url")
    ensure (d.verify_hmac token.signing_input config.hmac_secret signature)
        (unauthenticated "service-token signature is invalid")

  unfoldable pub decode_json_part :
      {T : Type 0} → String → (List ℕ → Option T) → String → DiscoveryResult T
  decode_json_part label from_json value = do
    bytes ←
        ok_or (d.base64url_decode value) (unauthenticated (str_append label " is not base64url"))
    ok_or (from_json bytes) (unauthenticated (str_append label " is not valid JSON"))

  -- `claims.expires_at_ms() - claims.issued_at_ms()` is taken after the test that it is positive.
  unfoldable pub validate_claims : ℕ → ServiceTokenClaims → String → DiscoveryResult (Unit {0})
  validate_claims now claims access_token = do
    ensure (claims.issuer == config.issuer) (unauthenticated "service-token issuer is invalid")
    ensure (claims.audience == config.audience)
        (unauthenticated "service-token audience is invalid")
    ensure (not (is_blank claims.subject_id))
        (unauthenticated "service-token subject must not be empty")
    ensure (not (lacks_text claims.tenant_id))
        (unauthenticated "service-token must carry a tenant_id claim")
    ensure (ltb now claims.exp_ms) (unauthenticated "service-token is expired")
    ensure (ltb claims.iat_ms claims.exp_ms)
        (unauthenticated "service-token expiry must be after issue time")
    ensure (ltb (config.max_token_ttl_seconds * 1000) (2 ^ 64))
        (invalid_config "service-token max ttl overflows milliseconds")
    ensure (leb (claims.exp_ms - claims.iat_ms) (config.max_token_ttl_seconds * 1000))
        (unauthenticated "service-token ttl exceeds configured maximum")
    ensure (claims.access_token_sha256 == d.sha256_hash (trim access_token))
        (unauthenticated "access-token is not bound to service-token")

unfoldable pub parse_registry_permission : String → DiscoveryResult RegistryPermission
parse_registry_permission value =
    if value == "read"
    then ok RegistryPermission.read
    else if value == "write"
    then ok RegistryPermission.write
    else if value == "admin"
    then ok RegistryPermission.admin
    else err
        (unauthenticated (str_append "service-token contains unknown registry permission " value))

unfoldable pub parse_config_permission : String → DiscoveryResult ConfigPermission
parse_config_permission value =
    if value == "read"
    then ok ConfigPermission.read
    else if value == "write"
    then ok ConfigPermission.write
    else if value == "publish"
    then ok ConfigPermission.publish
    else if value == "rollback"
    then ok ConfigPermission.rollback
    else if value == "admin"
    then ok ConfigPermission.admin
    else err
        (unauthenticated (str_append "service-token contains unknown config permission " value))

abbrev pub if_some :
    Option String → (CallerContext → String → CallerContext) → CallerContext → CallerContext
if_some none f caller = caller
if_some (some t) f caller = f caller t

unfoldable pub add_registry_permissions :
    List String → CallerContext → DiscoveryResult CallerContext
add_registry_permissions [] caller = ok caller
add_registry_permissions (v ∷ vs) caller = parse_registry_permission v >>= λ p.
    add_registry_permissions vs (with_registry_permission caller p)

unfoldable pub add_config_permissions : List String → CallerContext → DiscoveryResult CallerContext
add_config_permissions [] caller = ok caller
add_config_permissions (v ∷ vs) caller =
    parse_config_permission v >>= λ p. add_config_permissions vs (with_config_permission caller p)

unfoldable pub caller_from_claims : ServiceTokenClaims → DiscoveryResult CallerContext
caller_from_claims claims =
    add_registry_permissions claims.registry_permissions (
      if_some claims.organization_id with_organization_id
        (if_some claims.tenant_id with_tenant_id (new_caller (trim claims.subject_id))))
    >>= λ caller. add_config_permissions claims.config_permissions caller

unfoldable pub verify :
    Decoders → ServiceTokenVerifierConfig → ℕ → String → String → DiscoveryResult CallerContext
verify d config now service_token access_token = do
  validate_config config
  token ← parse service_token
  verify_signature d config token
  header ← decode_json_part d config "service token header" d.json_header token.header
  claims ← decode_json_part d config "service token claims" d.json_claims token.claims
  validate_header header
  validate_claims d config now claims access_token
  caller_from_claims claims
