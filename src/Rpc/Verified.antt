-- ===== src/Rpc/Verified.antt =====
-- crates/sdkwork-discovery-rpc/src/service_token.rs: what a verified token vouches for, and the
-- tokens that are parsed.
use sdkwork_discovery.Prelude.{
  ℕ, ◌-◌, ◌*◌, ◌≤◌, ◌<◌, ◌≡◌, ◌≢◌, refl, sym, ◌∙◌, String, Bool, true, false, not, Option, none,
  some, List, [], ◌∷◌, arith, eq_iff, ◌^◌,
}
use sdkwork_discovery.Prelude.Tests.{◌==◌, text_eq, leb, ltb}
use sdkwork_discovery.Prelude.Text.{
  str_append, is_blank, trim, lacks, split_on-lacks, split_on-append,
}
use sdkwork_discovery.Contract.Error.{
  DiscoveryResult, DiscoveryError, ensure, ◌>>◌, ok, bind-ok, then-ok, ensure-ok,
}
use sdkwork_discovery.Contract.Context.{
  CallerContext, new_caller, with_tenant_id, with_organization_id, with_registry_permission,
  with_config_permission,
}
use sdkwork_discovery.Rpc.Token.{
  ServiceTokenVerifierConfig, ParsedServiceToken, ServiceTokenClaims, Decoders, token_prefix,
  parse_parts, parse, validate_config, validate_header, verify_signature, decode_json_part,
  validate_claims, add_registry_permissions, add_config_permissions, parse_registry_permission,
  parse_config_permission, caller_from_claims, verify, if_some, lacks_text,
}

-- The text of a token.
abbrev pub print : String → String → String → String
print header claims signature = str_append token_prefix (
    str_append "."
      (str_append header (str_append "." (str_append claims (str_append "." signature)))))

prefix_lacks : lacks 46 token_prefix ≡ true
unfolding lacks
prefix_lacks = refl

-- A token that is printed from three parts that are not empty and have no dot in them is parsed
-- back into these parts, with the first two as the text that was signed.
pub parse-print :
    (header claims signature : String)
    → lacks 46 header ≡ true
    → lacks 46 claims ≡ true
    → lacks 46 signature ≡ true
    → header ≢ ""
    → claims ≢ ""
    → signature ≢ ""
    → parse (print header claims signature)
      ≡ ok (record {
        header = header;
        claims = claims;
        signature = signature;
        signing_input = str_append header (str_append "." claims);
      })
unfolding parse parse_parts
parse-print header claims signature h c s nh nc ns =
    rw
      (
        split_on-append token_prefix _ prefix_lacks,
        split_on-append header _ h,
        split_on-append claims _ c,
        split_on-lacks 46 signature s,
      )
      (ground (arith, eq_iff header "", eq_iff claims "", eq_iff signature ""))

-- The steps after the tenant is set leave it.
module _ (tenant : Option String) where
  with_organization_id-tenant :
      (o : Option String) (c : CallerContext)
      → c.tenant_id ≡ tenant
      → (if_some o with_organization_id c).tenant_id ≡ tenant
  unfolding with_organization_id
  with_organization_id-tenant none c h = h
  with_organization_id-tenant (some o) c h = ground (arith, h)

  add_registry_permissions-tenant :
      (vs : List String) (c caller : CallerContext)
      → c.tenant_id ≡ tenant
      → add_registry_permissions vs c ≡ ok caller
      → caller.tenant_id ≡ tenant
  unfolding add_registry_permissions with_registry_permission
  add_registry_permissions-tenant [] c caller h e = cc
  add_registry_permissions-tenant (v ∷ vs) c caller h e =
      let (p, parsed, rest) = bind-ok (parse_registry_permission v) _ caller e in
      add_registry_permissions-tenant vs (with_registry_permission c p) caller (ground (arith, h))
        rest

  add_config_permissions-tenant :
      (vs : List String) (c caller : CallerContext)
      → c.tenant_id ≡ tenant
      → add_config_permissions vs c ≡ ok caller
      → caller.tenant_id ≡ tenant
  unfolding add_config_permissions with_config_permission
  add_config_permissions-tenant [] c caller h e = cc
  add_config_permissions-tenant (v ∷ vs) c caller h e =
      let (p, parsed, rest) = bind-ok (parse_config_permission v) _ caller e in
      add_config_permissions-tenant vs (with_config_permission c p) caller (ground (arith, h)) rest

has_text :
    (o : Option String)
    → not (lacks_text o) ≡ true
    → (t : String) × (o ≡ some t) × (is_blank t ≡ false)
has_text none h = cc
has_text (some t) h = (t, refl, ground arith)

-- The caller of claims with a tenant is a caller of that tenant.
caller_from_claims-tenant :
    (claims : ServiceTokenClaims) (caller : CallerContext) (tenant : String)
    → claims.tenant_id ≡ some tenant
    → is_blank tenant ≡ false
    → caller_from_claims claims ≡ ok caller
    → caller.tenant_id ≡ some tenant
unfolding caller_from_claims with_tenant_id
caller_from_claims-tenant claims caller tenant has blank e =
    let (c, first, second) =
      bind-ok (add_registry_permissions claims.registry_permissions _) _ caller e in
    let base = new_caller (trim claims.subject_id) in
    let set : (if_some claims.tenant_id with_tenant_id base).tenant_id ≡ some tenant =
      rw has (ground (arith, blank)) in
    add_config_permissions-tenant (some tenant) claims.config_permissions c caller
      (add_registry_permissions-tenant (some tenant) claims.registry_permissions _ c
        (with_organization_id-tenant (some tenant) claims.organization_id _ set) first)
      second

ensured :
    (test : Bool) (e : DiscoveryError) (k : DiscoveryResult (Unit {0}))
    → (ensure test e >> k) ≡ ok tt
    → (test ≡ true) × (k ≡ ok tt)
ensured true e k h = (refl, h)
ensured false e k h = cc

module _ (d : Decoders) (config : ServiceTokenVerifierConfig) (now : ℕ) where
  -- What the checks of the claims establish.
  pub record IsVouched (claims : ServiceTokenClaims) (access_token : String) : Type 0 where
    pub issued : claims.issuer ≡ config.issuer
    pub tenant : (t : String) × (claims.tenant_id ≡ some t) × (is_blank t ≡ false)
    pub live : now < claims.exp_ms
    pub short : claims.exp_ms - claims.iat_ms ≤ config.max_token_ttl_seconds * 1000
    pub bound : claims.access_token_sha256 ≡ d.sha256_hash (trim access_token)

  validate_claims-IsVouched :
      (claims : ServiceTokenClaims) (access_token : String)
      → validate_claims d config now claims access_token ≡ ok tt
      → IsVouched claims access_token
  unfolding validate_claims
  validate_claims-IsVouched claims access_token h =
      let (issuer, h1) = ensured (claims.issuer == config.issuer) _ _ h in
      let (audience, h2) = ensured (claims.audience == config.audience) _ _ h1 in
      let (subject, h3) = ensured (not (is_blank claims.subject_id)) _ _ h2 in
      let (tenant, h4) = ensured (not (lacks_text claims.tenant_id)) _ _ h3 in
      let (live, h5) = ensured (ltb now claims.exp_ms) _ _ h4 in
      let (order, h6) = ensured (ltb claims.iat_ms claims.exp_ms) _ _ h5 in
      let (fits, h7) = ensured (ltb (config.max_token_ttl_seconds * 1000) (2 ^ 64)) _ _ h6 in
      let (short, bound) =
        ensured (leb (claims.exp_ms - claims.iat_ms) (config.max_token_ttl_seconds * 1000)) _ _
          h7 in
      record {
        issued = (eq_iff claims.issuer config.issuer).0 issuer;
        tenant = has_text claims.tenant_id tenant;
        live = ground (arith, live);
        short = ground (arith, short);
        bound =
            (eq_iff claims.access_token_sha256 (d.sha256_hash (trim access_token))).0
              (ensure-ok (claims.access_token_sha256 == d.sha256_hash (trim access_token)) _ bound);
      }

  -- Whenever a token is verified: it was parsed, its signature was accepted under the configured
  -- secret, and its claims were read from it; their issuer is the configured one, they have not
  -- expired, they live no longer than the configured maximum, and they are bound to the access
  -- token; and the caller that results is confined to the tenant of the claims, which is not blank.
  pub verify-IsVouched :
      (service_token access_token : String) (caller : CallerContext)
      → verify d config now service_token access_token ≡ ok caller
      → (token : ParsedServiceToken) × (claims : ServiceTokenClaims) × (parse service_token
          ≡ ok token)
        × (verify_signature d config token ≡ ok tt)
        × (decode_json_part d config "service token claims" d.json_claims token.claims ≡ ok claims)
        × IsVouched claims access_token
        × (caller.tenant_id ≡ claims.tenant_id)
  unfolding verify
  verify-IsVouched service_token access_token caller h =
      let (configured, h1) = then-ok (validate_config config) _ caller h in
      let (token, parsed, h2) = bind-ok (parse service_token) _ caller h1 in
      let (signed, h3) = then-ok (verify_signature d config token) _ caller h2 in
      let (header, header_read, h4) =
        bind-ok (decode_json_part d config "service token header" d.json_header token.header) _
          caller h3 in
      let (claims, claims_read, h5) =
        bind-ok (decode_json_part d config "service token claims" d.json_claims token.claims) _
          caller h4 in
      let (header_fits, h6) = then-ok (validate_header header) _ caller h5 in
      let (claims_fit, h7) =
        then-ok (validate_claims d config now claims access_token) _ caller h6 in
      let vouched = validate_claims-IsVouched claims access_token claims_fit in
      let (t, has, blank) = vouched.tenant in
      (
        token,
        claims,
        parsed,
        signed,
        claims_read,
        vouched,
        caller_from_claims-tenant claims caller t has blank h7 ∙ sym has,
      )
