-- ===== src/Rpc/Callers.antt =====
-- crates/sdkwork-discovery-rpc/src/context.rs: whom a request with metadata may speak for.
use sdkwork_discovery.Prelude.{
  ℕ, ◌≡◌, refl, ◌∙◌, String, Bool, true, false, not, ◌&&◌, Option, some, arith, inl, inr,
}
use sdkwork_discovery.Prelude.Tests.{Bool-cases}
use sdkwork_discovery.Prelude.Text.{is_blank}
use sdkwork_discovery.Contract.Error.{
  DiscoveryError, DiscoveryResult, ok, ensure, ◌>>◌, bind-ok, then-ok,
}
use sdkwork_discovery.Contract.Context.{CallerContext}
use sdkwork_discovery.Rpc.Token.{ServiceTokenVerifierConfig, Decoders, verify}
use sdkwork_discovery.Rpc.Verified.{verify-IsVouched}
use sdkwork_discovery.Rpc.Context.{
  MetadataMap, RpcContextPolicy, AuthenticatedMetadata, has_unsigned_context_metadata,
  authenticated_metadata, by_verifier, caller_after, caller_from_metadata,
  caller_from_authenticated_metadata, caller_from_metadata_with_required_idempotency,
  validate_required_idempotency_metadata,
}

ensured_then :
    {B : Type 0} (test : Bool) (e : DiscoveryError) (k : DiscoveryResult B) (b : B)
    → (ensure test e >> k) ≡ ok b
    → (test ≡ true) × (k ≡ ok b)
ensured_then true e k b h = (refl, h)
ensured_then false e k b h = cc

module _ (d : Decoders) (now : ℕ) (metadata : MetadataMap)
    (config : ServiceTokenVerifierConfig) where
  -- The metadata has both tokens and none of the unsigned keys, and the verification of the tokens
  -- gives the caller.
  abbrev pub SpeaksFor : CallerContext → Type 0
  SpeaksFor caller =
      (a : AuthenticatedMetadata) × (authenticated_metadata metadata ≡ ok a)
      × (has_unsigned_context_metadata metadata ≡ false)
      × (verify d config now a.bearer_token a.access_token ≡ ok caller)

  by_verifier-SpeaksFor :
      (allowed : Bool) (a : AuthenticatedMetadata) (o : Option ServiceTokenVerifierConfig)
      (caller : CallerContext)
      → o ≡ some config
      → authenticated_metadata metadata ≡ ok a
      → by_verifier d now metadata allowed a o ≡ ok caller
      → SpeaksFor caller
  by_verifier-SpeaksFor allowed a o caller has read h =
      let (signed, verified) =
        ensured_then (not (has_unsigned_context_metadata metadata)) _ _ caller (rw has at h) in
      (a, read, ground (arith, signed), verified)

  caller_after-SpeaksFor :
      (checked : DiscoveryResult (Unit {0})) (policy : RpcContextPolicy) (caller : CallerContext)
      → policy.service_token_verifier ≡ some config
      → caller_after d now metadata checked policy ≡ ok caller
      → (checked ≡ ok tt) × SpeaksFor caller
  unfolding caller_from_authenticated_metadata
  caller_after-SpeaksFor checked policy caller has h =
      elim (Bool-cases
        (policy.allow_unsigned_local_context && has_unsigned_context_metadata metadata)) [
          | inl t ↦ cc (rw (t, has) at h)
          | inr f ↦
              let (a, read, rest) =
                bind-ok (authenticated_metadata metadata) _ caller (rw f at h) in
              let (passed, by) = then-ok checked _ caller rest in
              (
                passed,
                by_verifier-SpeaksFor policy.allow_unsigned_local_context a
                    policy.service_token_verifier caller has read by,
              )
        ]

  -- Where a token verifier is configured, whether or not unsigned local contexts are allowed: each
  -- request whose metadata gives a caller has both tokens and no unsigned context, its tokens are
  -- verified, and the caller is confined to a tenant that is not blank.
  pub caller-SpeaksFor :
      (policy : RpcContextPolicy) (caller : CallerContext)
      → policy.service_token_verifier ≡ some config
      → caller_from_metadata d now metadata policy ≡ ok caller
      → SpeaksFor caller × ((t : String) × (caller.tenant_id ≡ some t) × (is_blank t ≡ false))
  unfolding caller_from_metadata
  caller-SpeaksFor policy caller has h =
      let (passed, speaks) = caller_after-SpeaksFor (ok tt) policy caller has h in
      let (a, read, signed, verified) = speaks in
      let (token, claims, p, s, c, vouched, same) =
        verify-IsVouched d config now a.bearer_token a.access_token caller verified in
      let (t, has_t, blank) = vouched.tenant in (speaks, (t, same ∙ has_t, blank))

  -- Where a token verifier is configured: each request to an operation that requires idempotency
  -- and whose metadata gives a caller has valid idempotency metadata, both tokens and no unsigned
  -- context, and its tokens are verified to be the caller's.
  pub idempotent-SpeaksFor :
      (policy : RpcContextPolicy) (caller : CallerContext)
      → policy.service_token_verifier ≡ some config
      → caller_from_metadata_with_required_idempotency d now metadata policy ≡ ok caller
      → (validate_required_idempotency_metadata metadata ≡ ok tt) × SpeaksFor caller
  unfolding caller_from_metadata_with_required_idempotency
  idempotent-SpeaksFor policy caller has h =
      caller_after-SpeaksFor (validate_required_idempotency_metadata metadata) policy caller has h
