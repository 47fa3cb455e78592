-- ===== src/Rpc/Stream/Permits.antt =====
-- crates/sdkwork-discovery-rpc/src/services.rs: the permits that the streams hold.
use sdkwork_discovery.Prelude.{ℕ, suc, ◌≡◌, refl, String, Bool, List, inl, inr, arith, false}
use sdkwork_discovery.Prelude.Tests.{nat_beq, Bool-cases}
use sdkwork_discovery.Contract.Error.{DiscoveryResult, ok, err, Result-cases}
use sdkwork_discovery.Contract.Context.{CallerContext}
use sdkwork_discovery.Contract.Event.{DiscoveryEvent}
use sdkwork_discovery.Rpc.Actor.{Runtime}
use sdkwork_discovery.Rpc.Codec.Proto
use sdkwork_discovery.Rpc.Correlation.{request_id_from_metadata, trace_id_from_metadata}
use sdkwork_discovery.Rpc.Service.{RpcResult, response, failure, Server, Call}
use sdkwork_discovery.Rpc.Stream.{Moment, WatchTask, Status}
use sdkwork_discovery.Rpc.Stream.Open.{
  start, DiscoveryWatchServiceConfig, WatchHost, start_stream, open_stream, watch_service,
  watch_config,
}

-- What a request for a stream makes of the host: a stream that is started takes a free permit and
-- counts as active; a request that fails takes none.
pub data Opens {S A : Type 0} (h : WatchHost S) : RpcResult A × WatchHost S → Type 0 where
  opened :
      (a : A) (h1 : WatchHost S)
      → h.available_permits ≡ suc h1.available_permits
      → h1.active_streams ≡ suc h.active_streams
      → Opens h (response a, h1)
  refused :
      (e : Status) (h1 : WatchHost S)
      → h1.available_permits ≡ h.available_permits
      → h1.active_streams ≡ h.active_streams
      → Opens h (failure e, h1)

module _ {S : Type 0} (server : Server S) (call : Call) (config : DiscoveryWatchServiceConfig) where
  start-Opens :
      {M : Type 0} (task : WatchTask S M) (h : WatchHost S)
      (polled : DiscoveryResult (List DiscoveryEvent) × Runtime S)
      → nat_beq h.available_permits 0 ≡ false
      → Opens h (start server call config task h polled)
  start-Opens task h (ok events, r) free = opened _ _ (ground arith) refl
  start-Opens task h (err e, r) free = refused _ _ refl refl

  start_stream-Opens :
      {M : Type 0} (task : WatchTask S M) (h : WatchHost S)
      → Opens h (start_stream server call config task h)
  unfolding start_stream
  start_stream-Opens task h = elim (Bool-cases (nat_beq h.available_permits 0)) [
    | inl t ↦ rw (t, start_stream) (refused _ h refl refl)
    | inr f ↦ rw (f, start_stream) (start-Opens task h _ f)
  ]

  open_stream-Opens :
      {M : Type 0} (message : String) (prepared : DiscoveryResult CallerContext)
      (task_of : String → String → CallerContext → WatchTask S M) (h : WatchHost S)
      → Opens h (open_stream server call config message prepared task_of h)
  unfolding open_stream
  open_stream-Opens message prepared task_of h =
      elim (Result-cases (request_id_from_metadata call.generated_id call.metadata)) [
        | inl (e, x) ↦ rw (x, open_stream) (refused _ h refl refl)
        | inr (request_id, x) ↦ elim (Result-cases (trace_id_from_metadata call.metadata)) [
          | inl (e, y) ↦ rw (x, y, open_stream) (refused _ h refl refl)
          | inr (trace_id, y) ↦ elim (Bool-cases config.enabled) [
            | inr f ↦ rw (x, y, f, open_stream) (refused _ h refl refl)
            | inl t ↦ elim (Result-cases prepared) [
              | inl (e, z) ↦ rw (x, y, t, z, open_stream) (refused _ h refl refl)
              | inr (caller, z) ↦
                  rw (x, y, t, z, open_stream)
                    (start_stream-Opens (task_of request_id trace_id caller) h)
            ]
          ]
        ]
      ]

module _ {S : Type 0} (server : Server S) (call : Call) (config : DiscoveryWatchServiceConfig)
    (accepts : ℕ → Bool) (moments : ℕ → Moment S) (h : WatchHost S) where
  -- A request for a stream of services either starts one, which takes a permit that was free and
  -- counts as one active stream more, or fails and leaves the permits and the count; so does a
  -- request for a stream of configuration.
  pub watch-Opens :
      (service : Proto.WatchServiceRequest) (of_config : Proto.WatchConfigRequest)
      → Opens h (watch_service server call config accepts moments service h)
        × Opens h (watch_config server call config accepts moments of_config h)
  unfolding watch_service watch_config
  watch-Opens service of_config =
      (open_stream-Opens server call config _ _ _ h, open_stream-Opens server call config _ _ _ h)
