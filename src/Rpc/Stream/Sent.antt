-- ===== src/Rpc/Stream/Sent.antt =====
-- crates/sdkwork-discovery-rpc/src/services.rs: what the streams of services and of configuration
-- send, in which order, and the permits that they hold.
use sdkwork_discovery.Prelude.{ℕ, ◌≡◌, refl, Bool, Option, none, some, List, String}
use mathlib.Core.Path.{subst}
use sdkwork_discovery.Prelude.Tests.{nat_beq, if◌then◌else◌}
use sdkwork_discovery.Contract.Context.{CallerContext}
use sdkwork_discovery.Contract.Event.{
  DiscoveryEvent, DiscoveryEventKind, WatchEventsQuery, instance_registered, instance_updated,
  instance_status_reported, instance_renewed, instance_deregistered, config_published,
  config_rolled_back,
}
use sdkwork_discovery.Rpc.Actor.{Runtime}
use sdkwork_discovery.Rpc.Codec.Proto
use sdkwork_discovery.Rpc.Codec.Responses.{watch_event_type, response_metadata}
use sdkwork_discovery.Rpc.Service.{RpcResult, response, failure, Server}
use sdkwork_discovery.Rpc.Stream.{Moment, Wake, spawn}
use sdkwork_discovery.Rpc.Stream.Watch.{
  service_task, config_task, service_watch_response, service_watch_heartbeat, config_watch_response,
  config_watch_heartbeat, watch_message,
}
use sdkwork_discovery.Rpc.Stream.Order.{IsStamped, IsInOrder, spawn-IsInOrder}

abbrev revision_in : Option Proto.ResponseMetadata → Option ℕ
revision_in none = none
revision_in (some m) = some m.revision

-- The revision of an event's message, and none of a heartbeat, whose event type is 8.
unfoldable pub stamp_of : ℕ → Option Proto.ResponseMetadata → Option ℕ
stamp_of event_type metadata = if nat_beq event_type 8 then none else revision_in metadata

abbrev pub service_stamp : Proto.WatchServiceResponse → Option ℕ
service_stamp m = stamp_of m.event_type m.metadata

abbrev pub config_stamp : Proto.WatchConfigResponse → Option ℕ
config_stamp m = stamp_of m.event_type m.metadata

stamp_of-event :
    (kind : DiscoveryEventKind) (m : Proto.ResponseMetadata)
    → stamp_of (watch_event_type kind) (some m) ≡ some m.revision
unfolding stamp_of watch_event_type
stamp_of-event instance_registered m = refl
stamp_of-event instance_updated m = refl
stamp_of-event instance_status_reported m = refl
stamp_of-event instance_renewed m = refl
stamp_of-event instance_deregistered m = refl
stamp_of-event config_published m = refl
stamp_of-event config_rolled_back m = refl

response_injective : {M : Type 0} {a b : M} → response a ≡ response b → a ≡ b
response_injective h = cc

module _ {S : Type 0} (server : Server S) (request_id trace_id : String) where
  watch_message-stamp :
      (now : Moment S) (e : DiscoveryEvent) (i : RpcResult (Option Proto.ServiceInstance))
      (m : Proto.WatchServiceResponse)
      → watch_message server request_id trace_id now e i ≡ response m
      → service_stamp m ≡ some e.revision
  unfolding response_metadata
  watch_message-stamp now e (failure s) m h = absurd cc
  watch_message-stamp now e (response i) m h =
      subst (λ x. service_stamp x ≡ some e.revision) (response_injective h)
        (stamp_of-event e.kind _)

  pub config_watch_response-stamp :
      (now : ℕ) (e : DiscoveryEvent)
      → config_stamp (config_watch_response server request_id trace_id now e) ≡ some e.revision
  unfolding config_watch_response response_metadata
  config_watch_response-stamp now e =
      stamp_of-event e.kind (response_metadata now request_id trace_id e.revision)

  module _ (accepts : ℕ → Bool) (moments : ℕ → Moment S) (caller : CallerContext)
      (query : WatchEventsQuery) where
    service-IsStamped :
        IsStamped
          (service_task server request_id trace_id accepts moments caller query)
          service_stamp
    unfolding service_task service_watch_response service_watch_heartbeat stamp_of
    service-IsStamped = record {
      of_answer = λ e st m h. watch_message-stamp (moments st.asked) e _ m h;
      of_heartbeat = λ now revision. refl;
    }

    config-IsStamped :
        IsStamped (config_task server request_id trace_id accepts moments caller query) config_stamp
    unfolding config_task config_watch_heartbeat stamp_of
    config-IsStamped = record {
      of_answer = λ e st m h.
          subst (λ x. config_stamp x ≡ some e.revision) (response_injective h)
            (config_watch_response-stamp (moments st.asked).server_now e);
      of_heartbeat = λ now revision. refl;
    }

    -- Whatever wakes the stream of a service, and whatever others do to the runtime meanwhile: the
    -- revisions of the events that it sends rise strictly and are above the revision from which the
    -- client asked on, up to the cursor; heartbeats aside, no event is sent twice. An error can
    -- only be the last item, and then the stream has ended.
    pub service_watch-IsInOrder :
        (events : List DiscoveryEvent) (wakes : List Wake) (r : Runtime S)
        → IsInOrder
            (service_task server request_id trace_id accepts moments caller query)
            service_stamp
            (spawn
              (service_task server request_id trace_id accepts moments caller query)
              events
              wakes
              r)
    service_watch-IsInOrder events wakes r =
        spawn-IsInOrder (service_task server request_id trace_id accepts moments caller query)
          service_stamp service-IsStamped events wakes r

    -- The same of the stream of configuration.
    pub config_watch-IsInOrder :
        (events : List DiscoveryEvent) (wakes : List Wake) (r : Runtime S)
        → IsInOrder
            (config_task server request_id trace_id accepts moments caller query)
            config_stamp
            (spawn
              (config_task server request_id trace_id accepts moments caller query)
              events
              wakes
              r)
    config_watch-IsInOrder events wakes r =
        spawn-IsInOrder (config_task server request_id trace_id accepts moments caller query)
          config_stamp config-IsStamped events wakes r
