-- ===== src/Rpc/Stream/Complete.antt =====
-- crates/sdkwork-discovery-rpc/src/services.rs: a stream of configuration sends every event that it
-- is to send.
use sdkwork_discovery.Prelude.{
  ℕ, suc, max, ◌<◌, ◌≡◌, refl, ◌∙◌, Bool, true, false, List, [], ◌∷◌, inl, inr, arith, ap, String,
}
use sdkwork_discovery.Prelude.Lists.{All, length, retain}
use sdkwork_discovery.Prelude.Tests.{leb, Bool-cases}
use sdkwork_discovery.Contract.Context.{CallerContext}
use sdkwork_discovery.Contract.Event.{DiscoveryEvent, WatchEventsQuery}
use sdkwork_discovery.Memory.Log.{Ascending}
use sdkwork_discovery.Rpc.Watch.{event_matches_config_watch}
use sdkwork_discovery.Rpc.Codec.Proto
use sdkwork_discovery.Rpc.Service.{RpcResult, response, Server}
use sdkwork_discovery.Rpc.Stream.{
  Moment, WatchTask, StreamState, send_events, deliver, send_watch_item, finish_watch_stream, go_on,
}
use sdkwork_discovery.Rpc.Stream.Watch.{config_task, config_watch_response}
use sdkwork_discovery.Rpc.Stream.Order.{revisions, cons_stamp}
use sdkwork_discovery.Rpc.Stream.Sent.{config_stamp, config_watch_response-stamp}

-- The revisions of events, in front of which those of a list are already sent: the newest first.
abbrev newest_first : List DiscoveryEvent → List ℕ → List ℕ
newest_first [] rs = rs
newest_first (e ∷ es) rs = newest_first es (e.revision ∷ rs)

All-behind :
    (cursor revision : ℕ) (es : List DiscoveryEvent)
    → cursor < revision
    → All (λ f. revision < f.revision) es
    → All (λ f. max cursor revision < f.revision) es
All-behind cursor revision [] lt h = tt
All-behind cursor revision (f ∷ es) lt h =
    (omega (arith, lt, h.0), All-behind cursor revision es lt h.1)

module _ {S : Type 0} (server : Server S) (request_id trace_id : String) (accepts : ℕ → Bool)
    (moments : ℕ → Moment S) (caller : CallerContext) (query : WatchEventsQuery)
    (stays : (n : ℕ) → accepts n ≡ true) where
  abbrev the_task : WatchTask S Proto.WatchConfigResponse
  the_task = config_task server request_id trace_id accepts moments caller query

  sent_event :
      (now : ℕ) (e : DiscoveryEvent) (items : List (RpcResult Proto.WatchConfigResponse))
      → revisions config_stamp
          (response (config_watch_response server request_id trace_id now e) ∷ items)
        ≡ e.revision ∷ revisions config_stamp items
  sent_event now e items =
      ap (λ s. cons_stamp s (revisions config_stamp items))
        (config_watch_response-stamp server request_id trace_id now e)

  -- As long as the client is there, a page of events in ascending order behind the cursor is sent
  -- whole: the stream goes on, and has sent the revisions of exactly the events that match the
  -- query, in their order.
  pub send_events_complete :
      (events : List DiscoveryEvent) (st : StreamState S Proto.WatchConfigResponse)
      → All (λ e. st.cursor_revision < e.revision) events
      → Ascending events
      → ((send_events the_task events st).0 ≡ false)
        × (revisions config_stamp (send_events the_task events st).1.sent
            ≡ newest_first
                (retain (λ e. event_matches_config_watch e query) events)
                (revisions config_stamp st.sent))
  unfolding send_events deliver send_watch_item finish_watch_stream go_on config_task
  send_events_complete [] st later ascending = (refl, refl)
  send_events_complete (e ∷ es) st later ascending =
      let behind : leb e.revision st.cursor_revision ≡ false = ground (arith, later.0) in
      let rest : All (λ f. max st.cursor_revision e.revision < f.revision) es =
        All-behind st.cursor_revision e.revision es later.0 ascending.0 in
      elim (Bool-cases (event_matches_config_watch e query)) [
        | inr f ↦
            let st1 = record st { cursor_revision = max st.cursor_revision e.revision } in
            rw (behind, f, send_events) (send_events_complete es st1 rest ascending.1)
        | inl t ↦
            let m = moments st.asked in
            let st1 = record st {
              runtime = m.others st.runtime;
              cursor_revision = max st.cursor_revision e.revision;
              sent =
                  response (config_watch_response server request_id trace_id m.server_now e)
                  ∷ st.sent;
              asked = suc st.asked;
            } in
            let (goes_on, all) = send_events_complete es st1 rest ascending.1 in
            rw (behind, t, stays (length st.sent), send_events, deliver, send_watch_item)
              (
                goes_on,
                all
                    ∙ ap (newest_first (retain (λ f. event_matches_config_watch f query) es))
                        (sent_event m.server_now e st.sent),
              )
      ]
