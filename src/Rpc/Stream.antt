-- ===== src/Rpc/Stream.antt =====
-- crates/sdkwork-discovery-rpc/src/services.rs: the task of a watch stream, which the streams of
-- services and of configuration share. The channel to the client, the timers and the broadcast
-- channel belong to another package: `accepts n` says whether the client is still there for the
-- item behind n others, and what wakes the task is a list. Between two requests to the runtime
-- others use it, which `moments` describes.
pub mod Cases
pub mod Watch
pub mod Open
pub mod Sent
pub mod Complete
pub mod Permits
pub mod Order
pub mod Gauge
use sdkwork_discovery.Prelude.{
  ℕ, suc, ◌+◌, max, String, Bool, true, false, not, ◌&&◌, Option, none, some, List, [], ◌∷◌,
}
use sdkwork_discovery.Prelude.Lists.{length}
use sdkwork_discovery.Prelude.Tests.{◌==◌, ltb, leb, text_eq}
use sdkwork_discovery.Contract.Error.{DiscoveryError, DiscoveryResult, ok, err, Op}
use sdkwork_discovery.Contract.Event.{DiscoveryEvent, WatchEventsQuery}
use sdkwork_discovery.Rpc.Actor.{Runtime, Readings}
use sdkwork_discovery.Rpc.Status.{Status}
use sdkwork_discovery.Rpc.Service.{RpcResult, response, failure}

-- A request to the runtime: what others have done to it before, and the clocks.
pub record Moment (S : Type 0) : Type 0 where
  pub others : Runtime S → Runtime S
  pub now_ms : ℕ
  pub server_now : ℕ
  pub readings : Readings

-- The fixed parts of a task, and what differs between the two kinds of stream.
pub record WatchTask (S M : Type 0) : Type 0 where
  pub query : WatchEventsQuery
  pub poll : Moment S → WatchEventsQuery → Op (Runtime S) (List DiscoveryEvent)
  pub matches : DiscoveryEvent → Bool
  pub respond : Moment S → DiscoveryEvent → Runtime S → RpcResult M × Runtime S
  pub heartbeat : ℕ → ℕ → M
  pub failed : DiscoveryError → Status
  pub accepts : ℕ → Bool
  pub moments : ℕ → Moment S

-- `sent` has the items that the channel took, the newest first; `decrements` counts the calls of
-- `decrement_active_streams`; `asked` counts the requests to the runtime.
pub record StreamState (S M : Type 0) : Type 0 where
  pub runtime : Runtime S
  pub cursor_revision : ℕ
  pub sent : List (RpcResult M)
  pub decrements : ℕ
  pub asked : ℕ

pub data WatchStreamSendOutcome : Type 0 where
  continue_stream stream_ended client_disconnected : WatchStreamSendOutcome

-- What wakes the task: an item of the live events, `none` when they are closed, or a timer.
pub data Wake : Type 0 where
  live_event : Option (DiscoveryResult DiscoveryEvent) → Wake
  persisted_events heartbeat_tick : Wake

unfoldable pub watch_query_after : WatchEventsQuery → ℕ → WatchEventsQuery
watch_query_after query revision = record query { from_revision = revision }

unfoldable pub should_wake_persisted_poll : DiscoveryEvent → WatchEventsQuery → ℕ → Bool
should_wake_persisted_poll event query cursor_revision =
    ltb cursor_revision event.revision
    && event.namespace == query.namespace
    && event.environment == query.environment

abbrev pub outcome_of : {M : Type 0} → RpcResult M → WatchStreamSendOutcome
outcome_of (response m) = continue_stream
outcome_of (failure e) = stream_ended

module _ {S M : Type 0} where
  unfoldable pub decrement_active_streams : StreamState S M → StreamState S M
  decrement_active_streams st = record st { decrements = suc st.decrements }

  -- `if ended { return; }`, and what follows.
  unfoldable pub go_on :
      (StreamState S M → Bool × StreamState S M) → Bool × StreamState S M → Bool × StreamState S M
  go_on next (true, st) = (true, st)
  go_on next (false, st) = next st

  -- `if drain(..).await { decrement_active_streams(..); return; }`
  unfoldable pub decrement_if_ended : Bool × StreamState S M → Bool × StreamState S M
  decrement_if_ended (true, st) = (true, decrement_active_streams st)
  decrement_if_ended (false, st) = (false, st)

  unfoldable pub finish_watch_stream :
      WatchStreamSendOutcome → StreamState S M → Bool × StreamState S M
  finish_watch_stream continue_stream st = (false, st)
  finish_watch_stream stream_ended st = (true, decrement_active_streams st)
  finish_watch_stream client_disconnected st = (true, decrement_active_streams st)

module _ {S M : Type 0} (task : WatchTask S M) where
  unfoldable pub send_watch_item :
      RpcResult M → StreamState S M → WatchStreamSendOutcome × StreamState S M
  send_watch_item item st = elim (task.accepts (length st.sent)) [
    | true ↦ (outcome_of item, record st { sent = item ∷ st.sent })
    | false ↦ (client_disconnected, st)
  ]

  -- `finish_watch_stream(.., send_watch_item(..).await)`
  unfoldable pub deliver : RpcResult M → StreamState S M → Bool × StreamState S M
  deliver item st = let (outcome, st1) = send_watch_item item st in finish_watch_stream outcome st1

  -- The request for the answer to an event.
  abbrev pub answer : DiscoveryEvent → StreamState S M → RpcResult M × StreamState S M
  answer event st =
      let m = task.moments st.asked in
      let (item, r) = task.respond m event (m.others st.runtime) in
      (item, record st { runtime = r; asked = suc st.asked })

  -- The loop over the events of a page, which says whether the stream has ended.
  unfoldable pub send_events : List DiscoveryEvent → StreamState S M → Bool × StreamState S M
  send_events [] st = (false, st)
  send_events (event ∷ events) st = elim (leb event.revision st.cursor_revision) [
    | true ↦ send_events events st
    | false ↦
        let st1 = record st { cursor_revision = max st.cursor_revision event.revision } in
        elim (task.matches event) [
          | false ↦ send_events events st1
          | true ↦ go_on (send_events events) (deliver (answer event st1).0 (answer event st1).1)
        ]
  ]

  abbrev pub send_polled :
      DiscoveryResult (List DiscoveryEvent) → StreamState S M → Bool × StreamState S M
  send_polled (ok events) st = send_events events st
  send_polled (err e) st = deliver (failure (task.failed e)) st

  unfoldable pub drain_persisted_events : StreamState S M → Bool × StreamState S M
  drain_persisted_events st =
      let m = task.moments st.asked in
      let (polled, r) =
        task.poll m (watch_query_after task.query st.cursor_revision) (m.others st.runtime) in
      send_polled polled (record st { runtime = r; asked = suc st.asked })

  -- A drain in the loop.
  unfoldable pub drain_step : StreamState S M → Bool × StreamState S M
  drain_step st = decrement_if_ended (drain_persisted_events st)

  -- One turn of the loop, which says whether the task returns.
  unfoldable pub turn : Wake → StreamState S M → Bool × StreamState S M
  turn (live_event (some (ok event))) st =
      elim (should_wake_persisted_poll event task.query st.cursor_revision) [
        | true ↦ drain_step st
        | false ↦ (false, st)
      ]
  turn (live_event (some (err e))) st = deliver (failure (task.failed e)) st
  turn (live_event none) st = (true, decrement_active_streams st)
  turn persisted_events st = drain_step st
  turn heartbeat_tick st =
      deliver (response (task.heartbeat (task.moments st.asked).server_now st.cursor_revision))
        (record st { asked = suc st.asked })

  unfoldable pub stream_loop : List Wake → StreamState S M → Bool × StreamState S M
  stream_loop [] st = (false, st)
  stream_loop (w ∷ ws) st = go_on (stream_loop ws) (turn w st)

  abbrev pub started : Runtime S → StreamState S M
  started r = record {
    runtime = r;
    cursor_revision = task.query.from_revision;
    sent = [];
    decrements = 0;
    asked = 0;
  }

  -- The task, from the events that the request has read, over what wakes it.
  unfoldable pub spawn : List DiscoveryEvent → List Wake → Runtime S → Bool × StreamState S M
  spawn events wakes r = go_on (stream_loop wakes) (send_events events (started r))
