-- ===== src/Rpc/Stream/Cases.antt =====
-- crates/sdkwork-discovery-rpc/src/services.rs: the cases of the steps of a watch stream, for any
-- predicate on the flag that says whether the stream has ended and on its state.
use sdkwork_discovery.Prelude.{
  some, none, ℕ, suc, max, ◌<◌, ◌≡◌, Bool, true, false, List, [], ◌∷◌, inl, inr, arith,
}
use sdkwork_discovery.Prelude.Lists.{length}
use sdkwork_discovery.Prelude.Tests.{leb, Bool-cases}
use sdkwork_discovery.Contract.Error.{ok, err, DiscoveryResult}
use sdkwork_discovery.Contract.Event.{DiscoveryEvent}
use sdkwork_discovery.Rpc.Service.{RpcResult, response, failure}
use sdkwork_discovery.Rpc.Actor.{Runtime}
use sdkwork_discovery.Rpc.Stream.{
  StreamState, WatchTask, answer, send_polled, finish_watch_stream, send_watch_item, deliver,
  send_events, drain_step, turn, drain_persisted_events, Wake, live_event, persisted_events,
  heartbeat_tick, decrement_active_streams, stream_loop, spawn, Status, go_on, decrement_if_ended,
  watch_query_after, started, should_wake_persisted_poll,
}

module _ {S M : Type 0} where
  abbrev pub with_item : RpcResult M → StreamState S M → StreamState S M
  with_item item st = record st { sent = item ∷ st.sent }

  abbrev pub moved_to : DiscoveryEvent → StreamState S M → StreamState S M
  moved_to e st = record st { cursor_revision = max st.cursor_revision e.revision }

  -- A request to the runtime has been made.
  abbrev pub after_request : Runtime S → StreamState S M → StreamState S M
  after_request r st = record st { runtime = r; asked = suc st.asked }

module _ {S M : Type 0} (task : WatchTask S M) (P : Bool × StreamState S M → Type 0) where
  pub deliver-response :
      (m : M) (st : StreamState S M)
      → P (true, decrement_active_streams st)
      → P (false, with_item (response m) st)
      → P (deliver task (response m) st)
  unfolding deliver send_watch_item finish_watch_stream
  deliver-response m st gone taken = elim (Bool-cases (task.accepts (length st.sent))) [
    | inl t ↦ rw (t, deliver, send_watch_item) taken
    | inr f ↦ rw (f, deliver, send_watch_item) gone
  ]

  pub deliver-failure :
      (e : Status) (st : StreamState S M)
      → P (true, decrement_active_streams st)
      → P (true, decrement_active_streams (with_item (failure e) st))
      → P (deliver task (failure e) st)
  unfolding deliver send_watch_item finish_watch_stream
  deliver-failure e st gone taken = elim (Bool-cases (task.accepts (length st.sent))) [
    | inl t ↦ rw (t, deliver, send_watch_item) taken
    | inr f ↦ rw (f, deliver, send_watch_item) gone
  ]

module _ {S M : Type 0} (P : Bool × StreamState S M → Type 0) where
  go_on-Keeps :
      (next : StreamState S M → Bool × StreamState S M) (p : Bool × StreamState S M)
      → P p
      → ((st : StreamState S M) → P (false, st) → P (next st))
      → P (go_on next p)
  unfolding go_on
  go_on-Keeps next (true, st) h continues = h
  go_on-Keeps next (false, st) h continues = continues st h

-- What a predicate must satisfy to hold along the events of a page.
pub record KeepsEvents {S M : Type 0} (task : WatchTask S M) (P : Bool × StreamState S M → Type 0)
    : Type 0 where
  pub passes :
      (e : DiscoveryEvent) (st : StreamState S M)
      → st.cursor_revision < e.revision
      → P (false, st)
      → P (false, moved_to e st)
  pub answers :
      (e : DiscoveryEvent) (st : StreamState S M)
      → st.cursor_revision < e.revision
      → task.matches e ≡ true
      → P (false, st)
      → P (deliver task (answer task e (moved_to e st)).0 (answer task e (moved_to e st)).1)
  pub requests :
      (r : Runtime S) (st : StreamState S M) → P (false, st) → P (false, after_request r st)
  pub fails : (e : Status) (st : StreamState S M) → P (false, st) → P (deliver task (failure e) st)

-- What it must satisfy to hold along a whole stream.
pub record Keeps {S M : Type 0} (task : WatchTask S M) (P : Bool × StreamState S M → Type 0)
    : Type 0 where
  pub events : KeepsEvents task P
  pub beats :
      (now : ℕ) (st : StreamState S M)
      → P (false, st)
      → P (deliver task (response (task.heartbeat now st.cursor_revision)) st)
  pub closes : (st : StreamState S M) → P (false, st) → P (true, decrement_active_streams st)
  pub drains : (st : StreamState S M) → P (true, st) → P (true, decrement_active_streams st)

module _ {S M : Type 0} (task : WatchTask S M) (P : Bool × StreamState S M → Type 0)
    (keeps : KeepsEvents task P) where
  pub send_events-Keeps :
      (events : List DiscoveryEvent) (st : StreamState S M)
      → P (false, st)
      → P (send_events task events st)
  unfolding send_events
  send_events-Keeps [] st h = h
  send_events-Keeps (e ∷ es) st h = elim (Bool-cases (leb e.revision st.cursor_revision)) [
    | inl t ↦ rw (t, send_events) (send_events-Keeps es st h)
    | inr f ↦
        let later : st.cursor_revision < e.revision = ground arith in
        elim (Bool-cases (task.matches e)) [
          | inr g ↦ rw (f, g, send_events) (send_events-Keeps es _ (keeps.passes e st later h))
          | inl g ↦
              let h1 = keeps.answers e st later g h in
              rw (f, g, send_events) (go_on-Keeps P _ _ h1 (λ st1 h2. send_events-Keeps es st1 h2))
        ]
  ]

  pub drain-Keeps : (st : StreamState S M) → P (false, st) → P (drain_persisted_events task st)
  unfolding drain_persisted_events
  drain-Keeps st h =
      let m = task.moments st.asked in
      let polled =
        task.poll m (watch_query_after task.query st.cursor_revision) (m.others st.runtime) in
      polled-Keeps polled.0 _ (keeps.requests polled.1 st h)
    where
      polled-Keeps :
          (polled : DiscoveryResult (List DiscoveryEvent)) (st : StreamState S M)
          → P (false, st)
          → P (send_polled task polled st)
      polled-Keeps (ok events) st h = send_events-Keeps events st h
      polled-Keeps (err e) st h = keeps.fails (task.failed e) st h

module _ {S M : Type 0} (task : WatchTask S M) (P : Bool × StreamState S M → Type 0)
    (keeps : Keeps task P) where
  decrement_if_ended-Keeps : (p : Bool × StreamState S M) → P p → P (decrement_if_ended p)
  unfolding decrement_if_ended
  decrement_if_ended-Keeps (true, st) h = keeps.drains st h
  decrement_if_ended-Keeps (false, st) h = h

  drain_step-Keeps : (st : StreamState S M) → P (false, st) → P (drain_step task st)
  unfolding drain_step
  drain_step-Keeps st h = decrement_if_ended-Keeps _ (drain-Keeps task P keeps.events st h)

  pub turn-Keeps : (w : Wake) (st : StreamState S M) → P (false, st) → P (turn task w st)
  unfolding turn
  turn-Keeps (live_event (some (ok event))) st h =
      elim (Bool-cases (should_wake_persisted_poll event task.query st.cursor_revision)) [
        | inl t ↦ rw (t, turn) (drain_step-Keeps st h)
        | inr f ↦ rw (f, turn) h
      ]
  turn-Keeps (live_event (some (err e))) st h = keeps.events.fails (task.failed e) st h
  turn-Keeps (live_event none) st h = keeps.closes st h
  turn-Keeps persisted_events st h = drain_step-Keeps st h
  turn-Keeps heartbeat_tick st h =
      keeps.beats (task.moments st.asked).server_now _ (keeps.events.requests st.runtime st h)

  stream_loop-Keeps :
      (ws : List Wake) (st : StreamState S M) → P (false, st) → P (stream_loop task ws st)
  unfolding stream_loop
  stream_loop-Keeps [] st h = h
  stream_loop-Keeps (w ∷ ws) st h =
      go_on-Keeps P _ _ (turn-Keeps w st h) (λ st1 h1. stream_loop-Keeps ws st1 h1)

  pub spawn-Keeps :
      (events : List DiscoveryEvent) (wakes : List Wake) (r : Runtime S)
      → P (false, started task r)
      → P (spawn task events wakes r)
  unfolding spawn
  spawn-Keeps events wakes r h =
      go_on-Keeps P _ _ (send_events-Keeps task P keeps.events events _ h)
        (λ st1 h1. stream_loop-Keeps wakes st1 h1)
