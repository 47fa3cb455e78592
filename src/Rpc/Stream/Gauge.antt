-- ===== src/Rpc/Stream/Gauge.antt =====
-- crates/sdkwork-discovery-rpc/src/services.rs: what a watch stream takes off the gauge of active
-- streams.
use sdkwork_discovery.Prelude.{
  ℕ, suc, ◌+◌, ◌≡◌, refl, Bool, true, false, none, some, inl, inr, arith,
}
use sdkwork_discovery.Prelude.Tests.{if◌then◌else◌, Bool-cases}
use sdkwork_discovery.Contract.Error.{ok, err}
use sdkwork_discovery.Rpc.Service.{RpcResult, response, failure}
use sdkwork_discovery.Rpc.Stream.{
  StreamState, WatchTask, should_wake_persisted_poll, deliver, drain_step, turn, decrement_if_ended,
  Wake, live_event, persisted_events, heartbeat_tick, decrement_active_streams,
}
use sdkwork_discovery.Rpc.Stream.Cases.{KeepsEvents, drain-Keeps, deliver-response, deliver-failure}

-- The gauge has fallen by one if the stream has ended, and not at all before, from `n` on.
abbrev FallsOnce : {S M : Type 0} → ℕ → Bool × StreamState S M → Type 0
FallsOnce n p = (p.1).decrements ≡ (if p.0 then 1 else 0) + n

-- Whether a wake makes the task read the events of the store.
unfoldable pub drains_on : {S M : Type 0} → WatchTask S M → StreamState S M → Wake → Bool
drains_on task st (live_event (some (ok event))) =
    should_wake_persisted_poll event task.query st.cursor_revision
drains_on task st (live_event (some (err e))) = false
drains_on task st (live_event none) = false
drains_on task st persisted_events = true
drains_on task st heartbeat_tick = false

module _ {S M : Type 0} (task : WatchTask S M) where
  deliver-FallsOnce :
      (n : ℕ) (item : RpcResult M) (st : StreamState S M)
      → st.decrements ≡ n
      → FallsOnce n (deliver task item st)
  unfolding decrement_active_streams
  deliver-FallsOnce n (response m) st h =
      deliver-response task (FallsOnce n) m st (omega (arith, h)) (omega (arith, h))
  deliver-FallsOnce n (failure e) st h =
      deliver-failure task (FallsOnce n) e st (omega (arith, h)) (omega (arith, h))

  events-FallsOnce : (n : ℕ) → KeepsEvents task (FallsOnce n)
  events-FallsOnce n = record {
    passes = λ e st later h. h;
    answers = λ e st later matching h. deliver-FallsOnce n _ _ (omega (arith, h));
    requests = λ r st h. h;
    fails = λ e st h. deliver-FallsOnce n _ st (omega (arith, h));
  }

  FallsTwice-drain :
      (st : StreamState S M) (p : Bool × StreamState S M)
      → FallsOnce st.decrements p
      → (decrement_if_ended p).1.decrements
        ≡ (if (decrement_if_ended p).0 then 2 else 0) + st.decrements
  unfolding decrement_if_ended decrement_active_streams
  FallsTwice-drain st (true, st1) h = omega (arith, h)
  FallsTwice-drain st (false, st1) h = h

  drain_step-decrements :
      (st : StreamState S M)
      → (drain_step task st).1.decrements
        ≡ (if (drain_step task st).0 then 2 else 0) + st.decrements
  unfolding drain_step
  drain_step-decrements st =
      FallsTwice-drain st _ (
        drain-Keeps task (FallsOnce st.decrements) (events-FallsOnce st.decrements) st
          (omega arith))

  -- A turn of a watch stream that ends the stream lowers the gauge of active streams by one when
  -- the client is told of an error, has left, or the live events are closed, but by two when it
  -- ends while the events of the store are drained; a turn that does not end it leaves the gauge.
  pub turn-decrements :
      (w : Wake) (st : StreamState S M)
      → (turn task w st).1.decrements
        ≡ (if (turn task w st).0 then (if drains_on task st w then 2 else 1) else 0) + st.decrements
  unfolding turn drains_on decrement_active_streams
  turn-decrements (live_event (some (ok event))) st =
      elim (Bool-cases (should_wake_persisted_poll event task.query st.cursor_revision)) [
        | inl t ↦ rw (t, turn, drains_on) (drain_step-decrements st)
        | inr f ↦ rw (f, turn, drains_on) (omega arith)
      ]
  turn-decrements (live_event (some (err e))) st =
      omega (arith, deliver-FallsOnce st.decrements (failure (task.failed e)) st refl)
  turn-decrements (live_event none) st = omega arith
  turn-decrements persisted_events st = drain_step-decrements st
  turn-decrements heartbeat_tick st =
      deliver-FallsOnce st.decrements _ (record st { asked = suc st.asked }) refl
