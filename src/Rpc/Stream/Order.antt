-- ===== src/Rpc/Stream/Order.antt =====
-- crates/sdkwork-discovery-rpc/src/services.rs: the order of the items that a watch stream sends.
use sdkwork_discovery.Prelude.{
  ℕ, ◌-◌, max, ◌<◌, ◌≤◌, ◌≡◌, refl, Bool, true, false, Option, none, some, List, [], ◌∷◌, arith,
}
use sdkwork_discovery.Prelude.Lists.{All}
use sdkwork_discovery.Contract.Event.{DiscoveryEvent}
use sdkwork_discovery.Rpc.Service.{RpcResult, response, failure}
use sdkwork_discovery.Rpc.Actor.{Runtime}
use sdkwork_discovery.Rpc.Stream.{
  StreamState, WatchTask, deliver, answer, spawn, Wake, decrement_active_streams,
}
use sdkwork_discovery.Rpc.Stream.Cases.{
  Keeps, deliver-response, deliver-failure, spawn-Keeps, moved_to,
}

-- Revisions, the newest first: each above the next, the first at most `n`, the last above `from`.
abbrev pub Descending : ℕ → ℕ → List ℕ → Type 0
Descending from n [] = from ≤ n
Descending from n (r ∷ rs) = (1 ≤ r) × (r ≤ n) × Descending from (r - 1) rs

Descending-mono : (from m n : ℕ) (rs : List ℕ) → m ≤ n → Descending from m rs → Descending from n rs
Descending-mono from m n [] le h = omega (arith, le, h)
Descending-mono from m n (r ∷ rs) le h = (h.0, omega (arith, le, h.1), h.2)

abbrev pub IsResponse : {M : Type 0} → RpcResult M → Type 0
IsResponse (response m) = Unit
IsResponse (failure e) = ⊥

abbrev pub cons_stamp : Option ℕ → List ℕ → List ℕ
cons_stamp none rs = rs
cons_stamp (some r) rs = r ∷ rs

module _ {M : Type 0} (stamp : M → Option ℕ) where
  -- The revisions of the events that were sent.
  abbrev pub revisions : List (RpcResult M) → List ℕ
  revisions [] = []
  revisions (response m ∷ items) = cons_stamp (stamp m) (revisions items)
  revisions (failure e ∷ items) = revisions items

-- Behind the newest item there are only responses.
abbrev pub OnlyLastFails : {M : Type 0} → List (RpcResult M) → Type 0
OnlyLastFails [] = Unit
OnlyLastFails (item ∷ items) = All IsResponse items

module _ {S M : Type 0} (task : WatchTask S M) (stamp : M → Option ℕ) where
  -- What is known of a stream that goes on, and of one that has ended.
  abbrev pub IsInOrder : Bool × StreamState S M → Type 0
  IsInOrder (false, st) =
      Descending task.query.from_revision st.cursor_revision (revisions stamp st.sent)
      × All IsResponse st.sent
  IsInOrder (true, st) =
      Descending task.query.from_revision st.cursor_revision (revisions stamp st.sent)
      × OnlyLastFails st.sent

  -- The responses carry the revision of their event, heartbeats none.
  pub record IsStamped : Type 0 where
    pub of_answer :
        (e : DiscoveryEvent) (st : StreamState S M) (m : M)
        → (answer task e st).0 ≡ response m
        → stamp m ≡ some e.revision
    pub of_heartbeat : (now revision : ℕ) → stamp (task.heartbeat now revision) ≡ none

  module _ (stamped : IsStamped) where
    Responses-OnlyLastFails :
        (items : List (RpcResult M)) → All IsResponse items → OnlyLastFails items
    Responses-OnlyLastFails [] h = tt
    Responses-OnlyLastFails (i ∷ is) h = h.1

    ended-IsInOrder :
        (st : StreamState S M)
        → IsInOrder (false, st)
        → IsInOrder (true, decrement_active_streams st)
    unfolding decrement_active_streams
    ended-IsInOrder st h = (h.0, Responses-OnlyLastFails st.sent h.1)

    deliver-IsInOrder :
        (item : RpcResult M) (st : StreamState S M)
        → Descending task.query.from_revision st.cursor_revision (revisions stamp (item ∷ st.sent))
        → IsInOrder (false, st)
        → IsInOrder (deliver task item st)
    unfolding decrement_active_streams
    deliver-IsInOrder (response m) st later h =
        deliver-response task IsInOrder m st (ended-IsInOrder st h) (later, (tt, h.1))
    deliver-IsInOrder (failure e) st later h =
        deliver-failure task IsInOrder e st (ended-IsInOrder st h) (later, h.1)

    Descending-push :
        (from cursor revision : ℕ) (rs : List ℕ)
        → cursor < revision
        → Descending from cursor rs
        → Descending from (max cursor revision) (revision ∷ rs)
    Descending-push from cursor revision rs later h = (
      omega (arith, later),
      omega (arith, later),
      Descending-mono from cursor (revision - 1) rs (omega (arith, later)) h,
    )

    -- An item for an event with a later revision, from a state that has moved to it.
    send-IsInOrder :
        (from cursor revision : ℕ) (item : RpcResult M) (items : List (RpcResult M))
        → cursor < revision
        → ((m : M) → item ≡ response m → stamp m ≡ some revision)
        → Descending from cursor (revisions stamp items)
        → Descending from (max cursor revision) (revisions stamp (item ∷ items))
    send-IsInOrder from cursor revision (response m) items later stamps h =
        rw (stamps m refl) (Descending-push from cursor revision (revisions stamp items) later h)
    send-IsInOrder from cursor revision (failure e) items later stamps h =
        Descending-mono from cursor (max cursor revision) (revisions stamp items)
          (omega (arith, later)) h

    moved-IsInOrder :
        (e : DiscoveryEvent) (st : StreamState S M)
        → IsInOrder (false, st)
        → IsInOrder (false, moved_to e st)
    moved-IsInOrder e st h = (
      Descending-mono task.query.from_revision st.cursor_revision
          (max st.cursor_revision e.revision) (revisions stamp st.sent) (omega arith) h.0,
      h.1,
    )

    answers-IsInOrder :
        (e : DiscoveryEvent) (st : StreamState S M)
        → st.cursor_revision < e.revision
        → IsInOrder (false, st)
        → IsInOrder
            (deliver task (answer task e (moved_to e st)).0 (answer task e (moved_to e st)).1)
    answers-IsInOrder e st later h =
        let a = answer task e (moved_to e st) in
        deliver-IsInOrder a.0 a.1
          (send-IsInOrder task.query.from_revision st.cursor_revision e.revision a.0 st.sent later
            (stamped.of_answer e (moved_to e st)) h.0)
          (moved-IsInOrder e st h)

    beats-IsInOrder :
        (now : ℕ) (st : StreamState S M)
        → IsInOrder (false, st)
        → IsInOrder (deliver task (response (task.heartbeat now st.cursor_revision)) st)
    beats-IsInOrder now st h =
        deliver-IsInOrder (response (task.heartbeat now st.cursor_revision)) st
          (rw (stamped.of_heartbeat now st.cursor_revision) h.0) h

    keeps-IsInOrder : Keeps task IsInOrder
    unfolding decrement_active_streams
    keeps-IsInOrder = record {
      events = record {
        passes = λ e st later h. moved-IsInOrder e st h;
        answers = λ e st later matching h. answers-IsInOrder e st later h;
        requests = λ r st h. h;
        fails = λ e st h. deliver-IsInOrder (failure e) st h.0 h;
      };
      beats = beats-IsInOrder;
      closes = ended-IsInOrder;
      drains = λ st h. h;
    }

    pub spawn-IsInOrder :
        (events : List DiscoveryEvent) (wakes : List Wake) (r : Runtime S)
        → IsInOrder (spawn task events wakes r)
    spawn-IsInOrder events wakes r =
        spawn-Keeps task IsInOrder keeps-IsInOrder events wakes r (omega arith, tt)
