-- ===== src/Memory/Log/Resume.antt =====
-- crates/sdkwork-discovery-storage-memory/src/watch.rs: reading on behind the last event of a page.
use sdkwork_discovery.Prelude.{
  ℕ, zero, suc, ◌<◌, ◌≡◌, refl, sym, ap, ◌∙◌, Bool, ◌&&◌, some, List, [], ◌∷◌, arith, inl, inr,
}
use sdkwork_discovery.Prelude.Lists.{All, take, drop, last, retain}
use sdkwork_discovery.Prelude.Tests.{ltb, Bool-cases}
use sdkwork_discovery.Contract.Error.{ok, Result-cases}
use sdkwork_discovery.Contract.Event.{DiscoveryEvent, WatchEventsQuery, matches_event}
use mathlib.Core.Path.{subst}
use sdkwork_discovery.Memory.Store.{MemoryDiscoveryStore}
use sdkwork_discovery.Memory.Watch.{watch_events, validate_watch_query}
use sdkwork_discovery.Memory.Log.{Ascending, IsOrdered}

abbrev is_after : ℕ → DiscoveryEvent → Bool
is_after n e = ltb n e.revision

All-retain :
    (P : DiscoveryEvent → Type 0) (p : DiscoveryEvent → Bool) (es : List DiscoveryEvent)
    → All P es
    → All P (retain p es)
All-retain P p [] h = tt
All-retain P p (e ∷ es) h = elim (Bool-cases (p e)) [
  | inl t ↦ rw t (h.0, All-retain P p es h.1)
  | inr f ↦ rw f (All-retain P p es h.1)
]

Ascending-retain :
    (p : DiscoveryEvent → Bool) (es : List DiscoveryEvent) → Ascending es → Ascending (retain p es)
Ascending-retain p [] h = tt
Ascending-retain p (e ∷ es) h = elim (Bool-cases (p e)) [
  | inl t ↦ rw t (All-retain _ p es h.0, Ascending-retain p es h.1)
  | inr f ↦ rw f (Ascending-retain p es h.1)
]

retain-All_after :
    (n : ℕ) (es : List DiscoveryEvent) → All (λ f. n < f.revision) es → retain (is_after n) es ≡ es
retain-All_after n [] h = refl
retain-All_after n (e ∷ es) h = ground (arith, h.0, retain-All_after n es h.1)

last-after :
    (m : ℕ) (es : List DiscoveryEvent) {e : DiscoveryEvent} (n : ℕ)
    → All (λ f. n < f.revision) es
    → last (take m es) ≡ some e
    → n < e.revision
last-after zero es n h l = absurd cc
last-after (suc m) [] n h l = absurd cc
last-after (suc zero) (f ∷ es) n h l = ground (arith, h.0)
last-after (suc (suc m)) (f ∷ []) n h l = ground (arith, h.0)
last-after (suc (suc m)) (f ∷ g ∷ es) n h l = last-after (suc m) (g ∷ es) n h.1 l

some_injective : {a b : DiscoveryEvent} → some a ≡ some b → a ≡ b
some_injective h = cc

-- In an ascending list, the events behind the last of a page are those of a later revision.
retain-last :
    (m : ℕ) (es : List DiscoveryEvent) {e : DiscoveryEvent}
    → Ascending es
    → last (take m es) ≡ some e
    → retain (is_after e.revision) es ≡ drop m es
retain-last zero es h l = absurd cc
retain-last (suc m) [] h l = absurd cc
retain-last (suc zero) (f ∷ es) {e} h l =
    let r : f.revision ≡ e.revision = ap (λ x. x.revision) (some_injective l) in
    ground
      (arith, r, retain-All_after e.revision es (subst (λ n. All (λ x. n < x.revision) es) r h.0))
retain-last (suc (suc m)) (f ∷ []) {e} h l =
    let r : f.revision ≡ e.revision = ap (λ x. x.revision) (some_injective l) in ground (arith, r)
retain-last (suc (suc m)) (f ∷ g ∷ es) {e} h l =
    let later : f.revision < e.revision = last-after (suc m) (g ∷ es) f.revision h.0 l in
    ground (arith, later, retain-last (suc m) (g ∷ es) h.1 l)

-- The query that goes on behind an event.
abbrev pub resume : WatchEventsQuery → DiscoveryEvent → WatchEventsQuery
resume query e = record query { from_revision = e.revision }

matches_event-resume :
    (query : WatchEventsQuery) (e f : DiscoveryEvent)
    → query.from_revision < e.revision
    → matches_event (resume query e) f ≡ (matches_event query f && is_after e.revision f)
unfolding matches_event
matches_event-resume query e f h = ground arith

retain-resume :
    (query : WatchEventsQuery) (e : DiscoveryEvent) (es : List DiscoveryEvent)
    → query.from_revision < e.revision
    → retain (matches_event (resume query e)) es
      ≡ retain (is_after e.revision) (retain (matches_event query) es)
retain-resume query e [] h = refl
retain-resume query e (f ∷ es) h =
    ground (arith, matches_event-resume query e f h, retain-resume query e es h)

retain-after_from :
    (query : WatchEventsQuery) (es : List DiscoveryEvent)
    → All (λ f. query.from_revision < f.revision) (retain (matches_event query) es)
unfolding matches_event
retain-after_from query [] = tt
retain-after_from query (e ∷ es) = elim (Bool-cases (matches_event query e)) [
  | inl t ↦ rw t (ground arith, retain-after_from query es)
  | inr f ↦ rw f (retain-after_from query es)
]

-- A client that reads a page of an ordered log and goes on behind its last event gets the events
-- that the page left out, from the first of these on: no event twice, and none missing.
pub watch-resumes :
    (s : MemoryDiscoveryStore) (query : WatchEventsQuery) (page : List DiscoveryEvent)
    (e : DiscoveryEvent)
    → IsOrdered s
    → watch_events s query ≡ ok page
    → last page ≡ some e
    → (page ≡ take query.max_events (retain (matches_event query) s.events))
      × (watch_events s (resume query e)
          ≡ ok (
              take query.max_events
                (drop query.max_events (retain (matches_event query) s.events))))
unfolding watch_events validate_watch_query
watch-resumes s query page e o h l = elim (Result-cases (validate_watch_query query)) [
  | inl (x, f) ↦ absurd (ground (arith, rw (f, watch_events) at h))
  | inr (u, f) ↦
      let all = retain (matches_event query) s.events in
      let shape : take query.max_events all ≡ page = ground (arith, rw (f, watch_events) at h) in
      let at_end : last (take query.max_events all) ≡ some e = ap last shape ∙ l in
      let later : query.from_revision < e.revision =
        last-after query.max_events all query.from_revision (retain-after_from query s.events)
          at_end in
      let ordered = Ascending-retain (matches_event query) s.events o.ascending in
      let rest =
        retain-resume query e s.events later ∙ retain-last query.max_events all ordered at_end in
      let valid : validate_watch_query (resume query e) ≡ ok u = f in
      (sym shape, rw (valid, rest, watch_events) refl)
]
