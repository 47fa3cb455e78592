-- ===== src/Memory/Collect.antt =====
-- What `gc_watch_events` of crates/sdkwork-discovery-storage-memory/src/watch.rs collects.
use sdkwork_discovery.Prelude.{
  ℕ, zero, suc, ◌+◌, ◌-◌, ◌≤◌, ◌≡◌, refl, Bool, not, List, [], ◌∷◌, arith, ◌⊎◌, inl, inr, ◌<◌,
  false, ◌∙◌, ap,
}
use sdkwork_discovery.Prelude.Lists.{length, drop, retain}
use sdkwork_discovery.Prelude.Tests.{leb, nat_beq}
use sdkwork_discovery.Contract.Error.{ok}
use sdkwork_discovery.Contract.Event.{DiscoveryEvent}
use sdkwork_discovery.Memory.Store.{MemoryDiscoveryStore}
use sdkwork_discovery.Memory.Watch.{gc_loop, gc_watch_events}

-- An event that a collection may take.
abbrev pub is_old : ℕ → DiscoveryEvent → Bool
is_old before_revision e = leb e.revision before_revision

abbrev pub is_recent : ℕ → DiscoveryEvent → Bool
is_recent before_revision e = not (leb e.revision before_revision)

gc_loop-recent :
    (before limit removed : ℕ) (es : List DiscoveryEvent)
    → retain (is_recent before) (gc_loop before limit removed es).0 ≡ retain (is_recent before) es
unfolding gc_loop
gc_loop-recent before limit removed [] = refl
gc_loop-recent before limit removed (e ∷ es) =
    ground
      (arith, gc_loop-recent before limit removed es, gc_loop-recent before limit (removed + 1) es)

Nat-cases : (n : ℕ) → (n ≡ 0) ⊎ ((m : ℕ) × (n ≡ suc m))
Nat-cases zero = inl refl
Nat-cases (suc m) = inr (m, refl)

drop_none : (n : ℕ) (es : List DiscoveryEvent) → n ≡ 0 → drop n es ≡ es
drop_none n es h = rw h refl

gc_loop-old :
    (before limit removed : ℕ) (es : List DiscoveryEvent)
    → retain (is_old before) (gc_loop before limit removed es).0
      ≡ drop (limit - removed) (retain (is_old before) es)
unfolding gc_loop
gc_loop-old before limit removed [] = elim (Nat-cases (limit - removed)) [
  | inl e ↦ rw e refl
  | inr (n, e) ↦ rw e refl
]
gc_loop-old before limit removed (e ∷ es) = elim (Nat-cases (limit - removed)) [
  | inl z ↦ rw z (
      ground (
        arith,
        gc_loop-old before limit removed es,
        drop_none (limit - removed) (retain (is_old before) es) z,
      ))
  | inr (n, z) ↦
      let same = gc_loop-old before limit removed es in
      let next = gc_loop-old before limit (removed + 1) es in
      let one_less : limit - (removed + 1) ≡ n = omega arith in
      rw z (ground (arith, rw z at same, rw one_less at next))
]

gc_loop-count :
    (before limit removed : ℕ) (es : List DiscoveryEvent)
    → length (gc_loop before limit removed es).0 + (gc_loop before limit removed es).1
      ≡ removed + length es
unfolding gc_loop
gc_loop-count before limit removed [] = omega arith
gc_loop-count before limit removed (e ∷ es) =
    ground
      (arith, gc_loop-count before limit removed es, gc_loop-count before limit (removed + 1) es)

gc_loop-bound :
    (before limit removed : ℕ) (es : List DiscoveryEvent)
    → removed ≤ limit
    → (gc_loop before limit removed es).1 ≤ limit
unfolding gc_loop
gc_loop-bound before limit removed [] h = omega arith
gc_loop-bound before limit removed (e ∷ es) h =
    ground
      (arith, gc_loop-bound before limit removed es h, gc_loop-bound before limit (removed + 1) es)

-- A collection with a positive limit takes the first events of the log that are of at most the
-- given revision, as many as the limit allows, and reports how many it took; every event of a
-- later revision stays in its place, and nothing else of the store changes.
pub gc_outcome :
    (s : MemoryDiscoveryStore) (before limit : ℕ)
    → 0 < limit
    → (kept : List DiscoveryEvent) × (removed : ℕ) × (gc_watch_events before limit s
        ≡ (ok removed, record s { events = kept }))
      × (retain (is_recent before) kept ≡ retain (is_recent before) s.events)
      × (retain (is_old before) kept ≡ drop limit (retain (is_old before) s.events))
      × (length kept + removed ≡ length s.events)
      × (removed ≤ limit)
unfolding gc_watch_events
gc_outcome s before limit pos =
    let positive : nat_beq limit 0 ≡ false = ground arith in
    let all : limit - 0 ≡ limit = omega arith in
    (
      (gc_loop before limit 0 s.events).0,
      (gc_loop before limit 0 s.events).1,
      rw positive refl,
      gc_loop-recent before limit 0 s.events,
      gc_loop-old before limit 0 s.events ∙ ap (λ n. drop n (retain (is_old before) s.events)) all,
      omega (arith, gc_loop-count before limit 0 s.events),
      gc_loop-bound before limit 0 s.events (omega arith),
    )
