-- ===== src/Rpc/Published.antt =====
-- crates/sdkwork-discovery-rpc/src/watch.rs over the in-memory store: the events that are published
-- for a revision.
use sdkwork_discovery.Prelude.{
  ℕ, ◌≤◌, ◌<◌, ◌≡◌, refl, ap, String, Bool, true, false, ◌&&◌, List, [], ◌∷◌, arith, inl, inr,
}
use sdkwork_discovery.Prelude.Lists.{All, All-map, take, retain}
use sdkwork_discovery.Prelude.Tests.{◌==◌, text_eq, nat_beq, Bool-cases}
use sdkwork_discovery.Prelude.Text.{is_blank}
use sdkwork_discovery.Contract.Error.{ok}
use sdkwork_discovery.Contract.Event.{DiscoveryEvent, matches_event}
use sdkwork_discovery.Memory.Store.{MemoryDiscoveryStore, validate_non_empty}
use sdkwork_discovery.Memory.Watch.{watch_events, validate_watch_query}
use sdkwork_discovery.Memory.Reads.{validate_optional_filter}
use sdkwork_discovery.Memory.Log.{IsOrdered, Ascending}
use sdkwork_discovery.Core.Store.{memory_ops}
use sdkwork_discovery.Rpc.Watch.{events_for_revision, revision_query}

-- An event of a namespace, environment and revision.
abbrev pub is_event_of : String → String → ℕ → DiscoveryEvent → Bool
is_event_of namespace environment revision e =
    e.namespace == namespace && e.environment == environment && nat_beq e.revision revision

module _ (namespace environment : String) (revision : ℕ) (pos : 0 < revision) where
  abbrev wanted : DiscoveryEvent → Bool
  wanted = is_event_of namespace environment revision

  none-later :
      (es : List DiscoveryEvent) → All (λ f. revision < f.revision) es → retain wanted es ≡ []
  none-later [] h = refl
  none-later (e ∷ es) h =
      let late : nat_beq e.revision revision ≡ false = ground (arith, h.0) in
      rw late (ground (arith, none-later es h.1))

  abbrev is_matched : DiscoveryEvent → Bool
  is_matched = matches_event (revision_query namespace environment revision)

  matched-later :
      (e : DiscoveryEvent)
      → is_matched e ≡ true
      → (revision ≤ e.revision) × (wanted e ≡ nat_beq e.revision revision)
  unfolding matches_event revision_query
  matched-later e h = (ground (arith, h), ground (arith, h))

  unmatched-unwanted : (e : DiscoveryEvent) → is_matched e ≡ false → wanted e ≡ false
  unfolding matches_event revision_query
  unmatched-unwanted e h = ground (arith, h, pos)

  none-after :
      (e : DiscoveryEvent) (es : List DiscoveryEvent)
      → revision ≤ e.revision
      → All (λ f. e.revision < f.revision) es
      → retain wanted es ≡ []
  none-after e es le h = none-later es (All-map (λ f lt. omega (arith, lt, le)) es h)

  first_of_revision :
      (es : List DiscoveryEvent)
      → Ascending es
      → retain (λ e. nat_beq e.revision revision) (take 1 (retain is_matched es)) ≡ retain wanted es
  first_of_revision [] h = refl
  first_of_revision (e ∷ es) h = elim (Bool-cases (is_matched e)) [
    | inr miss ↦ rw (miss, unmatched-unwanted e miss) (first_of_revision es h.1)
    | inl hit ↦
        let (le, same) = matched-later e hit in
        let rest = none-after e es le h.0 in
        elim (Bool-cases (nat_beq e.revision revision)) [
          | inl at ↦ rw (hit, same, at, rest) refl
          | inr past ↦ rw (hit, same, past, rest) refl
        ]
  ]

  valid-query :
      is_blank namespace ≡ false
      → is_blank environment ≡ false
      → validate_watch_query (revision_query namespace environment revision) ≡ ok tt
  unfolding validate_watch_query revision_query validate_non_empty validate_optional_filter
  valid-query hn he = rw (hn, he) refl

  -- In an ordered log, for a positive revision, and a namespace and environment that are not blank:
  -- the events that are looked up for the revision, by a query for one event, are exactly the
  -- events of the log with this namespace, environment and revision.
  pub events_for_revision-exact :
      (hash : ℕ → ℕ → ℕ) (content_hash : String → String) (s : MemoryDiscoveryStore)
      → is_blank namespace ≡ false
      → is_blank environment ≡ false
      → IsOrdered s
      → events_for_revision (memory_ops hash content_hash) s namespace environment revision
        ≡ ok (retain (is_event_of namespace environment revision) s.events)
  unfolding events_for_revision watch_events
  events_for_revision-exact hash content_hash s hn he o =
      let some_revision : nat_beq revision 0 ≡ false = ground (arith, pos) in
      rw (some_revision, valid-query hn he) (ap ok (first_of_revision s.events o.ascending))
