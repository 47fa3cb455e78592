-- ===== src/Memory/Watch.antt =====
-- crates/sdkwork-discovery-storage-memory/src/watch.rs: reading, collecting and compacting events.
use sdkwork_discovery.Prelude.{
  ℕ, zero, suc, ◌+◌, ◌-◌, String, not, ◌&&◌, Option, none, some, List, [], ◌∷◌, ◌++◌,
}
use sdkwork_discovery.Prelude.Lists.{length, take, retain}
use sdkwork_discovery.Prelude.Map.{Map, get, insert, values}
use sdkwork_discovery.Prelude.Sort.{sort_by}
use sdkwork_discovery.Prelude.Tests.{◌==◌, ltb, leb, nat_beq, if◌then◌else◌, text_eq}
use sdkwork_discovery.Contract.Error.{DiscoveryResult, ok, err, ◌>>◌, ensure, invalid_argument, Op}
use sdkwork_discovery.Contract.Event.{DiscoveryEvent, WatchEventsQuery, matches_event}
use sdkwork_discovery.Memory.Store.{MemoryDiscoveryStore, validate_non_empty}
use sdkwork_discovery.Memory.Reads.{validate_optional_filter}
use mathlib.Core.List.{reverse}

unfoldable pub validate_watch_query : WatchEventsQuery → DiscoveryResult (Unit {0})
validate_watch_query query = do
  validate_non_empty "namespace" query.namespace
  validate_non_empty "environment" query.environment
  validate_optional_filter "service_name" query.service_name
  validate_optional_filter "config_group" query.config_group
  validate_optional_filter "config_application" query.config_application
  ensure (not (nat_beq query.max_events 0))
      (invalid_argument "max_events must be greater than zero")

unfoldable pub watch_events :
    MemoryDiscoveryStore → WatchEventsQuery → DiscoveryResult (List DiscoveryEvent)
watch_events s query = do
  validate_watch_query query
  ok (take query.max_events (retain (matches_event query) s.events))

-- The `retain` of `gc_watch_events`, with its counter: the events that stay, and the new count.
unfoldable pub gc_loop : ℕ → ℕ → ℕ → List DiscoveryEvent → List DiscoveryEvent × ℕ
gc_loop before_revision max_deletes removed [] = ([], removed)
gc_loop before_revision max_deletes removed (e ∷ es) =
    let hit = leb e.revision before_revision && ltb removed max_deletes in
    let (rest, count) =
      gc_loop before_revision max_deletes (if hit then removed + 1 else removed) es in
    (if hit then rest else e ∷ rest, count)

unfoldable pub gc_watch_events : ℕ → ℕ → Op MemoryDiscoveryStore ℕ
gc_watch_events before_revision max_deletes s =
    if nat_beq max_deletes 0
    then (err (invalid_argument "max_deletes must be greater than zero"), s)
    else let (kept, removed) = gc_loop before_revision max_deletes 0 s.events in
      (ok removed, record s { events = kept })

abbrev or_default : Option (List ℕ) → List ℕ
or_default none = []
or_default (some indices) = indices

-- The indices of the events of a namespace and environment, by resource.
unfoldable pub group_from :
    String → String → ℕ → List DiscoveryEvent → Map String (List ℕ) → Map String (List ℕ)
group_from namespace environment idx [] groups = groups
group_from namespace environment idx (e ∷ es) groups =
    group_from namespace environment (idx + 1) es (
      if e.namespace == namespace && e.environment == environment
      then insert e.resource_id (or_default (get e.resource_id groups) ++ idx ∷ []) groups
      else groups)

-- All but the last `keep` indices of each group.
unfoldable pub surplus : ℕ → List (List ℕ) → List ℕ
surplus keep [] = []
surplus keep (indices ∷ groups) =
    let rest = surplus keep groups in
    if ltb keep (length indices) then take (length indices - keep) indices ++ rest else rest

-- `Vec::remove`, whose index is in range here.
unfoldable pub remove_at : ℕ → List DiscoveryEvent → List DiscoveryEvent
remove_at n [] = []
remove_at zero (e ∷ es) = es
remove_at (suc n) (e ∷ es) = e ∷ remove_at n es

unfoldable pub remove_all_at : List ℕ → List DiscoveryEvent → List DiscoveryEvent
unfolding remove_at
remove_all_at [] events = events
remove_all_at (i ∷ is) events = remove_all_at is (remove_at i events)

unfoldable pub compact_watch_events : String → String → ℕ → Op MemoryDiscoveryStore ℕ
compact_watch_events namespace environment max_events_per_resource s =
    let groups = group_from namespace environment 0 s.events [] in
    let indices = reverse (sort_by leb (surplus max_events_per_resource (values groups))) in
    let events = remove_all_at indices s.events in
    (ok (length s.events - length events), record s { events = events })
