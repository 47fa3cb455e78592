-- ===== src/Memory/Reads.antt =====
-- crates/sdkwork-discovery-storage-memory/src/registry.rs: the operations that read the instances.
use sdkwork_discovery.Prelude.{
  ℕ, ◌+◌, String, Bool, true, false, not, ◌&&◌, ◌||◌, Option, none, some, List, [], ◌∷◌, max,
}
use sdkwork_discovery.Prelude.Lists.{retain}
use sdkwork_discovery.Prelude.Map.{Map, get, insert, values}
use sdkwork_discovery.Prelude.Sort.{sort_by}
use sdkwork_discovery.Prelude.Text.{text_leb}
use sdkwork_discovery.Prelude.Tests.{◌==◌, ltb, if◌then◌else◌, text_eq}
use sdkwork_discovery.Contract.Error.{DiscoveryResult, ok, ◌>>◌}
use sdkwork_discovery.Contract.Registry.{
  ServiceInstance, DiscoverInstancesQuery, DiscoverInstancesResult, RetrieveInstanceQuery,
  ServiceSummary, ListServicesQuery, ListServicesResult, is_discoverable,
}
use sdkwork_discovery.Contract.Discover.{finalize_discover_instances, finalize_list_services}
use sdkwork_discovery.Memory.Store.{
  MemoryDiscoveryStore, InstanceKey, instance_key_eq, validate_non_empty,
}

unfoldable pub validate_optional_filter : String → Option String → DiscoveryResult (Unit {0})
validate_optional_filter field none = ok tt
validate_optional_filter field (some value) = validate_non_empty field value

abbrev is_none_or_eq : Option String → String → Bool
is_none_or_eq none actual = true
is_none_or_eq (some wanted) actual = actual == wanted

-- The filter of `discover_instances`.
unfoldable pub is_candidate : DiscoverInstancesQuery → ℕ → ServiceInstance → Bool
is_candidate query now_ms i =
    i.namespace == query.namespace
    && i.environment == query.environment
    && i.service_name == query.service_name
    && is_none_or_eq query.protocol i.protocol
    && ltb now_ms i.expires_at_ms
    && (not query.healthy_only || is_discoverable i.status)

unfoldable pub validate_discover : DiscoverInstancesQuery → DiscoveryResult (Unit {0})
validate_discover query = do
  validate_non_empty "namespace" query.namespace
  validate_non_empty "environment" query.environment
  validate_non_empty "service_name" query.service_name
  validate_optional_filter "protocol" query.protocol

unfoldable pub discover_instances :
    (ℕ → ℕ → ℕ)
    → MemoryDiscoveryStore
    → DiscoverInstancesQuery
    → ℕ
    → DiscoveryResult DiscoverInstancesResult
discover_instances hash s query now_ms = do
  validate_discover query
  ok (
      finalize_discover_instances hash (retain (is_candidate query now_ms) (values s.instances))
        query s.revision)

abbrev pub retrieve_key : RetrieveInstanceQuery → InstanceKey
retrieve_key query = record {
  namespace = query.namespace;
  environment = query.environment;
  service_name = query.service_name;
  instance_id = query.instance_id;
}

-- `Option::filter` by the lease.
abbrev pub if_alive : ℕ → Option ServiceInstance → Option ServiceInstance
if_alive now_ms none = none
if_alive now_ms (some i) = if ltb now_ms i.expires_at_ms then some i else none

unfoldable pub retrieve_instance :
    MemoryDiscoveryStore → RetrieveInstanceQuery → ℕ → DiscoveryResult (Option ServiceInstance)
retrieve_instance s query now_ms = do
  validate_non_empty "namespace" query.namespace
  validate_non_empty "environment" query.environment
  validate_non_empty "service_name" query.service_name
  validate_non_empty "instance_id" query.instance_id
  ok (if_alive now_ms (get (retrieve_key query) s.instances))

abbrev empty_summary : ServiceInstance → ServiceSummary
empty_summary i = record {
  namespace = i.namespace;
  environment = i.environment;
  service_name = i.service_name;
  active_instance_count = 0;
  latest_revision = 0;
}

-- `entry(...).or_insert_with(...)`
abbrev summary_or : ServiceInstance → Option ServiceSummary → ServiceSummary
summary_or i none = empty_summary i
summary_or i (some summary) = summary

unfoldable pub count_instance :
    ServiceInstance → Map String ServiceSummary → Map String ServiceSummary
count_instance i services =
    let summary = summary_or i (get i.service_name services) in
    insert i.service_name
      (record summary {
        active_instance_count = summary.active_instance_count + 1;
        latest_revision = max summary.latest_revision i.revision;
      })
      services

-- The loop of `list_services`.
unfoldable pub summarize :
    ListServicesQuery
    → ℕ
    → List ServiceInstance
    → Map String ServiceSummary
    → Map String ServiceSummary
unfolding count_instance
summarize query now_ms [] services = services
summarize query now_ms (i ∷ is) services = summarize query now_ms is (
    if i.namespace == query.namespace
      && i.environment == query.environment
      && ltb now_ms i.expires_at_ms
    then count_instance i services
    else services)

-- `BTreeMap::into_values`: in the order of the keys.
abbrev pub into_values : Map String ServiceSummary → List ServiceSummary
into_values services = values (sort_by (λ a b. text_leb a.0 b.0) services)

unfoldable pub list_services :
    MemoryDiscoveryStore → ListServicesQuery → ℕ → DiscoveryResult ListServicesResult
list_services s query now_ms = do
  validate_non_empty "namespace" query.namespace
  validate_non_empty "environment" query.environment
  ok (
      finalize_list_services (into_values (summarize query now_ms (values s.instances) []))
        s.revision query)

abbrev has_health_check : ServiceInstance → Bool
has_health_check i = elim i.health_check [ none ↦ false | some config ↦ true ]

unfoldable pub list_active_instances_with_health_check :
    MemoryDiscoveryStore → ℕ → DiscoveryResult (List ServiceInstance)
list_active_instances_with_health_check s now_ms =
    ok (retain (λ i. has_health_check i && ltb now_ms i.expires_at_ms) (values s.instances))
