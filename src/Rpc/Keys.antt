-- ===== src/Rpc/Keys.antt =====
-- crates/sdkwork-discovery-rpc/src/actor.rs: the keys under which the answers to reads are cached.
-- `debug` is the standard library's `{:?}` of an optional text.
use sdkwork_discovery.Prelude.{String, Bool, true, false, Option, none, some, List, [], ◌∷◌}
use sdkwork_discovery.Prelude.Text.{str_append, decimal, concat}
use sdkwork_discovery.Contract.Registry.{
  DiscoverInstancesQuery, RetrieveInstanceQuery, ListServicesQuery, LabelFilter, LabelFilterOp,
  DiscoverSortBy, eq, not_eq, in_list, exists, by_instance_id, by_priority, by_weight,
  by_weighted_random,
}
use sdkwork_discovery.Contract.Config.{RetrieveEffectiveConfigQuery}
use sdkwork_discovery.Contract.Event.{WatchEventsQuery}

abbrev bool_text : Bool → String
bool_text true = "true"
bool_text false = "false"

-- The derived `Debug` of the two enumerations: the names of the variants.
abbrev filter_op_text : LabelFilterOp → String
filter_op_text eq = "Eq"
filter_op_text not_eq = "NotEq"
filter_op_text in_list = "In"
filter_op_text exists = "Exists"

abbrev sort_by_text : DiscoverSortBy → String
sort_by_text by_instance_id = "InstanceId"
sort_by_text by_priority = "Priority"
sort_by_text by_weight = "Weight"
sort_by_text by_weighted_random = "WeightedRandom"

unfoldable pub filters_text : List LabelFilter → String
unfolding concat
filters_text [] = ""
filters_text (f ∷ fs) =
    concat (":lf:" ∷ f.key ∷ ":" ∷ filter_op_text f.op ∷ ":" ∷ f.value ∷ filters_text fs ∷ [])

abbrev sort_text : Option DiscoverSortBy → String
sort_text none = ""
sort_text (some s) = str_append ":sort:" (sort_by_text s)

abbrev token_text : Option String → String
token_text none = ""
token_text (some t) = str_append ":page_token=" t

module _ (debug : Option String → String) where
  unfoldable pub discover_cache_key : DiscoverInstancesQuery → String
  unfolding concat filters_text
  discover_cache_key q = concat (
      "discover:"
      ∷ q.namespace
      ∷ ":"
      ∷ q.environment
      ∷ ":"
      ∷ q.service_name
      ∷ ":healthy="
      ∷ bool_text q.healthy_only
      ∷ ":protocol="
      ∷ debug q.protocol
      ∷ filters_text q.label_filters
      ∷ sort_text q.sort_by
      ∷ ":page_size="
      ∷ decimal q.page_size
      ∷ token_text q.page_token
      ∷ [])

  unfoldable pub retrieve_instance_cache_key : RetrieveInstanceQuery → String
  unfolding concat
  retrieve_instance_cache_key q = concat (
      "retrieve:" ∷ q.namespace ∷ ":" ∷ q.environment ∷ ":" ∷ q.service_name ∷ ":" ∷ q.instance_id
      ∷ [])

  unfoldable pub list_services_cache_key : ListServicesQuery → String
  unfolding concat
  list_services_cache_key q = concat (
      "list:"
      ∷ q.namespace
      ∷ ":"
      ∷ q.environment
      ∷ ":page_size="
      ∷ decimal q.page_size
      ∷ ":page_token="
      ∷ debug q.page_token
      ∷ [])

  unfoldable pub effective_config_cache_key : RetrieveEffectiveConfigQuery → String
  unfolding concat
  effective_config_cache_key q = concat (
      "config:" ∷ q.namespace ∷ ":" ∷ q.environment ∷ ":" ∷ q.application ∷ ":" ∷ q.service_name
      ∷ ":" ∷ q.group ∷ [])

  unfoldable pub watch_events_cache_key : WatchEventsQuery → String
  unfolding concat
  watch_events_cache_key q = concat (
      "watch:"
      ∷ q.namespace
      ∷ ":"
      ∷ q.environment
      ∷ ":from="
      ∷ decimal q.from_revision
      ∷ ":max="
      ∷ decimal q.max_events
      ∷ ":service="
      ∷ debug q.service_name
      ∷ ":group="
      ∷ debug q.config_group
      ∷ ":application="
      ∷ debug q.config_application
      ∷ [])
