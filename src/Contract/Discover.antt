-- ===== src/Contract/Discover.antt =====
-- crates/sdkwork-discovery-contract/src/registry.rs: label filters, and the filter, order and page
-- of a result. Rust's `DefaultHasher` is the parameter `hash`.
use Prim.Native.Char.{code}
use sdkwork_discovery.Prelude.{
  ℕ, zero, suc, ◌+◌, ◌%◌, String, Bool, true, false, not, ◌||◌, Option, none, some, List, [], ◌∷◌,
  ◌++◌,
}
use sdkwork_discovery.Prelude.Lists.{length, take, retain, every}
use sdkwork_discovery.Prelude.Map.{Map, get}
use sdkwork_discovery.Prelude.Sort.{sort_by}
use sdkwork_discovery.Prelude.Tests.{leb, ltb, nat_beq, if◌then◌else◌, option_beq, text_eq}
use sdkwork_discovery.Prelude.Text.{text_leb}
use sdkwork_discovery.Contract.Pagination.{normalize_page_size, paginate_sorted_keys}
use sdkwork_discovery.Contract.Registry.{
  ServiceInstance, DiscoverInstancesQuery, DiscoverInstancesResult, DiscoverSortBy, by_instance_id,
  by_priority, by_weight, by_weighted_random, LabelFilter, LabelFilterOp, eq, not_eq, in_list,
  exists, ServiceSummary, ListServicesQuery, ListServicesResult,
}

abbrev push_front_char : ℕ → List (List ℕ) → List (List ℕ)
push_front_char c [] = (c ∷ []) ∷ []
push_front_char c (piece ∷ pieces) = (c ∷ piece) ∷ pieces

-- `value.split(',')`, as code points.
unfoldable pub split_commas : String → List (List ℕ)
split_commas String.[] = [] ∷ []
split_commas (String.◌∷◌ c s) =
    let rest = split_commas s in
    if nat_beq (code c) b',' then [] ∷ rest else push_front_char (code c) rest

abbrev codes : String → List ℕ
codes String.[] = []
codes (String.◌∷◌ c s) = code c ∷ codes s

abbrev codes_beq : List ℕ → List ℕ → Bool
codes_beq [] [] = true
codes_beq [] (d ∷ t) = false
codes_beq (c ∷ s) [] = false
codes_beq (c ∷ s) (d ∷ t) = let rest = codes_beq s t in if nat_beq c d then rest else false

-- `values.contains(&v)`
abbrev contains_codes : List (List ℕ) → List ℕ → Bool
contains_codes [] v = false
contains_codes (w ∷ ws) v = codes_beq w v || contains_codes ws v

abbrev is_some_and : Option String → (String → Bool) → Bool
is_some_and none p = false
is_some_and (some v) p = p v

abbrev matches_op : LabelFilterOp → String → Option String → Bool
matches_op eq value found = option_beq found (some value)
matches_op not_eq value found = not (option_beq found (some value))
matches_op in_list value found =
    is_some_and found (λ v. contains_codes (split_commas value) (codes v))
matches_op exists value found = is_some_and found (λ v. true)

unfoldable pub matches : LabelFilter → Map String String → Bool
unfolding split_commas
matches filter metadata = matches_op filter.op filter.value (get filter.key metadata)

unfoldable pub instance_id_leb : ServiceInstance → ServiceInstance → Bool
instance_id_leb a b = text_leb a.instance_id b.instance_id

-- Heavier first, then by id.
unfoldable pub weight_leb : ServiceInstance → ServiceInstance → Bool
weight_leb a b =
    if nat_beq a.weight b.weight
    then text_leb a.instance_id b.instance_id
    else ltb b.weight a.weight

-- Lower priority value first, then heavier, then by id.
unfoldable pub priority_leb : ServiceInstance → ServiceInstance → Bool
unfolding weight_leb
priority_leb a b =
    if nat_beq a.priority b.priority then weight_leb a b else ltb a.priority b.priority

abbrev pub total_weight : List ServiceInstance → ℕ
total_weight [] = 0
total_weight (i ∷ is) = i.weight + total_weight is

-- The index of the first instance at which the running sum of weights exceeds the target, 0 if none does.
unfoldable pub select_index : ℕ → ℕ → ℕ → List ServiceInstance → ℕ
select_index target idx cumulative [] = 0
select_index target idx cumulative (i ∷ is) =
    let rest = select_index target (idx + 1) (cumulative + i.weight) is in
    if ltb target (cumulative + i.weight) then idx else rest

-- `remaining.remove(idx)`: the element, and the others.
unfoldable pub remove_index :
    ℕ → List ServiceInstance → Option (ServiceInstance × List ServiceInstance)
remove_index n [] = none
remove_index zero (i ∷ is) = some (i, is)
remove_index (suc n) (i ∷ is) = elim (remove_index n is) [
  | none ↦ none
  | some (x, rest) ↦ some (x, i ∷ rest)
]

-- The `while` loop of `weighted_shuffle_discover_instances`, on fuel; each round takes one instance.
unfoldable pub shuffle_loop :
    (ℕ → ℕ → ℕ) → ℕ → List ServiceInstance → List ServiceInstance → List ServiceInstance
unfolding select_index remove_index
shuffle_loop hash zero remaining result = result ++ remaining
shuffle_loop hash (suc fuel) remaining result =
    let current_weight = total_weight remaining in
    if nat_beq current_weight 0
    then result ++ remaining
    else let target = hash (length remaining) (length result) % current_weight in
      elim (remove_index (select_index target 0 0 remaining) remaining) [
        | none ↦ result ++ remaining
        | some (x, rest) ↦ shuffle_loop hash fuel rest (result ++ x ∷ [])
      ]

unfoldable pub weighted_shuffle_discover_instances :
    (ℕ → ℕ → ℕ) → List ServiceInstance → List ServiceInstance
unfolding shuffle_loop
weighted_shuffle_discover_instances hash instances =
    if nat_beq (total_weight instances) 0
    then instances
    else shuffle_loop hash (length instances) instances []

-- The order that `sort_by` of the query asks for.
abbrev pub sort_test : Option DiscoverSortBy → ServiceInstance → ServiceInstance → Bool
sort_test none = instance_id_leb
sort_test (some by_instance_id) = instance_id_leb
sort_test (some by_priority) = priority_leb
sort_test (some by_weight) = weight_leb
sort_test (some by_weighted_random) = λ a b. leb a.priority b.priority

abbrev pub is_weighted_random : Option DiscoverSortBy → Bool
is_weighted_random none = false
is_weighted_random (some by_instance_id) = false
is_weighted_random (some by_priority) = false
is_weighted_random (some by_weight) = false
is_weighted_random (some by_weighted_random) = true

unfoldable pub matches_all : DiscoverInstancesQuery → ServiceInstance → Bool
matches_all query i = every (λ filter. matches filter i.metadata) query.label_filters

unfoldable pub finalize_discover_instances :
    (ℕ → ℕ → ℕ) → List ServiceInstance → DiscoverInstancesQuery → ℕ → DiscoverInstancesResult
finalize_discover_instances hash instances query revision =
    let sorted = sort_by (sort_test query.sort_by) (retain (matches_all query) instances) in
    let (page, next_page_token) =
      paginate_sorted_keys (λ i. i.instance_id) sorted query.page_size query.page_token in
    if is_weighted_random query.sort_by
    then record {
      revision = revision;
      instances =
          take (normalize_page_size query.page_size)
            (weighted_shuffle_discover_instances hash sorted);
      next_page_token = none;
    }
    else record { revision = revision; instances = page; next_page_token = next_page_token }

unfoldable pub service_name_leb : ServiceSummary → ServiceSummary → Bool
service_name_leb a b = text_leb a.service_name b.service_name

unfoldable pub finalize_list_services :
    List ServiceSummary → ℕ → ListServicesQuery → ListServicesResult
finalize_list_services services revision query =
    let (page, next_page_token) =
      paginate_sorted_keys (λ s. s.service_name) (sort_by service_name_leb services) query.page_size
        query.page_token in
    record { revision = revision; services = page; next_page_token = next_page_token }
