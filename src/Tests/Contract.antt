-- ===== src/Tests/Contract.antt =====
-- Concrete inputs for the theorems on pages, discoveries and shuffles.
use sdkwork_discovery.Prelude.{
  ℕ, ◌≡◌, ◌≢◌, refl, sym, ap, ◌∙◌, String, false, none, some, List, [], ◌∷◌, arith, inl, inr, ◌⊎◌,
}
use sdkwork_discovery.Contract.Registry.{ServiceInstance, DiscoverInstancesQuery, by_weight}
use sdkwork_discovery.Contract.Discover.{
  finalize_discover_instances, weighted_shuffle_discover_instances, shuffle_loop,
}
use sdkwork_discovery.Contract.Pagination.Walk.{walk, walk-all, AreKeyed}
use sdkwork_discovery.Contract.Unordered.{finalize-perm}
use sdkwork_discovery.Contract.Shuffle.{shuffle_loop-ends, shuffle-perm}
use sdkwork_discovery.Tests.Data.{instance_1, texts_differ}
use mathlib.Core.List.{Memᴰ, Permᴰ}
use mathlib.Core.List.Memᴰ

abbrev names : List String
names = "a" ∷ "b" ∷ "c" ∷ []

abbrev own_key : String → String
own_key name = name

names-AreKeyed : AreKeyed own_key names
names-AreKeyed = (
  texts_differ "a" "" refl,
  (texts_differ "a" "b" refl, (texts_differ "a" "c" refl, tt)),
  (texts_differ "b" "" refl, (texts_differ "b" "c" refl, tt), (texts_differ "c" "" refl, tt, tt)),
)

walk-all_example : walk own_key 4 names 2 none ≡ names
walk-all_example = walk-all own_key names 2 names-AreKeyed 4 (omega arith)

abbrev instance_2 : ServiceInstance
instance_2 = record instance_1 { instance_id = "orders-2"; lease_id = "lease-2"; weight = 20 }

abbrev query : DiscoverInstancesQuery
query = record {
  namespace = "acme";
  environment = "prod";
  service_name = "orders";
  healthy_only = false;
  protocol = none;
  label_filters = [];
  sort_by = some by_weight;
  page_size = 1;
  page_token = none;
}

abbrev hash : ℕ → ℕ → ℕ
hash m n = 7

one_of :
    {a : ServiceInstance}
    → Memᴰ a (instance_1 ∷ instance_2 ∷ [])
    → (a ≡ instance_1) ⊎ (a ≡ instance_2)
one_of m = elim (Memᴰ.cases_cons m) [ inl e ↦ inl e | inr n ↦ inr (Memᴰ.eq_of_singleton n) ]

same_id :
    (a b : ServiceInstance)
    → Memᴰ a (instance_1 ∷ instance_2 ∷ [])
    → Memᴰ b (instance_1 ∷ instance_2 ∷ [])
    → a.instance_id ≡ b.instance_id
    → a ≡ b
same_id a b m n e = elim (one_of m) [
  | inl f ↦ elim (one_of n) [
    | inl g ↦ f ∙ sym g
    | inr g ↦ absurd (apart (sym (ap (λ i. i.instance_id) f) ∙ e ∙ ap (λ i. i.instance_id) g))
  ]
  | inr f ↦ elim (one_of n) [
    | inl g ↦ absurd (apart (sym (ap (λ i. i.instance_id) g) ∙ sym e ∙ ap (λ i. i.instance_id) f))
    | inr g ↦ f ∙ sym g
  ]
]
  where
    apart : instance_1.instance_id ≢ instance_2.instance_id
    apart = texts_differ "orders-1" "orders-2" refl

finalize-perm_example :
    finalize_discover_instances hash (instance_1 ∷ instance_2 ∷ []) query 9
    ≡ finalize_discover_instances hash (instance_2 ∷ instance_1 ∷ []) query 9
finalize-perm_example = finalize-perm hash query 9 refl (Permᴰ.swap refl refl) same_id

shuffle-perm_example :
    Permᴰ
      (weighted_shuffle_discover_instances hash (instance_1 ∷ instance_2 ∷ []))
      (instance_1 ∷ instance_2 ∷ [])
shuffle-perm_example = shuffle-perm hash (instance_1 ∷ instance_2 ∷ [])

shuffle_loop-ends_example :
    shuffle_loop hash 2 (instance_1 ∷ instance_2 ∷ []) []
    ≡ shuffle_loop hash 50 (instance_1 ∷ instance_2 ∷ []) []
shuffle_loop-ends_example =
    shuffle_loop-ends hash 2 50 (instance_1 ∷ instance_2 ∷ []) [] (omega arith) (omega arith)
