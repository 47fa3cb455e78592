-- ===== src/Contract/Unordered.antt =====
-- crates/sdkwork-discovery-contract/src/registry.rs: a discovery does not depend on the order in
-- which a `HashMap` yields the instances.
use sdkwork_discovery.Prelude.{
  ℕ, ◌≡◌, refl, sym, ap, ◌∙◌, Bool, true, false, ◌||◌, Option, none, some, List, [], ◌∷◌, arith,
  inl, inr, ◌⊎◌,
}
use sdkwork_discovery.Prelude.Lists.{retain}
use sdkwork_discovery.Prelude.Tests.{if◌then◌else◌, Bool-cases}
use sdkwork_discovery.Prelude.Text.{text_leb_total, text_leb_trans, text_leb_antisymm}
use sdkwork_discovery.Prelude.Sort.{sort_by, sort_by-perm}
use sdkwork_discovery.Contract.Registry.{
  ServiceInstance, DiscoverInstancesQuery, DiscoverSortBy, by_instance_id, by_priority, by_weight,
  by_weighted_random,
}
use sdkwork_discovery.Contract.Discover.{
  instance_id_leb, weight_leb, priority_leb, sort_test, is_weighted_random, matches_all,
  finalize_discover_instances,
}
use mathlib.Core.Path.{subst}
use mathlib.Core.List.Memᴰ
use mathlib.Core.List.{Memᴰ, Permᴰ}
use mathlib.Core.List.Permᴰ

retain-swap :
    (p : ServiceInstance → Bool) (a b c d : ServiceInstance) (l : List ServiceInstance)
    → a ≡ d
    → b ≡ c
    → Permᴰ (retain p (a ∷ b ∷ l)) (retain p (c ∷ d ∷ l))
retain-swap p a b c d l e f =
    let g : p d ≡ p a = ap p (sym e) in
    let h : p c ≡ p b = ap p (sym f) in
    elim (Bool-cases (p a)) [
      | inl x ↦ elim (Bool-cases (p b)) [
        | inl y ↦ rw (g, h, x, y) (Permᴰ.swap e f)
        | inr y ↦ rw (g, h, x, y) (Permᴰ.cons e (Permᴰ.refl (retain p l)))
      ]
      | inr x ↦ elim (Bool-cases (p b)) [
        | inl y ↦ rw (g, h, x, y) (Permᴰ.cons f (Permᴰ.refl (retain p l)))
        | inr y ↦ rw (g, h, x, y) (Permᴰ.refl (retain p l))
      ]
    ]

retain-perm :
    (p : ServiceInstance → Bool) {xs ys : List ServiceInstance}
    → Permᴰ xs ys
    → Permᴰ (retain p xs) (retain p ys)
retain-perm p Permᴰ.nil = Permᴰ.nil
retain-perm p (Permᴰ.cons {a = a} {b = b} e q) = elim (Bool-cases (p a)) [
  | inl h ↦ let g : p b ≡ true = sym (ap p e) ∙ h in rw (h, g) (Permᴰ.cons e (retain-perm p q))
  | inr h ↦ let g : p b ≡ false = sym (ap p e) ∙ h in rw (h, g) (retain-perm p q)
]
retain-perm p (Permᴰ.swap {a = a} {b = b} {a' = c} {b' = d} {l = l} e f) =
    retain-swap p a b c d l e f
retain-perm p (Permᴰ.trans q r) = Permᴰ.trans (retain-perm p q) (retain-perm p r)

abbrev pub IsDecided : Option DiscoverSortBy → Type 0
IsDecided o = is_weighted_random o ≡ false

sort_test-total :
    (o : Option DiscoverSortBy) (a b : ServiceInstance)
    → (sort_test o a b || sort_test o b a) ≡ true
unfolding instance_id_leb weight_leb priority_leb
sort_test-total none a b = text_leb_total a.instance_id b.instance_id
sort_test-total (some by_instance_id) a b = text_leb_total a.instance_id b.instance_id
sort_test-total (some by_priority) a b = ground (arith, text_leb_total a.instance_id b.instance_id)
sort_test-total (some by_weight) a b = ground (arith, text_leb_total a.instance_id b.instance_id)
sort_test-total (some by_weighted_random) a b = ground arith

sort_test_trans :
    (o : Option DiscoverSortBy) (a b c : ServiceInstance)
    → sort_test o a b ≡ true
    → sort_test o b c ≡ true
    → sort_test o a c ≡ true
unfolding instance_id_leb weight_leb priority_leb
sort_test_trans none a b c h k = text_leb_trans a.instance_id b.instance_id c.instance_id h k
sort_test_trans (some by_instance_id) a b c h k =
    text_leb_trans a.instance_id b.instance_id c.instance_id h k
sort_test_trans (some by_priority) a b c h k =
    ground (arith, text_leb_trans a.instance_id b.instance_id c.instance_id)
sort_test_trans (some by_weight) a b c h k =
    ground (arith, text_leb_trans a.instance_id b.instance_id c.instance_id)
sort_test_trans (some by_weighted_random) a b c h k = ground arith

sort_test-same_id :
    (o : Option DiscoverSortBy) (a b : ServiceInstance)
    → is_weighted_random o ≡ false
    → sort_test o a b ≡ true
    → sort_test o b a ≡ true
    → a.instance_id ≡ b.instance_id
unfolding instance_id_leb weight_leb priority_leb
sort_test-same_id none a b d h k = text_leb_antisymm a.instance_id b.instance_id h k
sort_test-same_id (some by_instance_id) a b d h k =
    text_leb_antisymm a.instance_id b.instance_id h k
sort_test-same_id (some by_priority) a b d h k =
    ground (arith, text_leb_antisymm a.instance_id b.instance_id)
sort_test-same_id (some by_weight) a b d h k =
    ground (arith, text_leb_antisymm a.instance_id b.instance_id)
sort_test-same_id (some by_weighted_random) a b d h k = absurd (ground arith)

tail_case :
    (a x : ServiceInstance) (xs ys : List ServiceInstance)
    → (Memᴰ a xs → Memᴰ a ys)
    → (a ≡ x) ⊎ Memᴰ a xs
    → Memᴰ a (x ∷ ys)
tail_case a x xs ys f (inl e) = Memᴰ.head e
tail_case a x xs ys f (inr m) = Memᴰ.tail (f m)

mem-retainᴰ :
    (p : ServiceInstance → Bool) (a : ServiceInstance) (xs : List ServiceInstance)
    → Memᴰ a (retain p xs)
    → Memᴰ a xs
mem-retainᴰ p a [] m = m
mem-retainᴰ p a (x ∷ xs) m = elim (Bool-cases (p x)) [
  | inl h ↦
      tail_case a x (retain p xs) xs (mem-retainᴰ p a xs)
        (Memᴰ.cases_cons (subst (λ b. Memᴰ a (if b then x ∷ retain p xs else retain p xs)) h m))
  | inr h ↦
      Memᴰ.tail
        (mem-retainᴰ p a xs (subst (λ b. Memᴰ a (if b then x ∷ retain p xs else retain p xs)) h m))
]

-- The answer to a discovery that is not weighted at random depends on which instances there are,
-- and not on the order in which they come, if no two of them share an id: the sort sees to that,
-- and filters, pages and tokens follow it.
pub finalize-perm :
    (hash : ℕ → ℕ → ℕ) {xs ys : List ServiceInstance} (query : DiscoverInstancesQuery)
    (revision : ℕ)
    → is_weighted_random query.sort_by ≡ false
    → Permᴰ xs ys
    → ((a b : ServiceInstance) → Memᴰ a xs → Memᴰ b xs → a.instance_id ≡ b.instance_id → a ≡ b)
    → finalize_discover_instances hash xs query revision
      ≡ finalize_discover_instances hash ys query revision
unfolding finalize_discover_instances
finalize-perm hash {xs} {ys} query revision decided perm ids =
    let same : sort_by (sort_test query.sort_by) (retain (matches_all query) xs)
        ≡ sort_by (sort_test query.sort_by) (retain (matches_all query) ys) =
      sort_by-perm (sort_test query.sort_by) (sort_test-total query.sort_by)
        (sort_test_trans query.sort_by) (retain-perm (matches_all query) perm)
        (λ a b m n h k.
          ids a b (mem-retainᴰ (matches_all query) a xs m) (mem-retainᴰ (matches_all query) b xs n)
            (sort_test-same_id query.sort_by a b decided h k)) in
    rw (decided, same) refl
