-- ===== src/Contract/Shuffle.antt =====
-- crates/sdkwork-discovery-contract/src/registry.rs: the weighted shuffle loses no instance.
use sdkwork_discovery.Prelude.{
  ℕ, zero, suc, ◌%◌, ◌≡◌, refl, some, List, [], ◌∷◌, ◌++◌, arith, inl, inr, Option, ◌⊎◌, ◌<◌, ◌+◌,
  ◌≤◌,
}
use sdkwork_discovery.Prelude.Lists.{length}
use sdkwork_discovery.Prelude.Tests.{nat_beq, Bool-cases, Option-cases, ltb}
use sdkwork_discovery.Contract.Registry.{ServiceInstance}
use sdkwork_discovery.Contract.Discover.{
  total_weight, select_index, remove_index, shuffle_loop, weighted_shuffle_discover_instances,
}
use mathlib.Core.Path.{subst}
use mathlib.Core.List.{Permᴰ, append_assoc}
use mathlib.Core.List.Permᴰ

remove_index-perm :
    (n : ℕ) (is rest : List ServiceInstance) (x : ServiceInstance)
    → remove_index n is ≡ some (x, rest)
    → Permᴰ (x ∷ rest) is
unfolding remove_index
remove_index-perm n [] rest x h = absurd cc
remove_index-perm zero (i ∷ is) rest x h =
    let a : x ≡ i = cc in
    let b : is ≡ rest = cc in subst (λ l. Permᴰ (x ∷ l) (i ∷ is)) b (Permᴰ.cons a (Permᴰ.refl is))
remove_index-perm (suc n) (i ∷ is) rest x h = elim (Option-cases (remove_index n is)) [
  | inl e ↦ absurd (ground (arith, rw e at h))
  | inr ((y, others), e) ↦
      let there : ◌≡◌ {A = Option (ServiceInstance × List ServiceInstance)} (some (y, i ∷ others))
          (some (x, rest)) =
        rw (e, remove_index) at h in
      let a : x ≡ y = cc in
      let b : i ∷ others ≡ rest = cc in
      subst (λ l. Permᴰ (x ∷ l) (i ∷ is)) b
        (Permᴰ.trans (Permᴰ.swap a refl) (Permᴰ.cons refl (remove_index-perm n is others y e)))
]

prefix-perm :
    (xs : List ServiceInstance) {ys zs : List ServiceInstance}
    → Permᴰ ys zs
    → Permᴰ (xs ++ ys) (xs ++ zs)
prefix-perm [] p = p
prefix-perm (x ∷ xs) p = Permᴰ.cons refl (prefix-perm xs p)

shuffle_loop-perm :
    (hash : ℕ → ℕ → ℕ) (fuel : ℕ) (remaining result : List ServiceInstance)
    → Permᴰ (shuffle_loop hash fuel remaining result) (result ++ remaining)
unfolding shuffle_loop
shuffle_loop-perm hash zero remaining result = Permᴰ.refl (result ++ remaining)
shuffle_loop-perm hash (suc fuel) remaining result =
    let chosen =
      select_index (hash (length remaining) (length result) % total_weight remaining) 0 0
        remaining in
    elim (Bool-cases (nat_beq (total_weight remaining) 0)) [
      | inl e ↦ rw (e, shuffle_loop) (Permᴰ.refl (result ++ remaining))
      | inr e ↦ elim (Option-cases (remove_index chosen remaining)) [
        | inl f ↦ rw (e, f, shuffle_loop) (Permᴰ.refl (result ++ remaining))
        | inr ((x, rest), f) ↦
            rw (e, f, shuffle_loop)
              (Permᴰ.trans
                (subst (λ l. Permᴰ (shuffle_loop hash fuel rest (result ++ x ∷ [])) l)
                  (append_assoc result (x ∷ []) rest)
                  (shuffle_loop-perm hash fuel rest (result ++ x ∷ [])))
                (prefix-perm result (remove_index-perm chosen remaining rest x f)))
      ]
    ]

select_index-range :
    (target idx cumulative : ℕ) (is : List ServiceInstance)
    → (select_index target idx cumulative is ≡ 0)
      ⊎ (select_index target idx cumulative is < idx + length is)
unfolding select_index
select_index-range target idx cumulative [] = inl refl
select_index-range target idx cumulative (i ∷ is) =
    elim (Bool-cases (ltb target (cumulative + i.weight))) [
      | inl e ↦ inr (rw (e, select_index) (omega arith))
      | inr e ↦ elim (select_index-range target (idx + 1) (cumulative + i.weight) is) [
        | inl z ↦ inl (rw (e, select_index) z)
        | inr h ↦ inr (rw (e, select_index) (omega (arith, h)))
      ]
    ]

remove_index-total :
    (n : ℕ) (is : List ServiceInstance)
    → n < length is
    → (x : ServiceInstance) × (rest : List ServiceInstance) × (remove_index n is ≡ some (x, rest))
unfolding remove_index
remove_index-total n [] h = absurd (omega arith)
remove_index-total zero (i ∷ is) h = (i, is, refl)
remove_index-total (suc n) (i ∷ is) h =
    let (x, rest, e) = remove_index-total n is (omega arith) in
    (x, i ∷ rest, rw (e, remove_index) refl)

-- In each round of the shuffle over a list that is not empty, the selected index is one of the
-- list, whatever the target: the removal takes an instance, and the others stay.
pub select-remove :
    (target : ℕ) (is : List ServiceInstance)
    → 0 < length is
    → (x : ServiceInstance) × (rest : List ServiceInstance) × (remove_index
          (select_index target 0 0 is)
          is
        ≡ some (x, rest))
      × Permᴰ (x ∷ rest) is
select-remove target is some_left =
    let inside : select_index target 0 0 is < length is = elim (select_index-range target 0 0 is) [
      | inl z ↦ omega arith
      | inr h ↦ omega arith
    ] in
    let (x, rest, e) = remove_index-total (select_index target 0 0 is) is inside in
    (x, rest, e, remove_index-perm (select_index target 0 0 is) is rest x e)

-- The weighted shuffle returns the instances it is given, each as often as it comes, whatever the
-- hash function yields.
pub shuffle-perm :
    (hash : ℕ → ℕ → ℕ) (instances : List ServiceInstance)
    → Permᴰ (weighted_shuffle_discover_instances hash instances) instances
unfolding weighted_shuffle_discover_instances
shuffle-perm hash instances = elim (Bool-cases (nat_beq (total_weight instances) 0)) [
  | inl e ↦ rw (e, weighted_shuffle_discover_instances) (Permᴰ.refl instances)
  | inr e ↦
      rw (e, weighted_shuffle_discover_instances)
        (shuffle_loop-perm hash (length instances) instances [])
]

remove_index-length :
    (n : ℕ) (is rest : List ServiceInstance) (x : ServiceInstance)
    → remove_index n is ≡ some (x, rest)
    → length is ≡ length rest + 1
unfolding remove_index
remove_index-length n [] rest x h = cc
remove_index-length zero (i ∷ is) rest x h = ground (arith, h)
remove_index-length (suc n) (i ∷ is) rest x h = elim (Option-cases (remove_index n is)) [
  | inl e ↦ cc (rw e at h)
  | inr ((y, others), e) ↦ ground (arith, rw e at h, remove_index-length n is others y e)
]

-- The loop of the weighted shuffle ends by itself: with any fuel of at least the number of the
-- instances that remain, it gives the same result, whatever the hash function yields and whatever
-- has been chosen before.
pub shuffle_loop-ends :
    (hash : ℕ → ℕ → ℕ) (m n : ℕ) (remaining result : List ServiceInstance)
    → length remaining ≤ m
    → length remaining ≤ n
    → shuffle_loop hash m remaining result ≡ shuffle_loop hash n remaining result
unfolding shuffle_loop
shuffle_loop-ends hash zero zero remaining result hm hn = refl
shuffle_loop-ends hash zero (suc n) [] result hm hn = refl
shuffle_loop-ends hash zero (suc n) (i ∷ is) result hm hn = absurd (omega arith)
shuffle_loop-ends hash (suc m) zero [] result hm hn = refl
shuffle_loop-ends hash (suc m) zero (i ∷ is) result hm hn = absurd (omega arith)
shuffle_loop-ends hash (suc m) (suc n) remaining result hm hn =
    elim (Bool-cases (nat_beq (total_weight remaining) 0)) [
      | inl e ↦ rw (e, shuffle_loop) refl
      | inr e ↦
          let target = hash (length remaining) (length result) % total_weight remaining in
          let chosen = select_index target 0 0 remaining in
          elim (Option-cases (remove_index chosen remaining)) [
            | inl f ↦ rw (e, f, shuffle_loop) refl
            | inr ((x, rest), f) ↦
                let shorter = remove_index-length chosen remaining rest x f in
                rw (e, f, shuffle_loop)
                  (shuffle_loop-ends hash m n rest (result ++ x ∷ []) (omega (arith, shorter, hm))
                    (omega (arith, shorter, hn)))
          ]
    ]
