-- ===== src/Prelude/Sort.antt =====
-- Rust's stable `sort_by` by a total test, and why the order of the input does not matter.
use mathlib.Core.Path.{◌≡◌, refl, ap, ap₂, ◌∙◌}
use mathlib.Core.Bool.{Bool, true, ◌||◌}
use mathlib.Core.Logic.{inl, inr}
use mathlib.Core.Path.{sym}
use mathlib.Core.List.{List, [], ◌∷◌, Memᴰ, Permᴰ}
use mathlib.Core.List.Memᴰ
use native.Mathlib.Omega.{arith}
use sdkwork_discovery.Prelude.Tests.{if◌then◌else◌}

mem_back {ℓ} : {A : Type ℓ} {a : A} {xs ys : List A} → Permᴰ xs ys → Memᴰ a ys → Memᴰ a xs
mem_back Permᴰ.nil m = m
mem_back (Permᴰ.cons e p) m = elim (Memᴰ.cases_cons m) [
  | inl h ↦ Memᴰ.head (h ∙ sym e)
  | inr n ↦ Memᴰ.tail (mem_back p n)
]
mem_back (Permᴰ.swap e f) m = elim (Memᴰ.cases_cons m) [
  | inl h ↦ Memᴰ.tail (Memᴰ.head (h ∙ sym f))
  | inr n ↦ elim (Memᴰ.cases_cons n) [
    | inl h ↦ Memᴰ.head (h ∙ sym e)
    | inr o ↦ Memᴰ.tail (Memᴰ.tail o)
  ]
]
mem_back (Permᴰ.trans p q) m = mem_back p (mem_back q m)

module _ {ℓ} {A : Type ℓ} (le : A → A → Bool) where
  unfoldable pub insert_by : A → List A → List A
  insert_by x [] = x ∷ []
  insert_by x (y ∷ ys) = let rest = insert_by x ys in if le x y then x ∷ y ∷ ys else y ∷ rest

  -- An element goes in front of the equal ones that stand behind it: the sort is stable.
  unfoldable pub sort_by : List A → List A
  unfolding insert_by
  sort_by [] = []
  sort_by (x ∷ xs) = insert_by x (sort_by xs)

  module _ (total : (a b : A) → (le a b || le b a) ≡ true)
      (trans : (a b c : A) → le a b ≡ true → le b c ≡ true → le a c ≡ true) where
    insert_by_comm :
        (x y : A) (zs : List A)
        → (le x y ≡ true → le y x ≡ true → x ≡ y)
        → insert_by x (insert_by y zs) ≡ insert_by y (insert_by x zs)
    unfolding insert_by
    insert_by_comm x y [] anti = ground (arith, total x y)
    insert_by_comm x y (z ∷ zs) anti = ground (
      arith,
      total x y,
      total x z,
      total y z,
      trans x y z,
      trans y x z,
      trans x z y,
      trans y z x,
      insert_by_comm x y zs anti,
    )

    -- Where elements that the test takes for equal are equal, the result depends on which elements
    -- the input holds, and not on their order.
    pub sort_by-perm :
        {xs ys : List A}
        → Permᴰ xs ys
        → ((a b : A) → Memᴰ a xs → Memᴰ b xs → le a b ≡ true → le b a ≡ true → a ≡ b)
        → sort_by xs ≡ sort_by ys
    unfolding sort_by
    sort_by-perm Permᴰ.nil anti = refl
    sort_by-perm (Permᴰ.cons {a = a} {b = b} e p) anti =
        ap₂ insert_by e (sort_by-perm p (λ x y m n. anti x y (Memᴰ.tail m) (Memᴰ.tail n)))
    sort_by-perm (Permᴰ.swap {a = a} {b = b} {l = l} e f) anti =
        insert_by_comm a b (sort_by l) (anti a b (Memᴰ.head refl) (Memᴰ.tail (Memᴰ.head refl)))
        ∙ ap₂ insert_by f (ap (λ c. insert_by c (sort_by l)) e)
    sort_by-perm (Permᴰ.trans p q) anti =
        sort_by-perm p anti ∙ sort_by-perm q (λ x y m n. anti x y (mem_back p m) (mem_back p n))
