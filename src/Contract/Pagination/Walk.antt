-- ===== src/Contract/Pagination/Walk.antt =====
-- crates/sdkwork-discovery-contract/src/pagination.rs: a client that follows the page tokens.
use sdkwork_discovery.Prelude.{
  inl, inr, ℕ, zero, suc, ◌+◌, ◌-◌, ◌≤◌, ◌<◌, ◌≡◌, ◌≢◌, refl, sym, ap, ◌∙◌, String, false, Option,
  none, some, List, [], ◌∷◌, ◌++◌, arith, eq_iff,
}
use sdkwork_discovery.Prelude.Lists.{length, take, drop, last, All, length-drop, take-append-drop}
use sdkwork_discovery.Prelude.Tests.{◌==◌, text_eq, leb, nat_beq, Bool-cases}
use sdkwork_discovery.Contract.Pagination.{
  normalize_page_size, position, page_start, page_of, paginate_sorted_keys,
}

abbrev get_elem? {ℓ} : {A : Type ℓ} → List A → ℕ → Option A
get_elem? [] n = none
get_elem? (x ∷ xs) zero = some x
get_elem? (x ∷ xs) (suc n) = get_elem? xs n

last-take {ℓ} :
    {A : Type ℓ} (n : ℕ) (xs : List A) → n < length xs → last (take (suc n) xs) ≡ get_elem? xs n
last-take n [] h = absurd (omega arith)
last-take zero (x ∷ xs) h = refl
last-take (suc n) (x ∷ []) h = absurd (omega arith)
last-take (suc n) (x ∷ y ∷ xs) h = last-take n (y ∷ xs) (omega arith)

get_elem?-drop {ℓ} :
    {A : Type ℓ} (n k : ℕ) (xs : List A) → get_elem? (drop n xs) k ≡ get_elem? xs (n + k)
get_elem?-drop zero k xs = ap (get_elem? xs) (omega arith)
get_elem?-drop (suc n) k [] = refl
get_elem?-drop (suc n) k (x ∷ xs) =
    let e : suc n + k ≡ suc (n + k) = omega arith in
    get_elem?-drop n k xs ∙ sym (ap (get_elem? (x ∷ xs)) e)

drop_nil {ℓ} : {A : Type ℓ} (n : ℕ) → [] ≡ drop {A = A} n []
drop_nil zero = refl
drop_nil (suc n) = refl

drop-drop {ℓ} : {A : Type ℓ} (n k : ℕ) (xs : List A) → drop k (drop n xs) ≡ drop (n + k) xs
drop-drop zero k xs = ap (λ m. drop m xs) (omega arith)
drop-drop (suc n) zero [] = drop_nil (suc n + 0)
drop-drop (suc n) (suc k) [] = drop_nil (suc n + suc k)
drop-drop (suc n) k (x ∷ xs) =
    let e : suc n + k ≡ suc (n + k) = omega arith in
    drop-drop n k xs ∙ sym (ap (λ m. drop m (x ∷ xs)) e)

get_elem?-some {ℓ} :
    {A : Type ℓ} (n : ℕ) (xs : List A) → n < length xs → (x : A) × (get_elem? xs n ≡ some x)
get_elem?-some n [] h = absurd (omega arith)
get_elem?-some zero (x ∷ xs) h = (x, refl)
get_elem?-some (suc n) (x ∷ xs) h = get_elem?-some n xs (omega arith)

All-get_elem? {ℓ κ} :
    {A : Type ℓ} (P : A → Type κ) (n : ℕ) (xs : List A) {x : A}
    → All P xs
    → get_elem? xs n ≡ some x
    → P x
All-get_elem? P n [] h e = absurd cc
All-get_elem? P zero (y ∷ xs) {x} h e = let same : y ≡ x = cc in rw (← same) h.0
All-get_elem? P (suc n) (y ∷ xs) h e = All-get_elem? P n xs h.1 e

append_nil {ℓ} : {A : Type ℓ} (xs : List A) → xs ++ [] ≡ xs
append_nil [] = refl
append_nil (x ∷ xs) = rw (append_nil xs)

empty {ℓ} : {A : Type ℓ} (xs : List A) (n : ℕ) → length xs ≡ 0 → [] ≡ drop n xs
empty [] zero h = refl
empty [] (suc n) h = refl
empty (x ∷ xs) n h = absurd (omega arith)

module _ {ℓ} {A : Type ℓ} (key_for : A → String) where
  -- No two items share a key, and no key is empty.
  abbrev pub AreKeyed : List A → Type 0
  AreKeyed [] = Unit
  AreKeyed (x ∷ xs) = (key_for x ≢ "") × All (λ y. key_for x ≢ key_for y) xs × AreKeyed xs

  non_empty : (n : ℕ) (xs : List A) {x : A} → AreKeyed xs → get_elem? xs n ≡ some x → key_for x ≢ ""
  non_empty n [] h e = absurd cc
  non_empty zero (y ∷ xs) {x} h e = let same : y ≡ x = cc in rw (← same) h.0
  non_empty (suc n) (y ∷ xs) h e = non_empty n xs h.2 e

  position-get_elem? :
      (n : ℕ) (xs : List A) {x : A}
      → AreKeyed xs
      → get_elem? xs n ≡ some x
      → position (λ item. key_for item == key_for x) xs ≡ some n
  unfolding position
  position-get_elem? n [] h e = absurd cc
  position-get_elem? zero (y ∷ xs) {x} h e =
      let same : y ≡ x = cc in ground (arith, eq_iff (key_for y) (key_for x), ap key_for same)
  position-get_elem? (suc n) (y ∷ xs) {x} h e =
      let apart : key_for y ≢ key_for x = All-get_elem? (λ z. key_for y ≢ key_for z) n xs h.1 e in
      ground (arith, eq_iff (key_for y) (key_for x), apart, position-get_elem? n xs h.2 e)

  -- The token of the item at an index leads behind it.
  page_start-token :
      (n : ℕ) (xs : List A) {x : A}
      → AreKeyed xs
      → get_elem? xs n ≡ some x
      → page_start key_for xs (some (key_for x)) ≡ n + 1
  unfolding page_start
  page_start-token n xs {x} h e =
      let some_key : key_for x ≢ "" = non_empty n xs h e in
      rw (position-get_elem? n xs h e, page_start) (ground (arith, eq_iff (key_for x) ""))

  -- The items that a client collects that asks for at most `fuel` pages, from a token on.
  abbrev pub walk : ℕ → List A → ℕ → Option String → List A
  walk zero items page_size token = []
  walk (suc fuel) items page_size token =
      let (page, next) = paginate_sorted_keys key_for items page_size token in
      page ++ elim next [ none ↦ [] | some t ↦ walk fuel items page_size (some t) ]

  module _ (items : List A) (page_size : ℕ) (keyed : AreKeyed items) where
    size_positive : nat_beq (normalize_page_size page_size) 0 ≡ false
    unfolding normalize_page_size
    size_positive = ground arith

    walk_from :
        (fuel n : ℕ) (token : Option String)
        → page_start key_for items token ≡ n
        → n ≤ length items
        → length items < fuel + n
        → walk fuel items page_size token ≡ drop n items
    unfolding paginate_sorted_keys page_of
    walk_from zero n token start inside enough = absurd (omega arith)
    walk_from (suc fuel) n token start inside enough =
        let size = normalize_page_size page_size in
        elim (Bool-cases (nat_beq (length items) 0)) [
          | inl e ↦ rw (size_positive, e) (empty items n (ground arith))
          | inr e ↦ elim (Bool-cases (leb (length (drop n items)) size)) [
            | inl all ↦ rw (size_positive, e, start, all) (append_nil (drop n items))
            | inr more ↦
                let shape : suc (size - 1) ≡ size = ground (arith, size_positive) in
                let left : size < length (drop n items) = ground arith in
                let total = length-drop n items in
                let (x, at) = get_elem?-some (size - 1) (drop n items) (omega arith) in
                let is_last : last (take size (drop n items)) ≡ some x =
                  ap (λ k. last (take k (drop n items))) (sym shape)
                  ∙ last-take (size - 1) (drop n items) (omega arith)
                  ∙ at in
                let here : get_elem? items (n + (size - 1)) ≡ some x =
                  sym (get_elem?-drop n (size - 1) items) ∙ at in
                let next : page_start key_for items (some (key_for x)) ≡ n + size =
                  page_start-token _ items keyed here ∙ omega arith in
                rw (size_positive, e, start, more, is_last)
                  (ap (λ rest. take size (drop n items) ++ rest)
                      (walk_from fuel (n + size) _ next (omega arith) (omega arith)
                        ∙ sym (drop-drop n size items))
                    ∙ take-append-drop size (drop n items))
          ]
        ]

    -- A client that follows the tokens from the first page on collects exactly the items, in their
    -- order, within one page more than there are items, if no two items share a key and no key is
    -- empty.
    pub walk-all : (fuel : ℕ) → length items < fuel → walk fuel items page_size none ≡ items
    unfolding page_start
    walk-all fuel enough = walk_from fuel 0 none refl (omega arith) (omega arith)
