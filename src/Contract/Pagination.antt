-- ===== src/Contract/Pagination.antt =====
-- crates/sdkwork-discovery-contract/src/pagination.rs: pages of a sorted list, by item keys.
pub mod Walk
use sdkwork_discovery.Prelude.{
  ◌||◌, ℕ, suc, ◌+◌, String, Bool, Option, none, some, List, [], ◌∷◌, min,
}
use sdkwork_discovery.Prelude.Lists.{length, take, drop, last}
use sdkwork_discovery.Prelude.Tests.{◌==◌, leb, nat_beq, if◌then◌else◌, text_eq}
use sdkwork_discovery.Prelude.Text.{trim}
use mathlib.Core.Option

abbrev pub default_page_size : ℕ
default_page_size = 100

abbrev pub max_page_size : ℕ
max_page_size = 200

unfoldable pub normalize_page_size : ℕ → ℕ
normalize_page_size page_size =
    if nat_beq page_size 0 then default_page_size else min page_size max_page_size

unfoldable pub normalize_page_token : Option String → Option String
normalize_page_token none = none
normalize_page_token (some token) = if trim token == "" then none else some (trim token)

-- `Iterator::position`
unfoldable pub position {ℓ} : {A : Type ℓ} → (A → Bool) → List A → Option ℕ
position p [] = none
position p (x ∷ xs) = let rest = position p xs in if p x then some 0 else Option.map suc rest

module _ {ℓ} {A : Type ℓ} (key_for : A → String) where
  -- Where the page begins: behind the item that the token names, or at the end without one.
  unfoldable pub page_start : List A → Option String → ℕ
  unfolding position
  page_start items none = 0
  page_start items (some token) =
      if token == "" then 0 else elim (position (λ item. key_for item == token) items) [
        | none ↦ length items
        | some index ↦ index + 1
      ]

  -- The page at the front of a slice.
  unfoldable pub page_of : List A → ℕ → List A × Option String
  page_of slice limit =
      if leb (length slice) limit
      then (slice, none)
      else (take limit slice, Option.map key_for (last (take limit slice)))

  unfoldable pub paginate_sorted_keys : List A → ℕ → Option String → List A × Option String
  paginate_sorted_keys items page_size page_token =
      let limit = normalize_page_size page_size in
      if nat_beq limit 0 || nat_beq (length items) 0
      then ([], none)
      else page_of (drop (page_start items page_token) items) limit
