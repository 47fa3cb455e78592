-- ===== src/Memory/Ids.antt =====
-- The identifiers that `next_id` of crates/sdkwork-discovery-storage-memory/src/store.rs makes.
use text.Mathlib.TextLemmas.{append_cancel_left}
use sdkwork_discovery.Prelude.{ℕ, ◌<◌, ◌^◌, ◌≡◌, String}
use sdkwork_discovery.Prelude.Text.{decimal_injective}
use sdkwork_discovery.Memory.Store.{id_text}

-- Two numbers of 64 bits have two texts under one prefix.
pub id_text_injective :
    (prefix : String) (m n : ℕ)
    → m < 2 ^ 64
    → n < 2 ^ 64
    → id_text prefix m ≡ id_text prefix n
    → m ≡ n
unfolding id_text
id_text_injective prefix m n hm hn e =
    decimal_injective m n hm hn (append_cancel_left "-" _ _ (append_cancel_left prefix _ _ e))
