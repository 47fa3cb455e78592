-- ===== src/Prelude/Text.antt =====
-- Rust's `str` as the native text: white space, order, and `format!` of a number.
use Prim.Native.Nat.{ℕ, zero, suc, ◌+◌, ◌-◌, ◌*◌, ◌/◌, ◌%◌, ◌^◌, ◌<◌, Ordering}
use Prim.Native.Char.{Char, code}
use Prim.Native.String.{String, compare, ◌++◌}
use Prim.Native.String.compare
use Prim.Native.String.append
use mathlib.Core.Path.{◌≡◌, refl, ap, sym, ◌∙◌}
use mathlib.Core.List.{List, [], ◌∷◌}
use mathlib.Core.Bool.{Bool, true, not, ◌&&◌, ◌||◌}
use mathlib.Core.Logic.{inl, inr}
use native.Mathlib.Nat.{pow-suc}
use native.Mathlib.Omega.{arith}
use text.Mathlib.Text.{is_le}
use text.Mathlib.TextEquality.{path_by_compare}
use sdkwork_discovery.Prelude.Tests.{ltb, leb, nat_beq, if◌then◌else◌, Bool-cases}

abbrev pub str_append : String → String → String
str_append s t = s ++ t

-- `format!`: the pieces one after the other.
unfoldable pub concat : List String → String
concat [] = ""
concat (s ∷ ss) = str_append s (concat ss)

-- `char::is_whitespace`: the Unicode property White_Space.
unfoldable pub is_whitespace : ℕ → Bool
is_whitespace c =
    (leb 9 c && leb c 13)
    || nat_beq c 32
    || nat_beq c 133
    || nat_beq c 160
    || nat_beq c 5760
    || (leb 8192 c && leb c 8202)
    || nat_beq c 8232
    || nat_beq c 8233
    || nat_beq c 8239
    || nat_beq c 8287
    || nat_beq c 12288

-- `s.trim().is_empty()`
unfoldable pub is_blank : String → Bool
unfolding is_whitespace
is_blank String.[] = true
is_blank (String.◌∷◌ c s) = is_whitespace (code c) && is_blank s

-- `trim_start`, `trim_end`, `trim`
unfoldable pub trim_start : String → String
unfolding is_whitespace
trim_start String.[] = ""
trim_start (String.◌∷◌ c s) =
    let rest = trim_start s in if is_whitespace (code c) then rest else String.◌∷◌ c s

unfoldable pub trim_end : String → String
unfolding is_blank
trim_end String.[] = ""
trim_end (String.◌∷◌ c s) =
    let rest = String.◌∷◌ c (trim_end s) in if is_blank (String.◌∷◌ c s) then "" else rest

unfoldable pub trim : String → String
trim s = trim_end (trim_start s)

-- `split` at each character of the code `d`.
abbrev onto_first : Char → List String → List String
onto_first c [] = String.◌∷◌ c "" ∷ []
onto_first c (p ∷ ps) = String.◌∷◌ c p ∷ ps

unfoldable pub split_on : ℕ → String → List String
split_on d String.[] = "" ∷ []
split_on d (String.◌∷◌ c s) =
    let rest = split_on d s in if nat_beq (code c) d then "" ∷ rest else onto_first c rest

-- No character has the code `d`.
unfoldable pub lacks : ℕ → String → Bool
lacks d String.[] = true
lacks d (String.◌∷◌ c s) = not (nat_beq (code c) d) && lacks d s

-- The text of a digit.
abbrev digit : ℕ → String
digit zero = "0"
digit (suc zero) = "1"
digit (suc (suc zero)) = "2"
digit (suc (suc (suc zero))) = "3"
digit (suc (suc (suc (suc zero)))) = "4"
digit (suc (suc (suc (suc (suc zero))))) = "5"
digit (suc (suc (suc (suc (suc (suc zero)))))) = "6"
digit (suc (suc (suc (suc (suc (suc (suc zero))))))) = "7"
digit (suc (suc (suc (suc (suc (suc (suc (suc zero)))))))) = "8"
digit _ = "9"

digits : ℕ → ℕ → String
digits zero n = ""
digits (suc f) n =
    let front = digits f (n / 10) in if ltb n 10 then digit n else str_append front (digit (n % 10))

-- `format!("{}", n)` of a `u64`, which has at most twenty digits.
unfoldable pub decimal : ℕ → String
unfolding digits
decimal n = digits 20 n

read_from : ℕ → String → ℕ
read_from acc String.[] = acc
read_from acc (String.◌∷◌ c s) = read_from (acc * 10 + (code c - 48)) s

read_from-digit : (acc d : ℕ) → d < 10 → read_from acc (digit d) ≡ acc * 10 + d
unfolding read_from
read_from-digit acc zero h = omega arith
read_from-digit acc (suc zero) h = omega arith
read_from-digit acc (suc (suc zero)) h = omega arith
read_from-digit acc (suc (suc (suc zero))) h = omega arith
read_from-digit acc (suc (suc (suc (suc zero)))) h = omega arith
read_from-digit acc (suc (suc (suc (suc (suc zero))))) h = omega arith
read_from-digit acc (suc (suc (suc (suc (suc (suc zero)))))) h = omega arith
read_from-digit acc (suc (suc (suc (suc (suc (suc (suc zero))))))) h = omega arith
read_from-digit acc (suc (suc (suc (suc (suc (suc (suc (suc zero)))))))) h = omega arith
read_from-digit acc (suc (suc (suc (suc (suc (suc (suc (suc (suc n))))))))) h = omega arith

read_from-append : (acc : ℕ) (s t : String) → read_from acc (s ++ t) ≡ read_from (read_from acc s) t
unfolding read_from
read_from-append acc String.[] t = ap (read_from acc) (append.nil t)
read_from-append acc (String.◌∷◌ c s) t =
    ap (read_from acc) (append.cons c s t) ∙ read_from-append (acc * 10 + (code c - 48)) s t

shorter : (f n : ℕ) → n < 10 ^ suc f → n / 10 < 10 ^ f
shorter f n h = let e : 10 ^ suc f ≡ 10 ^ f * 10 = pow-suc 10 f in omega arith

-- Reading a printed number gives it back.
read_from-digits : (f n : ℕ) → n < 10 ^ f → read_from 0 (digits f n) ≡ n
unfolding digits read_from
read_from-digits zero n h = omega arith
read_from-digits (suc f) n h = elim (Bool-cases (ltb n 10)) [
  | inl small ↦ rw small (omega (arith, read_from-digit 0 n (ground arith)))
  | inr large ↦ rw large (
      read_from-append 0 (digits f (n / 10)) (digit (n % 10))
      ∙ read_from-digit _ (n % 10) (omega arith)
      ∙ omega (arith, read_from-digits f (n / 10) (shorter f n h)))
]

-- Numbers of 64 bits print to different texts.
pub decimal_injective : (m n : ℕ) → m < 2 ^ 64 → n < 2 ^ 64 → decimal m ≡ decimal n → m ≡ n
unfolding decimal
decimal_injective m n hm hn e =
    sym (read_from-digits 20 m (omega arith))
    ∙ ap (read_from 0) e
    ∙ read_from-digits 20 n (omega arith)

-- Rust's `a <= b` on texts.
abbrev pub text_leb : String → String → Bool
text_leb s t = is_le (compare s t)

compare-eq : (s t : String) → text_leb s t ≡ true → text_leb t s ≡ true → compare s t ≡ Ordering.eq
compare-eq String.[] String.[] h k = refl
compare-eq String.[] (String.◌∷◌ d t) h k = cc (rw compare.cons-nil at k)
compare-eq (String.◌∷◌ c s) String.[] h k = cc (rw compare.cons-nil at h)
compare-eq (String.◌∷◌ c s) (String.◌∷◌ d t) h k = rw (compare.cons-cons c d s t) (
    ground (
      arith,
      rw (compare.cons-cons c d s t) at h,
      rw (compare.cons-cons d c t s) at k,
      compare-eq s t,
    ))

pub text_leb_antisymm : (s t : String) → text_leb s t ≡ true → text_leb t s ≡ true → s ≡ t
text_leb_antisymm s t h k = path_by_compare s t (compare-eq s t h k)

pub text_leb_total : (s t : String) → (text_leb s t || text_leb t s) ≡ true
text_leb_total String.[] String.[] = refl
text_leb_total String.[] (String.◌∷◌ d t) = rw compare.nil-cons refl
text_leb_total (String.◌∷◌ c s) String.[] = rw (compare.cons-nil, compare.nil-cons) refl
text_leb_total (String.◌∷◌ c s) (String.◌∷◌ d t) =
    rw (compare.cons-cons c d s t, compare.cons-cons d c t s) (ground (arith, text_leb_total s t))

pub text_leb_trans :
    (s t u : String) → text_leb s t ≡ true → text_leb t u ≡ true → text_leb s u ≡ true
text_leb_trans String.[] t String.[] h k = refl
text_leb_trans String.[] t (String.◌∷◌ e u) h k = rw compare.nil-cons refl
text_leb_trans (String.◌∷◌ c s) String.[] u h k = cc (rw compare.cons-nil at h)
text_leb_trans (String.◌∷◌ c s) (String.◌∷◌ d t) String.[] h k = cc (rw compare.cons-nil at k)
text_leb_trans (String.◌∷◌ c s) (String.◌∷◌ d t) (String.◌∷◌ e u) h k =
    rw (compare.cons-cons c e s u) (
      ground (
        arith,
        rw (compare.cons-cons c d s t) at h,
        rw (compare.cons-cons d e t u) at k,
        text_leb_trans s t u,
      ))

-- A part without the separator is split off whole.
pub split_on-lacks : (d : ℕ) (p : String) → lacks d p ≡ true → split_on d p ≡ p ∷ []
unfolding split_on lacks
split_on-lacks d String.[] h = refl
split_on-lacks d (String.◌∷◌ c s) h = ground (arith, split_on-lacks d s)

pub split_on-append :
    (p rest : String) → lacks 46 p ≡ true → split_on 46 (p ++ ("." ++ rest)) ≡ p ∷ split_on 46 rest
unfolding split_on lacks
split_on-append String.[] rest h =
    rw (append.nil ("." ++ rest), append.cons _ "" rest, append.nil rest) refl
split_on-append (String.◌∷◌ c s) rest h =
    rw (append.cons c s ("." ++ rest)) (ground (arith, split_on-append s rest))

pub lacks-append : (d : ℕ) (s t : String) → lacks d (s ++ t) ≡ (lacks d s && lacks d t)
unfolding lacks
lacks-append d String.[] t = rw (append.nil t) refl
lacks-append d (String.◌∷◌ c s) t = rw (append.cons c s t) (ground (arith, lacks-append d s t))
