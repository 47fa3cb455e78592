-- ===== src/Rpc/Codec/Validated.antt =====
-- crates/sdkwork-discovery-rpc/src/codec.rs: what the checked fields of a request are.
use sdkwork_discovery.Prelude.{
  ℕ, ◌≤◌, ◌<◌, ◌≡◌, refl, ap, String, Bool, true, false, not, Option, none, some, List, [], ◌∷◌,
  ◌++◌, inl, inr, arith,
}
use Prim.Native.Char.{code}
use sdkwork_discovery.Prelude.Lists.{All, find}
use sdkwork_discovery.Prelude.Tests.{ltb, leb, nat_beq, text_eq, ◌==◌, Bool-cases}
use sdkwork_discovery.Prelude.Text.{is_blank, lacks, lacks-append, str_append}
use sdkwork_discovery.Contract.Error.{ok, ensure, ensure-ok, then-ok}
use text.Mathlib.Text.{starts_with}
use text.Mathlib.TextEquality.{starts_with_iff}
use sdkwork_discovery.Core.Policy.{belongs_to}
use sdkwork_discovery.Rpc.Codec.Fields.{
  utf8_bytes, byte_length, char_bytes, is_identity_char, no_byte, no_byte_of, at_most,
  validate_required_field, validate_identity_field,
}

-- A text that names something: not blank, of at most 128 bytes, each of them a letter, a digit, a
-- full stop, an underscore or a hyphen.
pub record IsIdentity (v : String) : Type 0 where
  pub filled : is_blank v ≡ false
  pub short : byte_length v ≤ 128
  pub plain : All (λ b. is_identity_char b ≡ true) (utf8_bytes v)

find-none :
    (p : ℕ → Bool) (bs : List ℕ) → find (λ b. not (p b)) bs ≡ none → All (λ b. p b ≡ true) bs
find-none p [] h = tt
find-none p (b ∷ bs) h = elim (Bool-cases (p b)) [
  | inl t ↦ (t, find-none p bs (rw t at h))
  | inr f ↦ cc (rw f at h)
]

no_byte_of-ok : (o : Option ℕ) (message : ℕ → String) → no_byte_of o message ≡ ok tt → o ≡ none
no_byte_of-ok none message h = refl
no_byte_of-ok (some b) message h = cc

-- A field that is accepted as an identity is one.
pub validate_identity_field-IsIdentity :
    (field v : String) → validate_identity_field field v ≡ ok tt → IsIdentity v
unfolding validate_identity_field validate_required_field at_most no_byte
validate_identity_field-IsIdentity field v h =
    let (filled, h1) = then-ok (ensure (not (is_blank v)) _) _ tt h in
    let (short, plain) = then-ok (ensure (leb (byte_length v) 128) _) _ tt h1 in
    record {
      filled = ground (arith, ensure-ok (not (is_blank v)) _ filled);
      short = ground (arith, ensure-ok (leb (byte_length v) 128) _ short);
      plain = find-none is_identity_char (utf8_bytes v) (no_byte_of-ok _ _ plain);
    }

All-append :
    (p : ℕ → Bool) (xs ys : List ℕ)
    → All (λ b. p b ≡ true) (xs ++ ys)
    → All (λ b. p b ≡ true) xs × All (λ b. p b ≡ true) ys
All-append p [] ys h = (tt, h)
All-append p (x ∷ xs) ys h = let (a, b) = All-append p xs ys h.1 in ((h.0, a), b)

-- The bytes of a text show each of its characters below 128.
pub plain-lacks :
    (d : ℕ) (v : String)
    → d < 128
    → is_identity_char d ≡ false
    → All (λ b. is_identity_char b ≡ true) (utf8_bytes v)
    → lacks d v ≡ true
unfolding utf8_bytes lacks
plain-lacks d String.[] lt other h = refl
plain-lacks d (String.◌∷◌ c v) lt other h =
    let (front, rest) = All-append is_identity_char (char_bytes (code c)) (utf8_bytes v) h in
    let ih = plain-lacks d v lt other rest in
    elim (Bool-cases (nat_beq (code c) d)) [
      | inr f ↦ rw f ih
      | inl t ↦
          let same : code c ≡ d = ground arith in
          let small : ltb (code c) 128 ≡ true = ground arith in
          let head : is_identity_char (code c) ≡ true = (rw small at front).0 in
          absurd (cc (head, ap is_identity_char same, other))
    ]

slash_is_no_identity_char : is_identity_char 47 ≡ false
unfolding is_identity_char
slash_is_no_identity_char = refl

slash-lacks :
    (tenant_id rest : String) → ¬ (lacks 47 (str_append (str_append tenant_id "/") rest) ≡ true)
slash-lacks tenant_id rest h =
    let slash : lacks 47 "/" ≡ false = unfold lacks in refl in
    ground (
      arith,
      lacks-append 47 (str_append tenant_id "/") rest,
      lacks-append 47 tenant_id "/",
      slash,
      h,
    )

-- A namespace that is accepted as an identity, and belongs to a tenant, is that tenant's own.
pub IsIdentity-belongs_to :
    (tenant_id namespace : String)
    → IsIdentity namespace
    → belongs_to tenant_id namespace ≡ true
    → namespace ≡ tenant_id
unfolding belongs_to
IsIdentity-belongs_to tenant_id namespace identity h = elim (Bool-cases (namespace == tenant_id)) [
  | inl t ↦ (text_eq.is_same_iff namespace tenant_id).0 t
  | inr f ↦
      let below : starts_with namespace (str_append tenant_id "/") ≡ true = ground (arith, h) in
      let (rest, e) = (starts_with_iff namespace (str_append tenant_id "/")).0 below in
      let without : lacks 47 namespace ≡ true =
        plain-lacks 47 namespace (omega arith) slash_is_no_identity_char identity.plain in
      let with_slash : lacks 47 (str_append (str_append tenant_id "/") rest) ≡ true =
        rw e without in
      absurd (slash-lacks tenant_id rest with_slash)
]
