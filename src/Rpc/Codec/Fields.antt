-- ===== src/Rpc/Codec/Fields.antt =====
-- crates/sdkwork-discovery-rpc/src/codec.rs: the checks of the fields of a request. `str::len` and
-- `str::bytes` are those of UTF-8.
use sdkwork_discovery.Prelude.{
  ℕ, ◌+◌, ◌/◌, ◌%◌, String, Bool, not, ◌&&◌, ◌||◌, Option, none, some, List, [], ◌∷◌, ◌++◌,
}
use Prim.Native.Char.{code}
use sdkwork_discovery.Prelude.Lists.{length, find}
use sdkwork_discovery.Prelude.Map.{Map}
use sdkwork_discovery.Prelude.Tests.{◌==◌, ltb, leb, nat_beq, if◌then◌else◌, text_eq}
use sdkwork_discovery.Prelude.Text.{str_append, is_blank, decimal, concat}
use sdkwork_discovery.Contract.Error.{DiscoveryResult, ok, err, ◌>>◌, ensure, invalid_argument}
use sdkwork_discovery.Contract.Registry.{LabelFilter}

abbrev pub char_bytes : ℕ → List ℕ
char_bytes c =
    if ltb c 128
    then c ∷ []
    else if ltb c 2048
    then (192 + c / 64) ∷ (128 + c % 64) ∷ []
    else if ltb c 65536
    then (224 + c / 4096) ∷ (128 + c / 64 % 64) ∷ (128 + c % 64) ∷ []
    else (240 + c / 262144) ∷ (128 + c / 4096 % 64) ∷ (128 + c / 64 % 64) ∷ (128 + c % 64) ∷ []

-- `str::bytes`
unfoldable pub utf8_bytes : String → List ℕ
utf8_bytes String.[] = []
utf8_bytes (String.◌∷◌ c s) = char_bytes (code c) ++ utf8_bytes s

-- `str::len`
abbrev pub byte_length : String → ℕ
byte_length s = length (utf8_bytes s)

abbrev hex_digit : ℕ → String
hex_digit n =
    if ltb n 10
    then decimal n
    else if nat_beq n 10
    then "A"
    else if nat_beq n 11
    then "B"
    else if nat_beq n 12
    then "C"
    else if nat_beq n 13
    then "D"
    else if nat_beq n 14
    then "E"
    else "F"

-- `{byte:02X}`
abbrev hex_byte : ℕ → String
hex_byte b = str_append (hex_digit (b / 16)) (hex_digit (b % 16))

unfoldable pub is_identity_char : ℕ → Bool
is_identity_char b =
    (leb 48 b && leb b 57)
    || (leb 65 b && leb b 90)
    || (leb 97 b && leb b 122)
    || nat_beq b 46
    || nat_beq b 95
    || nat_beq b 45

unfoldable pub is_printable_ascii : ℕ → Bool
is_printable_ascii b = leb 32 b && leb b 126

unfoldable pub is_control_char : ℕ → Bool
is_control_char b = ltb b 32 || nat_beq b 127

-- `if let Some(byte) = value.bytes().find(refused) { return Err(..) }`
abbrev pub no_byte_of : Option ℕ → (ℕ → String) → DiscoveryResult (Unit {0})
no_byte_of none message = ok tt
no_byte_of (some b) message = err (invalid_argument (message b))

unfoldable pub no_byte : (ℕ → Bool) → (ℕ → String) → String → DiscoveryResult (Unit {0})
no_byte refused message value = no_byte_of (find refused (utf8_bytes value)) message

unfoldable pub at_most : String → ℕ → String → DiscoveryResult (Unit {0})
at_most what limit value =
    ensure (leb (byte_length value) limit)
      (invalid_argument (concat (what ∷ " must be at most " ∷ decimal limit ∷ " characters" ∷ [])))

abbrev bad_char : String → ℕ → String
bad_char what b = concat (
    what
    ∷ " contains an invalid character (0x"
    ∷ hex_byte b
    ∷ "); allowed set is [a-zA-Z0-9._-]"
    ∷ [])

unfoldable pub validate_required_field : String → String → DiscoveryResult (Unit {0})
validate_required_field field value =
    ensure (not (is_blank value)) (invalid_argument (str_append field " must not be empty"))

unfoldable pub validate_identity_field : String → String → DiscoveryResult (Unit {0})
validate_identity_field field value = do
  validate_required_field field value
  at_most field 128 value
  no_byte (λ b. not (is_identity_char b)) (bad_char field) value

unfoldable pub validate_endpoint_field : String → String → DiscoveryResult (Unit {0})
validate_endpoint_field field value = do
  validate_required_field field value
  at_most field 512 value
  no_byte (λ b. not (is_printable_ascii b))
      (λ b. concat (field ∷ " contains a non-printable ASCII byte (0x" ∷ hex_byte b ∷ ")" ∷ []))
      value

unfoldable pub validate_short_text_field : String → String → DiscoveryResult (Unit {0})
validate_short_text_field field value = do
  validate_required_field field value
  at_most field 64 value
  no_byte is_control_char
      (λ b. concat (field ∷ " contains a control character (0x" ∷ hex_byte b ∷ ")" ∷ [])) value

unfoldable pub validate_optional_short_text_field : String → String → DiscoveryResult (Unit {0})
validate_optional_short_text_field field value =
    if value == "" then ok tt else validate_short_text_field field value

unfoldable pub validate_entries : List (String × String) → DiscoveryResult (Unit {0})
validate_entries [] = ok tt
validate_entries ((key, value) ∷ entries) = do
  at_most "metadata key" 128 key
  no_byte (λ b. not (is_identity_char b)) (bad_char "metadata key") key
  at_most (concat ("metadata value for key '" ∷ key ∷ "'" ∷ [])) 4096 value
  validate_entries entries

unfoldable pub validate_metadata : Map String String → DiscoveryResult (Unit {0})
validate_metadata metadata =
    ensure (leb (length metadata) 64) (invalid_argument "metadata must contain at most 64 entries")
    >> validate_entries metadata

unfoldable pub validate_each_filter : List LabelFilter → DiscoveryResult (Unit {0})
validate_each_filter [] = ok tt
validate_each_filter (f ∷ fs) = do
  at_most "label_filters key" 128 f.key
  no_byte (λ b. not (is_identity_char b)) (bad_char "label_filters key") f.key
  at_most "label_filters value" 4096 f.value
  validate_each_filter fs

unfoldable pub validate_label_filters : List LabelFilter → DiscoveryResult (Unit {0})
validate_label_filters filters =
    ensure (leb (length filters) 32)
      (invalid_argument "label_filters must contain at most 32 entries")
    >> validate_each_filter filters
