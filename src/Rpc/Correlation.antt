-- ===== src/Rpc/Correlation.antt =====
-- crates/sdkwork-discovery-rpc/src/context.rs: the request and trace identifiers. `generated` is the
-- identifier that the UUID package makes.
use sdkwork_discovery.Prelude.{ℕ, String, Bool, ◌&&◌, ◌||◌, Option, none, some, List, [], ◌∷◌}
use Prim.Native.Char.{code}
use sdkwork_discovery.Prelude.Lists.{every}
use sdkwork_discovery.Prelude.Tests.{◌==◌, leb, nat_beq, if◌then◌else◌, text_eq}
use sdkwork_discovery.Prelude.Text.{str_append, trim, split_on}
use sdkwork_discovery.Contract.Error.{DiscoveryResult, ok, ◌>>=◌, ◌>>◌, ensure, invalid_argument}
use sdkwork_discovery.Rpc.Codec.Fields.{byte_length, utf8_bytes}
use sdkwork_discovery.Rpc.Context.{MetadataMap, optional_metadata_value}

unfoldable pub validate_request_id : String → DiscoveryResult (Unit {0})
validate_request_id value =
    ensure (leb (byte_length value) 128)
      (invalid_argument "x-request-id must be at most 128 characters")

abbrev given_or : String → Option String → DiscoveryResult String
given_or generated none = ok generated
given_or generated (some given) =
    if trim given == "" then ok generated else (validate_request_id (trim given) >> ok (trim given))

unfoldable pub request_id_from_metadata : String → MetadataMap → DiscoveryResult String
request_id_from_metadata generated metadata =
    optional_metadata_value metadata "x-request-id" >>= λ given. given_or generated given

unfoldable pub is_hex_digit : ℕ → Bool
is_hex_digit b = (leb 48 b && leb b 57) || (leb 65 b && leb b 70) || (leb 97 b && leb b 102)

-- `to_ascii_lowercase`, of hexadecimal digits.
unfoldable pub lowercase_hex : String → String
lowercase_hex String.[] = ""
lowercase_hex (String.◌∷◌ c s) =
    let rest = lowercase_hex s in
    if nat_beq (code c) 65
    then str_append "a" rest
    else if nat_beq (code c) 66
    then str_append "b" rest
    else if nat_beq (code c) 67
    then str_append "c" rest
    else if nat_beq (code c) 68
    then str_append "d" rest
    else if nat_beq (code c) 69
    then str_append "e" rest
    else if nat_beq (code c) 70
    then str_append "f" rest
    else String.◌∷◌ c rest

abbrev trace_part : List String → Option String
trace_part [] = none
trace_part (version ∷ []) = none
trace_part (version ∷ trace_id ∷ rest) =
    if nat_beq (byte_length trace_id) 32 && every is_hex_digit (utf8_bytes trace_id)
    then some (lowercase_hex trace_id)
    else none

unfoldable pub parse_trace_id_from_traceparent : String → Option String
parse_trace_id_from_traceparent traceparent =
    if trim traceparent == "" then none else trace_part (split_on 45 (trim traceparent))

abbrev or_empty : Option String → String
or_empty none = ""
or_empty (some s) = s

unfoldable pub trace_id_from_metadata : MetadataMap → DiscoveryResult String
trace_id_from_metadata metadata = optional_metadata_value metadata "traceparent" >>= λ traceparent.
    ok (or_empty (parse_trace_id_from_traceparent (or_empty traceparent)))
