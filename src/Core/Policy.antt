-- ===== src/Core/Policy.antt =====
-- crates/sdkwork-discovery-core/src/{policy,permissions,tenant_scope}.rs: what a caller may do. The
-- parsers of JSON and TOML come from other packages: a parameter gives the parser's error, if any.
use Prim.Native.Char.{code}
use Prim.Native.String.{len, ◌++◌}
use sdkwork_discovery.Prelude.{
  ℕ, ◌+◌, String, Bool, true, false, not, ◌&&◌, ◌||◌, Option, none, some, List, [], ◌∷◌,
}
use sdkwork_discovery.Prelude.Tests.{◌==◌, nat_beq, ltb, leb, if◌then◌else◌, text_eq}
use sdkwork_discovery.Prelude.Text.{decimal, str_append, trim_start}
use sdkwork_discovery.Contract.Error.{
  DiscoveryResult, ok, err, ◌>>◌, ensure, invalid_argument, invalid_config, permission_denied,
  policy_violation, not_found,
}
use sdkwork_discovery.Contract.Config.{ConfigFormat, text, json, toml, EffectiveConfig}
use sdkwork_discovery.Contract.Context.{
  CallerContext, RegistryPermission, ConfigPermission, has_registry_permission,
  has_config_permission,
}
use package.text.Mathlib.Text.{starts_with}

pub record ConfigPolicy : Type 0 where
  pub enabled : Bool
  pub require_publish_for_reads : Bool
  pub allow_secret_values : Bool
  pub allow_secret_refs : Bool
  pub max_config_body_bytes : ℕ

pub record RegistryPolicy : Type 0 where
  pub default_lease_ttl_seconds : ℕ
  pub min_lease_ttl_seconds : ℕ
  pub max_lease_ttl_seconds : ℕ

-- `RegistryPolicy::default()`
abbrev pub default_registry_policy : RegistryPolicy
default_registry_policy = record {
  default_lease_ttl_seconds = 30;
  min_lease_ttl_seconds = 1;
  max_lease_ttl_seconds = 300;
}

unfoldable pub lacks_permission : CallerContext → String → String
lacks_permission caller what = "subject " ++ (caller.subject_id ++ what)

unfoldable pub require_registry_permission :
    CallerContext → RegistryPermission → DiscoveryResult (Unit {0})
require_registry_permission caller permission =
    ensure (has_registry_permission caller permission)
      (permission_denied (lacks_permission caller " lacks registry permission"))

unfoldable pub require_config_permission :
    CallerContext → ConfigPermission → DiscoveryResult (Unit {0})
require_config_permission caller permission =
    ensure (has_config_permission caller permission)
      (permission_denied (lacks_permission caller " lacks config permission"))

-- The namespace is the tenant's own, or lies below it.
unfoldable pub belongs_to : String → String → Bool
belongs_to tenant_id namespace =
    namespace == tenant_id || starts_with namespace (str_append tenant_id "/")

unfoldable pub not_authorized : CallerContext → String → String
not_authorized caller namespace =
    "subject " ++ (caller.subject_id ++ (" is not authorized for namespace " ++ namespace))

unfoldable pub require_namespace_tenant_access : CallerContext → String → DiscoveryResult (Unit {0})
require_namespace_tenant_access caller namespace = elim caller.tenant_id [
  | none ↦ ok tt
  | some tenant_id ↦
      ensure (belongs_to tenant_id namespace) (permission_denied (not_authorized caller namespace))
]

unfoldable pub require_config_registry_enabled : ConfigPolicy → DiscoveryResult (Unit {0})
require_config_registry_enabled policy =
    ensure policy.enabled (invalid_config "config registry is disabled")

unfoldable pub ttl_range : RegistryPolicy → String
ttl_range policy =
    "lease ttl must be between "
    ++ (decimal policy.min_lease_ttl_seconds
        ++ (" and " ++ (decimal policy.max_lease_ttl_seconds ++ " seconds")))

unfoldable pub validate_registry_lease_ttl : RegistryPolicy → ℕ → DiscoveryResult (Unit {0})
validate_registry_lease_ttl policy lease_ttl_seconds = do
  ensure
      (not (
        ltb policy.default_lease_ttl_seconds policy.min_lease_ttl_seconds
        || ltb policy.max_lease_ttl_seconds policy.default_lease_ttl_seconds))
      (invalid_config "lease ttl bounds must satisfy min <= default <= max")
  ensure
      (not (
        ltb lease_ttl_seconds policy.min_lease_ttl_seconds
        || ltb policy.max_lease_ttl_seconds lease_ttl_seconds))
      (policy_violation (ttl_range policy))

unfoldable pub is_secret_reference : String → Bool
is_secret_reference value = starts_with (trim_start value) "secret_ref:"

-- The code points of a text in ASCII lower case.
unfoldable pub lower_codes : String → List ℕ
lower_codes String.[] = []
lower_codes (String.◌∷◌ c s) =
    (if leb b'A' (code c) && leb (code c) b'Z' then code c + 32 else code c) ∷ lower_codes s

abbrev begins_with : List ℕ → List ℕ → Bool
begins_with [] text_ = true
begins_with (c ∷ word) [] = false
begins_with (c ∷ word) (d ∷ text_) =
    let rest = begins_with word text_ in if nat_beq c d then rest else false

-- `contains`
abbrev has_word : List ℕ → List ℕ → Bool
has_word word [] = begins_with word []
has_word word (d ∷ text_) = begins_with word (d ∷ text_) || has_word word text_

unfoldable pub looks_like_literal_secret : String → Bool
unfolding lower_codes
looks_like_literal_secret value =
    let normalized = lower_codes value in
    has_word (lower_codes "password") normalized
    || has_word (lower_codes "secret") normalized
    || has_word (lower_codes "access_token") normalized
    || has_word (lower_codes "auth_token") normalized
    || has_word (lower_codes "api_key") normalized

pub record Parsers : Type 0 where
  pub json_error : String → Option String
  pub toml_error : String → Option String

abbrev none_or : Option String → String → DiscoveryResult (Unit {0})
none_or none message = ok tt
none_or (some error) message = err (invalid_argument (str_append message error))

unfoldable pub validate_config_format : Parsers → ConfigFormat → String → DiscoveryResult (Unit {0})
validate_config_format parsers text value = ok tt
validate_config_format parsers json value =
    none_or (parsers.json_error value) "config value must be valid JSON for JSON format: "
validate_config_format parsers toml value =
    none_or (parsers.toml_error value) "config value must be valid TOML for TOML format: "

abbrev check_secrets : ConfigPolicy → String → DiscoveryResult (Unit {0})
check_secrets policy value =
    if is_secret_reference value
    then ensure policy.allow_secret_refs
        (policy_violation "secret references are disabled by policy")
    else ensure (policy.allow_secret_values || not (looks_like_literal_secret value))
        (policy_violation "literal secret values are disabled by policy")

unfoldable pub validate_config_policy :
    Parsers → ConfigPolicy → ConfigFormat → String → DiscoveryResult (Unit {0})
validate_config_policy parsers policy format value = do
  ensure (leb (len value) policy.max_config_body_bytes)
      (policy_violation "config body exceeds configured maximum size")
  validate_config_format parsers format value
  check_secrets policy value

abbrev no_values : EffectiveConfig → Bool
no_values effective = elim effective.values [ [] ↦ true | v ∷ vs ↦ false ]

unfoldable pub validate_effective_config_read_policy :
    ConfigPolicy → EffectiveConfig → DiscoveryResult (Unit {0})
validate_effective_config_read_policy policy effective =
    ensure (not (policy.require_publish_for_reads && no_values effective))
      (not_found "published config not found for requested scope")
