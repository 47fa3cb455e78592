-- ===== src/Contract/Context.antt =====
-- crates/sdkwork-discovery-contract/src/context.rs: the caller and its permissions.
use sdkwork_discovery.Prelude.{
  String, Bool, true, false, not, ◌||◌, Option, none, some, List, [], ◌∷◌, ◌++◌,
}
use sdkwork_discovery.Prelude.Tests.{if◌then◌else◌}
use sdkwork_discovery.Prelude.Text.{is_blank}

pub data RegistryPermission : Type 0 where
  read write admin : RegistryPermission

pub data ConfigPermission : Type 0 where
  read write publish rollback admin : ConfigPermission

abbrev pub registry_permission_beq : RegistryPermission → RegistryPermission → Bool
registry_permission_beq RegistryPermission.read RegistryPermission.read = true
registry_permission_beq RegistryPermission.write RegistryPermission.write = true
registry_permission_beq RegistryPermission.admin RegistryPermission.admin = true
registry_permission_beq _ _ = false

abbrev pub config_permission_beq : ConfigPermission → ConfigPermission → Bool
config_permission_beq ConfigPermission.read ConfigPermission.read = true
config_permission_beq ConfigPermission.write ConfigPermission.write = true
config_permission_beq ConfigPermission.publish ConfigPermission.publish = true
config_permission_beq ConfigPermission.rollback ConfigPermission.rollback = true
config_permission_beq ConfigPermission.admin ConfigPermission.admin = true
config_permission_beq _ _ = false

-- `Vec::contains`
abbrev pub contains : {A : Type 0} → (A → A → Bool) → List A → A → Bool
contains beq [] a = false
contains beq (x ∷ xs) a = beq x a || contains beq xs a

pub record CallerContext : Type 0 where
  pub subject_id : String
  pub tenant_id : Option String
  pub organization_id : Option String
  pub registry_permissions : List RegistryPermission
  pub config_permissions : List ConfigPermission

-- `CallerContext::new`
unfoldable pub new_caller : String → CallerContext
new_caller subject_id = record {
  subject_id = subject_id;
  tenant_id = none;
  organization_id = none;
  registry_permissions = [];
  config_permissions = [];
}

unfoldable pub with_tenant_id : CallerContext → String → CallerContext
with_tenant_id c tenant_id =
    if not (is_blank tenant_id) then record c { tenant_id = some tenant_id } else c

unfoldable pub with_organization_id : CallerContext → String → CallerContext
with_organization_id c organization_id =
    if not (is_blank organization_id)
    then record c { organization_id = some organization_id }
    else c

unfoldable pub with_registry_permission : CallerContext → RegistryPermission → CallerContext
with_registry_permission c p =
    if not (contains registry_permission_beq c.registry_permissions p)
    then record c { registry_permissions = c.registry_permissions ++ p ∷ [] }
    else c

unfoldable pub with_config_permission : CallerContext → ConfigPermission → CallerContext
with_config_permission c p =
    if not (contains config_permission_beq c.config_permissions p)
    then record c { config_permissions = c.config_permissions ++ p ∷ [] }
    else c

unfoldable pub has_registry_permission : CallerContext → RegistryPermission → Bool
has_registry_permission c required =
    contains registry_permission_beq c.registry_permissions RegistryPermission.admin
    || contains registry_permission_beq c.registry_permissions required

unfoldable pub has_config_permission : CallerContext → ConfigPermission → Bool
has_config_permission c required =
    contains config_permission_beq c.config_permissions ConfigPermission.admin
    || contains config_permission_beq c.config_permissions required
