-- ===== src/Session/ServerInfo.antt =====
-- web/src/lib/use-server-info.ts: which modules exist in this deployment, and the route guard.
use ldapwarden.Prelude.{
  if◌then◌else◌, or_default, JsString, text, is_empty, includes, ◌≡◌, refl, ◌↔◌, Bool, true, false,
  ◌&&◌, Option, none, some, List, [], ◌∷◌, map, arith,
}

pub record Version : Type 0 where
  pub version : JsString
  pub revision : Option JsString
  pub modified : Option Bool

pub record Capabilities : Type 0 where
  pub scheduled_expiry_supported : Option Bool
  pub policy_enforcement : Option JsString
  pub netgroups_supported : Option Bool

-- The three lists are `[]` where the answer leaves them out.
pub record ServerInfo : Type 0 where
  pub version : Version
  pub modules : List JsString
  pub users_objects : List JsString
  pub groups_objects : List JsString
  pub capabilities : Capabilities

pub data Module : Type 0 where
  users groups sudo policies netgroups : Module

-- The literal that a module is in the source.
abbrev pub module_name : Module → JsString
module_name users = text "users"
module_name groups = text "groups"
module_name sudo = text "sudo"
module_name policies = text "policies"
module_name netgroups = text "netgroups"

abbrev pub default_modules : List JsString
default_modules =
    text "users" ∷ text "groups" ∷ text "sudo" ∷ text "policies" ∷ text "netgroups" ∷ []

unfoldable pub netgroups_enabled : List JsString → Bool → Bool
netgroups_enabled modules supported = supported && includes (text "netgroups") modules

-- `info?.modules?.length ? info.modules : DEFAULT_MODULES`.
unfoldable pub enabled_modules : Option ServerInfo → List JsString
enabled_modules none = default_modules
enabled_modules (some info) = if is_empty info.modules then default_modules else info.modules

-- `info?.capabilities?.netgroupsSupported ?? false`.
unfoldable pub netgroups_supported : Option ServerInfo → Bool
netgroups_supported none = false
netgroups_supported (some info) = or_default info.capabilities.netgroups_supported false

unfoldable pub module_available : Module → Option ServerInfo → Bool
module_available netgroups info =
    netgroups_enabled (enabled_modules info) (netgroups_supported info)
module_available m info = includes (module_name m) (enabled_modules info)

pub data Guarded : Type 0 where
  proceed : Guarded
  redirect : JsString → Guarded

-- The answer of the query is an argument; `none` is a query that failed.
unfoldable pub require_module : Option ServerInfo → Module → Guarded
require_module none m = proceed
require_module (some info) m =
    if module_available m (some info) then proceed else redirect (text "/")

unfoldable pub use_netgroups_enabled : Option ServerInfo → Bool
use_netgroups_enabled info = module_available netgroups info

pub data ObjectKind : Type 0 where
  users groups : ObjectKind

abbrev configured_objects : ObjectKind → Option ServerInfo → List JsString
configured_objects kind none = []
configured_objects ObjectKind.users (some info) = info.users_objects
configured_objects ObjectKind.groups (some info) = info.groups_objects

-- The set is its list of values; `lower` is `toLowerCase`.
unfoldable pub use_enabled_objects :
    (JsString → JsString) → ObjectKind → List JsString → Option ServerInfo → List JsString
use_enabled_objects lower kind fallback info =
    map lower
      (if is_empty (configured_objects kind info) then fallback else configured_objects kind info)

-- A module's pages render when its name is among the enabled modules; those of the netgroups
-- module only when the directory can hold netgroups as well.
pub module_available_iff :
    (m : Module) (info : ServerInfo)
    → (module_available m (some info) ≡ true) ↔ (
        (includes (module_name m) (enabled_modules (some info)) ≡ true)
        × (m ≡ netgroups → info.capabilities.netgroups_supported ≡ some true))
unfolding module_available netgroups_enabled netgroups_supported
module_available_iff users info = (λ h. (h, λ e. cc), λ h. h.0)
module_available_iff groups info = (λ h. (h, λ e. cc), λ h. h.0)
module_available_iff sudo info = (λ h. (h, λ e. cc), λ h. h.0)
module_available_iff policies info = (λ h. (h, λ e. cc), λ h. h.0)
module_available_iff netgroups info =
    (λ h. (ground arith, λ e. ground arith), λ (h, k). ground (arith, k refl))
