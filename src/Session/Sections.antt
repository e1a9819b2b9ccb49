-- ===== src/Session/Sections.antt =====
-- web/src/lib/sections.ts: the areas of the app that a session can reach, in nav order.
use ldapwarden.Prelude.{
  if◌then◌else◌, JsString, text, ◌===◌, includes, Bool, false, ◌&&◌, Option, none, some, List, [],
  ◌∷◌,
}
use ldapwarden.Session.ServerInfo.{ServerInfo, Module, module_available}

-- The session of web/src/lib/api.ts.
pub record Session : Type 0 where
  pub id : Option JsString
  pub user_dn : JsString
  pub user_uid : JsString
  pub display_name : JsString
  pub mail : Option JsString
  pub role_name : JsString
  pub permissions : List JsString
  pub expires_at : JsString

unfoldable pub has_permission : Option Session → JsString → Bool
has_permission none permission = false
has_permission (some s) permission = includes permission s.permissions

unfoldable pub use_is_admin : Option Session → Bool
use_is_admin none = false
use_is_admin (some s) = s.role_name === text "admin"

pub record SectionAction : Type 0 where
  pub to : JsString
  pub label : JsString

pub data SectionKey : Type 0 where
  users groups sudo netgroups policies audit : SectionKey

pub data Icon : Type 0 where
  users users_round shield_check network key_round scroll_text : Icon

-- The fields `create` and `import`.
pub record Section : Type 0 where
  pub key : SectionKey
  pub to : JsString
  pub label : JsString
  pub short_label : Option JsString
  pub icon : Icon
  pub create : Option SectionAction
  pub import_csv : Option SectionAction

abbrev pub action_if : Bool → JsString → JsString → Option SectionAction
action_if allowed to label = if allowed then some (record { to = to; label = label }) else none

unfoldable pub push_if : Bool → Section → List Section → List Section
push_if test section rest = if test then section ∷ rest else rest

module _ (info : Option ServerInfo) (allowed : JsString → Bool) where
  unfoldable pub users_section : Section
  users_section = record {
    key = SectionKey.users;
    to = text "/users";
    label = text "Users";
    short_label = none;
    icon = Icon.users;
    create = action_if (allowed (text "users:write")) (text "/users/new") (text "New User");
    import_csv =
        action_if (allowed (text "users:write")) (text "/users/import") (text "Import Users");
  }

  unfoldable pub groups_section : Section
  groups_section = record {
    key = SectionKey.groups;
    to = text "/groups";
    label = text "Groups";
    short_label = none;
    icon = Icon.users_round;
    create = action_if (allowed (text "groups:write")) (text "/groups/new") (text "New Group");
    import_csv =
        action_if (allowed (text "groups:write")) (text "/groups/import") (text "Import Groups");
  }

  unfoldable pub sudo_section : Section
  sudo_section = record {
    key = SectionKey.sudo;
    to = text "/sudo-roles";
    label = text "Sudo Roles";
    short_label = none;
    icon = Icon.shield_check;
    create =
        action_if (allowed (text "users:write")) (text "/sudo-roles/new") (text "New Sudo Role");
    import_csv = none;
  }

  unfoldable pub netgroups_section : Section
  netgroups_section = record {
    key = SectionKey.netgroups;
    to = text "/netgroups";
    label = text "Netgroups";
    short_label = none;
    icon = Icon.network;
    create =
        action_if (allowed (text "groups:write")) (text "/netgroups/new") (text "New Netgroup");
    import_csv =
        action_if (allowed (text "groups:write")) (text "/netgroups/import")
          (text "Import Netgroups");
  }

  unfoldable pub policies_section : Section
  policies_section = record {
    key = SectionKey.policies;
    to = text "/password-policies";
    label = text "Password Policies";
    short_label = some (text "Policies");
    icon = Icon.key_round;
    create =
        action_if (allowed (text "settings:write")) (text "/password-policies/new")
          (text "New Password Policy");
    import_csv = none;
  }

  unfoldable pub audit_section : Section
  audit_section = record {
    key = SectionKey.audit;
    to = text "/audit-logs";
    label = text "Audit Logs";
    short_label = none;
    icon = Icon.scroll_text;
    create = none;
    import_csv = none;
  }

  -- The pushes, in their order.
  unfoldable pub use_sections : List Section
  use_sections =
      push_if (module_available Module.users info && allowed (text "users:read")) users_section (
        push_if (module_available Module.groups info && allowed (text "groups:read")) groups_section
          (push_if (module_available Module.sudo info && allowed (text "users:read")) sudo_section (
            push_if (module_available Module.netgroups info && allowed (text "groups:read"))
              netgroups_section
              (push_if (module_available Module.policies info && allowed (text "settings:read"))
                policies_section (push_if (allowed (text "audit:read")) audit_section [])))))
