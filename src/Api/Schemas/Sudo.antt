-- ===== src/Api/Schemas/Sudo.antt =====
-- The schemas of web/src/lib/api.ts for sudo roles and netgroups.
use ldapwarden.Prelude.{text, [], ◌∷◌}
use ldapwarden.Values.{Value, nil}
use ldapwarden.Api.Schema.{
  Schema, string, number, boolean, array, object_of, optional, default_to, extend,
}

abbrev pub sudo_role_schema : Schema
sudo_role_schema = object_of (
    (text "dn", string)
    ∷ (text "cn", string)
    ∷ (text "description", (optional string))
    ∷ (text "sudoUser", (optional (array string)))
    ∷ (text "sudoHost", (optional (array string)))
    ∷ (text "sudoCommand", (optional (array string)))
    ∷ (text "sudoRunAs", (optional (array string)))
    ∷ (text "sudoRunAsUser", (optional (array string)))
    ∷ (text "sudoRunAsGroup", (optional (array string)))
    ∷ (text "sudoOption", (optional (array string)))
    ∷ (text "sudoOrder", (optional number))
    ∷ (text "sudoNotBefore", (optional string))
    ∷ (text "sudoNotAfter", (optional string))
    ∷ [])

abbrev pub sudo_role_grant_schema : Schema
sudo_role_grant_schema =
    extend sudo_role_schema ((text "via", (default_to (Value.array nil) (array string))) ∷ [])

abbrev pub sudo_role_grants_response_schema : Schema
sudo_role_grants_response_schema =
    object_of
      ((text "data", (array sudo_role_grant_schema)) ∷ (text "total", (optional number)) ∷ [])

abbrev pub user_netgroups_response_schema : Schema
user_netgroups_response_schema =
    object_of (
      (text "data", (array (object_of ((text "cn", string) ∷ (text "direct", boolean) ∷ [])))) ∷ [])

abbrev pub sudo_roles_response_schema : Schema
sudo_roles_response_schema = object_of (
    (text "data", (array sudo_role_schema))
    ∷ (text "total", number)
    ∷ (text "limit", (optional number))
    ∷ (text "offset", (optional number))
    ∷ (text "truncated", (optional boolean))
    ∷ [])

abbrev pub netgroup_triple_schema : Schema
netgroup_triple_schema =
    object_of ((text "host", string) ∷ (text "user", string) ∷ (text "domain", string) ∷ [])

abbrev pub netgroup_schema : Schema
netgroup_schema = object_of (
    (text "dn", string)
    ∷ (text "cn", string)
    ∷ (text "description", (optional string))
    ∷ (text "triples", (array netgroup_triple_schema))
    ∷ (text "malformed", (optional (array string)))
    ∷ (text "members", (optional (array string)))
    ∷ [])

abbrev pub netgroups_response_schema : Schema
netgroups_response_schema = object_of (
    (text "data", (array netgroup_schema))
    ∷ (text "total", number)
    ∷ (text "limit", (optional number))
    ∷ (text "offset", (optional number))
    ∷ (text "truncated", (optional boolean))
    ∷ [])

abbrev pub netgroup_member_schema : Schema
netgroup_member_schema = object_of ((text "name", string) ∷ (text "via", (optional string)) ∷ [])

abbrev pub netgroup_expansion_schema : Schema
netgroup_expansion_schema = object_of (
    (text "root", string)
    ∷ (text "users", (array netgroup_member_schema))
    ∷ (text "hosts", (array netgroup_member_schema))
    ∷ (text "openUser", (optional (array string)))
    ∷ (text "openHost", (optional (array string)))
    ∷ (text "cycles", (optional (array string)))
    ∷ (text "dangling", (optional (array string)))
    ∷ [])

abbrev pub netgroup_delete_response_schema : Schema
netgroup_delete_response_schema = object_of (
    (text "message", string)
    ∷ (text "warnings", (default_to (Value.array nil) (array string)))
    ∷ [])
