-- ===== src/Api/Schemas/Groups.antt =====
-- The schemas of web/src/lib/api.ts for groups.
use ldapwarden.Prelude.{text, [], ◌∷◌}
use ldapwarden.Values.{Value, nil}
use ldapwarden.Api.Schema.{
  Schema, string, number, boolean, array, object_of, optional, nullish, or_empty, default_to,
}
use ldapwarden.Api.Schemas.Users.{lockout_schema}

abbrev pub group_schema : Schema
group_schema = object_of (
    (text "dn", string)
    ∷ (text "cn", string)
    ∷ (text "gidNumber", number)
    ∷ (text "description", (optional string))
    ∷ (text "memberUid", (optional (array string)))
    ∷ (text "objectClasses", (optional (array string)))
    ∷ (text "sambaSID", (optional string))
    ∷ (text "sambaGroupType", (optional string))
    ∷ (text "displayName", (optional string))
    ∷ [])

abbrev pub groups_response_schema : Schema
groups_response_schema = object_of (
    (text "data", (array group_schema))
    ∷ (text "total", number)
    ∷ (text "truncated", (optional boolean))
    ∷ [])

abbrev pub change_group_cn_result_schema : Schema
change_group_cn_result_schema =
    object_of
      ((text "group", group_schema) ∷ (text "warnings", (or_empty (nullish (array string)))) ∷ [])

abbrev pub group_list_item_schema : Schema
group_list_item_schema = object_of (
    (text "dn", string)
    ∷ (text "cn", string)
    ∷ (text "gidNumber", number)
    ∷ (text "description", (optional string))
    ∷ (text "membersCount", (optional number))
    ∷ [])

abbrev pub group_member_schema : Schema
group_member_schema = object_of (
    (text "uid", string)
    ∷ (text "dn", (optional string))
    ∷ (text "cn", (optional string))
    ∷ (text "displayName", (optional string))
    ∷ (text "hasPhoto", (optional boolean))
    ∷ (text "pwdAccountLockedTime", (optional string))
    ∷ (text "pwdEndTime", (optional string))
    ∷ (text "lockout", (optional lockout_schema))
    ∷ [])

abbrev pub group_members_response_schema : Schema
group_members_response_schema = object_of ((text "data", (array group_member_schema)) ∷ [])

abbrev pub group_list_response_schema : Schema
group_list_response_schema = object_of (
    (text "data", (array group_list_item_schema))
    ∷ (text "total", number)
    ∷ (text "limit", (optional number))
    ∷ (text "offset", (optional number))
    ∷ (text "truncated", (optional boolean))
    ∷ [])

abbrev pub group_delete_response_schema : Schema
group_delete_response_schema = object_of (
    (text "message", string)
    ∷ (text "warnings", (default_to (Value.array nil) (array string)))
    ∷ [])
