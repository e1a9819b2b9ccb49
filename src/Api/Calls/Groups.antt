-- ===== src/Api/Calls/Groups.antt =====
-- `api.groups` and `api.netgroups` of web/src/lib/api.ts.
use ldapwarden.Prelude.{JsString, text, Option, none, some, List, [], ◌++◌}
use ldapwarden.Values.{Fields, object}
use ldapwarden.Api.Schemas.Users.{import_result_schema}
use ldapwarden.Api.Schemas.Groups.{
  group_schema, group_list_response_schema, group_delete_response_schema,
  change_group_cn_result_schema, group_members_response_schema,
}
use ldapwarden.Api.Schemas.Sudo.{
  sudo_roles_response_schema, netgroup_schema, netgroups_response_schema, netgroup_expansion_schema,
  netgroup_delete_response_schema,
}
use ldapwarden.Api.Query.{ListParams, list_query}
use ldapwarden.Api.Request.{
  Request, Method, post, put, entry_path, fetches, sends, fetches_entry, sends_entry, single,
  import_body,
}

pub data GroupsCall : Type 0 where
  list : Option ListParams → GroupsCall
  get delete members get_sudo_roles : JsString → GroupsCall
  create : Fields → GroupsCall
  import_rows : List Fields → GroupsCall
  update update_samba : JsString → Fields → GroupsCall
  change_cn add_member remove_member : JsString → JsString → GroupsCall

abbrev group_path : JsString → JsString → Option JsString
group_path dn rest = entry_path (text "groups") dn rest

unfoldable pub groups_request : GroupsCall → Option Request
groups_request (list params) =
    some (fetches (text "/groups" ++ list_query params) group_list_response_schema)
groups_request (get dn) = fetches_entry (group_path dn []) group_schema
groups_request (create group) =
    some (sends post (text "/groups") (some (object group)) (some group_schema))
groups_request (update dn group) =
    sends_entry put (group_path dn []) (some (object group)) (some group_schema)
groups_request (GroupsCall.delete dn) =
    sends_entry Method.delete (group_path dn []) none (some group_delete_response_schema)
groups_request (import_rows rows) =
    some (sends post (text "/groups/import") (some (import_body rows)) (some import_result_schema))
groups_request (change_cn dn new_cn) =
    sends_entry post (group_path dn (text "/change-cn")) (some (single (text "newCn") new_cn))
      (some change_group_cn_result_schema)
groups_request (add_member dn member_uid) =
    sends_entry post (group_path dn (text "/members")) (some (single (text "memberUid") member_uid))
      none
groups_request (remove_member dn member_uid) =
    sends_entry Method.delete (group_path dn (text "/members"))
      (some (single (text "memberUid") member_uid)) none
groups_request (members dn) =
    fetches_entry (group_path dn (text "/members")) group_members_response_schema
groups_request (get_sudo_roles dn) =
    fetches_entry (group_path dn (text "/sudo-roles")) sudo_roles_response_schema
groups_request (update_samba dn samba) =
    sends_entry put (group_path dn (text "/samba")) (some (object samba)) (some group_schema)

pub data NetgroupsCall : Type 0 where
  list : Option ListParams → NetgroupsCall
  get expand get_sudo_roles delete : JsString → NetgroupsCall
  create : Fields → NetgroupsCall
  import_rows : List Fields → NetgroupsCall
  update : JsString → Fields → NetgroupsCall

abbrev netgroup_path : JsString → JsString → Option JsString
netgroup_path dn rest = entry_path (text "netgroups") dn rest

unfoldable pub netgroups_request : NetgroupsCall → Option Request
netgroups_request (list params) =
    some (fetches (text "/netgroups" ++ list_query params) netgroups_response_schema)
netgroups_request (get dn) = fetches_entry (netgroup_path dn []) netgroup_schema
netgroups_request (expand dn) =
    fetches_entry (netgroup_path dn (text "/expand")) netgroup_expansion_schema
netgroups_request (get_sudo_roles dn) =
    fetches_entry (netgroup_path dn (text "/sudo-roles")) sudo_roles_response_schema
netgroups_request (create netgroup) =
    some (sends post (text "/netgroups") (some (object netgroup)) (some netgroup_schema))
netgroups_request (import_rows rows) =
    some
      (sends post (text "/netgroups/import") (some (import_body rows)) (some import_result_schema))
netgroups_request (update dn netgroup) =
    sends_entry put (netgroup_path dn []) (some (object netgroup)) (some netgroup_schema)
netgroups_request (NetgroupsCall.delete dn) =
    sends_entry Method.delete (netgroup_path dn []) none (some netgroup_delete_response_schema)
