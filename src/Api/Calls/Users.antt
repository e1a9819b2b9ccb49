-- ===== src/Api/Calls/Users.antt =====
-- `api.auth` and `api.users` of web/src/lib/api.ts. An object that the caller fills in is its
-- fields.
use ldapwarden.Prelude.{or_default, JsString, text, Option, none, some, List, [], ◌++◌}
use ldapwarden.Values.{Fields, object, array, string, field, end}
use ldapwarden.Api.Schemas.Auth.{login_response_schema, session_schema, me_avatar_schema}
use ldapwarden.Api.Schemas.Users.{
  users_response_schema, user_schema, warnings_result_schema, import_result_schema,
  change_uid_result_schema, change_posix_ids_result_schema,
}
use ldapwarden.Api.Schemas.Groups.{groups_response_schema}
use ldapwarden.Api.Schemas.Sudo.{sudo_role_grants_response_schema, user_netgroups_response_schema}
use ldapwarden.Api.Query.{ListParams, list_query}
use ldapwarden.Api.Request.{
  Request, Method, post, put, entry_path, fetches, sends, fetches_entry, sends_entry, single,
  import_body, strings_of,
}

pub data AuthCall : Type 0 where
  login change_password : JsString → JsString → AuthCall
  logout me avatar : AuthCall

unfoldable pub auth_request : AuthCall → Request
auth_request (login username password) =
    sends post (text "/auth/login")
      (some (
        object (
          field (text "username") (string username)
            (field (text "password") (string password) end))))
      (some login_response_schema)
auth_request logout = sends post (text "/auth/logout") none none
auth_request me = fetches (text "/auth/me") session_schema
auth_request avatar = fetches (text "/auth/me/avatar") me_avatar_schema
auth_request (change_password current_password password) =
    sends post (text "/auth/change-password")
      (some (
        object (
          field (text "currentPassword") (string current_password)
            (field (text "password") (string password) end))))
      none

pub data UsersCall : Type 0 where
  list : Option ListParams → UsersCall
  get delete get_groups lock unlock remove_password get_sudo_roles get_netgroups
        send_password_reset :
      JsString → UsersCall
  create : Fields → UsersCall
  import_rows : List Fields → UsersCall
  update change_posix_ids update_samba update_shadow : JsString → Fields → UsersCall
  change_uid change_password add_ssh_key remove_ssh_key : JsString → JsString → UsersCall
  set_expiration : JsString → Option JsString → UsersCall
  set_ssh_keys : JsString → List JsString → UsersCall

abbrev user_path : JsString → JsString → Option JsString
user_path dn rest = entry_path (text "users") dn rest

unfoldable pub users_request : UsersCall → Option Request
users_request (list params) =
    some (fetches (text "/users" ++ list_query params) users_response_schema)
users_request (get dn) = fetches_entry (user_path dn []) user_schema
users_request (create user) =
    some (sends post (text "/users") (some (object user)) (some user_schema))
users_request (update dn user) =
    sends_entry put (user_path dn []) (some (object user)) (some user_schema)
users_request (UsersCall.delete dn) =
    sends_entry Method.delete (user_path dn []) none (some warnings_result_schema)
users_request (import_rows rows) =
    some (sends post (text "/users/import") (some (import_body rows)) (some import_result_schema))
users_request (get_groups dn) = fetches_entry (user_path dn (text "/groups")) groups_response_schema
users_request (change_posix_ids dn ids) =
    sends_entry post (user_path dn (text "/change-posix-ids")) (some (object ids))
      (some change_posix_ids_result_schema)
users_request (change_uid dn new_uid) =
    sends_entry post (user_path dn (text "/change-uid")) (some (single (text "newUid") new_uid))
      (some change_uid_result_schema)
users_request (lock dn) = sends_entry post (user_path dn (text "/lock")) none none
users_request (unlock dn) = sends_entry post (user_path dn (text "/unlock")) none none
users_request (set_expiration dn date) =
    sends_entry put (user_path dn (text "/expiration"))
      (some (single (text "expirationDate") (or_default date []))) none
users_request (UsersCall.change_password dn password) =
    sends_entry post (user_path dn (text "/password")) (some (single (text "password") password))
      none
users_request (remove_password dn) =
    sends_entry Method.delete (user_path dn (text "/password")) none none
users_request (set_ssh_keys dn keys) =
    sends_entry put (user_path dn (text "/ssh-keys"))
      (some (object (field (text "keys") (array (strings_of keys)) end))) (some user_schema)
users_request (add_ssh_key dn key) =
    sends_entry post (user_path dn (text "/ssh-keys")) (some (single (text "key") key))
      (some user_schema)
users_request (remove_ssh_key dn key) =
    sends_entry Method.delete (user_path dn (text "/ssh-keys")) (some (single (text "key") key))
      (some user_schema)
users_request (get_sudo_roles dn) =
    fetches_entry (user_path dn (text "/sudo-roles")) sudo_role_grants_response_schema
users_request (get_netgroups dn) =
    fetches_entry (user_path dn (text "/netgroups")) user_netgroups_response_schema
users_request (send_password_reset dn) =
    sends_entry post (user_path dn (text "/send-password-reset")) none none
users_request (update_samba dn samba) =
    sends_entry put (user_path dn (text "/samba")) (some (object samba)) (some user_schema)
users_request (update_shadow dn shadow) =
    sends_entry put (user_path dn (text "/shadow")) (some (object shadow)) (some user_schema)
