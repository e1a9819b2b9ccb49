-- ===== src/Api/Calls/Sudo.antt =====
-- `api.sudoRoles` and `api.passwordPolicies` of web/src/lib/api.ts.
use ldapwarden.Prelude.{JsString, text, Option, none, some, [], ◌++◌}
use ldapwarden.Values.{Fields, object}
use ldapwarden.Api.Schemas.Sudo.{sudo_role_schema, sudo_roles_response_schema}
use ldapwarden.Api.Schemas.Policies.{
  password_policy_schema, password_policies_response_schema, policy_delete_response_schema,
}
use ldapwarden.Api.Query.{ListParams, list_query}
use ldapwarden.Api.Request.{
  Request, Method, post, put, entry_path, fetches, sends, fetches_entry, sends_entry, single,
}

pub data SudoRolesCall : Type 0 where
  list : Option ListParams → SudoRolesCall
  get delete : JsString → SudoRolesCall
  create : Fields → SudoRolesCall
  update : JsString → Fields → SudoRolesCall
  add_user remove_user add_group remove_group : JsString → JsString → SudoRolesCall

abbrev sudo_role_path : JsString → JsString → Option JsString
sudo_role_path dn rest = entry_path (text "sudo-roles") dn rest

unfoldable pub sudo_roles_request : SudoRolesCall → Option Request
sudo_roles_request (list params) =
    some (fetches (text "/sudo-roles" ++ list_query params) sudo_roles_response_schema)
sudo_roles_request (get dn) = fetches_entry (sudo_role_path dn []) sudo_role_schema
sudo_roles_request (create role) =
    some (sends post (text "/sudo-roles") (some (object role)) (some sudo_role_schema))
sudo_roles_request (update dn role) =
    sends_entry put (sudo_role_path dn []) (some (object role)) (some sudo_role_schema)
sudo_roles_request (SudoRolesCall.delete dn) =
    sends_entry Method.delete (sudo_role_path dn []) none none
sudo_roles_request (add_user dn uid) =
    sends_entry post (sudo_role_path dn (text "/users")) (some (single (text "uid") uid))
      (some sudo_role_schema)
sudo_roles_request (remove_user dn uid) =
    sends_entry Method.delete (sudo_role_path dn (text "/users")) (some (single (text "uid") uid))
      (some sudo_role_schema)
sudo_roles_request (add_group dn cn) =
    sends_entry post (sudo_role_path dn (text "/groups")) (some (single (text "cn") cn))
      (some sudo_role_schema)
sudo_roles_request (remove_group dn cn) =
    sends_entry Method.delete (sudo_role_path dn (text "/groups")) (some (single (text "cn") cn))
      (some sudo_role_schema)

pub data PoliciesCall : Type 0 where
  list : Option ListParams → PoliciesCall
  get delete : JsString → PoliciesCall
  create : Fields → PoliciesCall
  update : JsString → Fields → PoliciesCall

abbrev policy_path : JsString → JsString → Option JsString
policy_path dn rest = entry_path (text "password-policies") dn rest

unfoldable pub policies_request : PoliciesCall → Option Request
policies_request (list params) =
    some
      (fetches (text "/password-policies" ++ list_query params) password_policies_response_schema)
policies_request (get dn) = fetches_entry (policy_path dn []) password_policy_schema
policies_request (create policy) =
    some
      (sends post (text "/password-policies") (some (object policy)) (some password_policy_schema))
policies_request (update dn policy) =
    sends_entry put (policy_path dn []) (some (object policy)) (some password_policy_schema)
policies_request (PoliciesCall.delete dn) =
    sends_entry Method.delete (policy_path dn []) none (some policy_delete_response_schema)
