-- ===== src/Api/Calls/Laws.antt =====
-- What holds of every request that `api` makes.
use ldapwarden.Prelude.{
  is_some, JsString, ◌≡◌, refl, subst, ◌≢◌, Bool, true, false, Option, none, some, arith,
}
use ldapwarden.Values.{Value}
use ldapwarden.Api.Schema.{Schema}
use ldapwarden.Api.Request.{Request, Method, get, fetches, sends, fetches_entry, sends_entry}
use ldapwarden.Api.Calls.Users.{UsersCall, AuthCall, auth_request, users_request}
use ldapwarden.Api.Calls.Groups.{GroupsCall, groups_request, NetgroupsCall, netgroups_request}
use ldapwarden.Api.Calls.Sudo.{SudoRolesCall, sudo_roles_request, PoliciesCall, policies_request}
use ldapwarden.Api.Calls.System.{
  SystemCall, system_request, AdminCall, admin_request, ResetCall, reset_request,
}
use ldapwarden.Api.Calls.{
  Call, request, auth, users, groups, netgroups, sudo_roles, password_policies, system, admin,
  password_reset,
}

-- A request that reads sends no body, and its answer is validated.
pub record IsSound (signed : Bool) (r : Request) : Type 0 where
  pub session : r.signed ≡ signed
  pub no_body : r.method ≡ get → r.body ≡ none
  pub validated : r.method ≡ get → is_some r.schema ≡ true

fetches-IsSound : (endpoint : JsString) (s : Schema) → IsSound true (fetches endpoint s)
fetches-IsSound endpoint s = record { session = refl; no_body = λ e. refl; validated = λ e. refl }

sends-IsSound :
    (m : Method) (endpoint : JsString) (b : Option Value) (s : Option Schema)
    → m ≢ get
    → IsSound true (sends m endpoint b s)
sends-IsSound m endpoint b s h = record {
  session = refl;
  no_body = λ e. absurd (h e);
  validated = λ e. absurd (h e);
}

abbrev IsSoundIf : Option Request → Type 0
IsSoundIf o = (r : Request) → o ≡ some r → IsSound true r

some-IsSound : (q : Request) → IsSound true q → IsSoundIf (some q)
some-IsSound q h r e = let same : q ≡ r = ground arith in subst (IsSound true) same h

fetches_entry-IsSound : (path : Option JsString) (s : Schema) → IsSoundIf (fetches_entry path s)
fetches_entry-IsSound none s r e = cc
fetches_entry-IsSound (some p) s r e = some-IsSound (fetches p s) (fetches-IsSound p s) r e

sends_entry-IsSound :
    (m : Method) (path : Option JsString) (b : Option Value) (s : Option Schema)
    → m ≢ get
    → IsSoundIf (sends_entry m path b s)
sends_entry-IsSound m none b s h r e = cc
sends_entry-IsSound m (some p) b s h r e =
    some-IsSound (sends m p b s) (sends-IsSound m p b s h) r e

auth-IsSound : (c : AuthCall) → IsSound true (auth_request c)
unfolding auth_request
auth-IsSound (AuthCall.login username password) = sends-IsSound _ _ _ _ (λ h. cc)
auth-IsSound AuthCall.logout = sends-IsSound _ _ _ _ (λ h. cc)
auth-IsSound AuthCall.me = fetches-IsSound _ _
auth-IsSound AuthCall.avatar = fetches-IsSound _ _
auth-IsSound (AuthCall.change_password current_password password) = sends-IsSound _ _ _ _ (λ h. cc)

users-IsSound : (c : UsersCall) → IsSoundIf (users_request c)
unfolding users_request
users-IsSound (UsersCall.list params) = some-IsSound _ (fetches-IsSound _ _)
users-IsSound (UsersCall.get dn) = fetches_entry-IsSound _ _
users-IsSound (UsersCall.create user) = some-IsSound _ (sends-IsSound _ _ _ _ (λ h. cc))
users-IsSound (UsersCall.update dn user) = sends_entry-IsSound _ _ _ _ (λ h. cc)
users-IsSound (UsersCall.delete dn) = sends_entry-IsSound _ _ _ _ (λ h. cc)
users-IsSound (UsersCall.import_rows rows) = some-IsSound _ (sends-IsSound _ _ _ _ (λ h. cc))
users-IsSound (UsersCall.get_groups dn) = fetches_entry-IsSound _ _
users-IsSound (UsersCall.change_posix_ids dn ids) = sends_entry-IsSound _ _ _ _ (λ h. cc)
users-IsSound (UsersCall.change_uid dn new_uid) = sends_entry-IsSound _ _ _ _ (λ h. cc)
users-IsSound (UsersCall.lock dn) = sends_entry-IsSound _ _ _ _ (λ h. cc)
users-IsSound (UsersCall.unlock dn) = sends_entry-IsSound _ _ _ _ (λ h. cc)
users-IsSound (UsersCall.set_expiration dn date) = sends_entry-IsSound _ _ _ _ (λ h. cc)
users-IsSound (UsersCall.change_password dn password) = sends_entry-IsSound _ _ _ _ (λ h. cc)
users-IsSound (UsersCall.remove_password dn) = sends_entry-IsSound _ _ _ _ (λ h. cc)
users-IsSound (UsersCall.set_ssh_keys dn keys) = sends_entry-IsSound _ _ _ _ (λ h. cc)
users-IsSound (UsersCall.add_ssh_key dn key) = sends_entry-IsSound _ _ _ _ (λ h. cc)
users-IsSound (UsersCall.remove_ssh_key dn key) = sends_entry-IsSound _ _ _ _ (λ h. cc)
users-IsSound (UsersCall.get_sudo_roles dn) = fetches_entry-IsSound _ _
users-IsSound (UsersCall.get_netgroups dn) = fetches_entry-IsSound _ _
users-IsSound (UsersCall.send_password_reset dn) = sends_entry-IsSound _ _ _ _ (λ h. cc)
users-IsSound (UsersCall.update_samba dn samba) = sends_entry-IsSound _ _ _ _ (λ h. cc)
users-IsSound (UsersCall.update_shadow dn shadow) = sends_entry-IsSound _ _ _ _ (λ h. cc)

groups-IsSound : (c : GroupsCall) → IsSoundIf (groups_request c)
unfolding groups_request
groups-IsSound (GroupsCall.list params) = some-IsSound _ (fetches-IsSound _ _)
groups-IsSound (GroupsCall.get dn) = fetches_entry-IsSound _ _
groups-IsSound (GroupsCall.create group) = some-IsSound _ (sends-IsSound _ _ _ _ (λ h. cc))
groups-IsSound (GroupsCall.update dn group) = sends_entry-IsSound _ _ _ _ (λ h. cc)
groups-IsSound (GroupsCall.delete dn) = sends_entry-IsSound _ _ _ _ (λ h. cc)
groups-IsSound (GroupsCall.import_rows rows) = some-IsSound _ (sends-IsSound _ _ _ _ (λ h. cc))
groups-IsSound (GroupsCall.change_cn dn new_cn) = sends_entry-IsSound _ _ _ _ (λ h. cc)
groups-IsSound (GroupsCall.add_member dn member_uid) = sends_entry-IsSound _ _ _ _ (λ h. cc)
groups-IsSound (GroupsCall.remove_member dn member_uid) = sends_entry-IsSound _ _ _ _ (λ h. cc)
groups-IsSound (GroupsCall.members dn) = fetches_entry-IsSound _ _
groups-IsSound (GroupsCall.get_sudo_roles dn) = fetches_entry-IsSound _ _
groups-IsSound (GroupsCall.update_samba dn samba) = sends_entry-IsSound _ _ _ _ (λ h. cc)

netgroups-IsSound : (c : NetgroupsCall) → IsSoundIf (netgroups_request c)
unfolding netgroups_request
netgroups-IsSound (NetgroupsCall.list params) = some-IsSound _ (fetches-IsSound _ _)
netgroups-IsSound (NetgroupsCall.get dn) = fetches_entry-IsSound _ _
netgroups-IsSound (NetgroupsCall.expand dn) = fetches_entry-IsSound _ _
netgroups-IsSound (NetgroupsCall.get_sudo_roles dn) = fetches_entry-IsSound _ _
netgroups-IsSound (NetgroupsCall.create netgroup) = some-IsSound _ (sends-IsSound _ _ _ _ (λ h. cc))
netgroups-IsSound (NetgroupsCall.import_rows rows) =
    some-IsSound _ (sends-IsSound _ _ _ _ (λ h. cc))
netgroups-IsSound (NetgroupsCall.update dn netgroup) = sends_entry-IsSound _ _ _ _ (λ h. cc)
netgroups-IsSound (NetgroupsCall.delete dn) = sends_entry-IsSound _ _ _ _ (λ h. cc)

sudo_roles-IsSound : (c : SudoRolesCall) → IsSoundIf (sudo_roles_request c)
unfolding sudo_roles_request
sudo_roles-IsSound (SudoRolesCall.list params) = some-IsSound _ (fetches-IsSound _ _)
sudo_roles-IsSound (SudoRolesCall.get dn) = fetches_entry-IsSound _ _
sudo_roles-IsSound (SudoRolesCall.create role) = some-IsSound _ (sends-IsSound _ _ _ _ (λ h. cc))
sudo_roles-IsSound (SudoRolesCall.update dn role) = sends_entry-IsSound _ _ _ _ (λ h. cc)
sudo_roles-IsSound (SudoRolesCall.delete dn) = sends_entry-IsSound _ _ _ _ (λ h. cc)
sudo_roles-IsSound (SudoRolesCall.add_user dn uid) = sends_entry-IsSound _ _ _ _ (λ h. cc)
sudo_roles-IsSound (SudoRolesCall.remove_user dn uid) = sends_entry-IsSound _ _ _ _ (λ h. cc)
sudo_roles-IsSound (SudoRolesCall.add_group dn cn) = sends_entry-IsSound _ _ _ _ (λ h. cc)
sudo_roles-IsSound (SudoRolesCall.remove_group dn cn) = sends_entry-IsSound _ _ _ _ (λ h. cc)

policies-IsSound : (c : PoliciesCall) → IsSoundIf (policies_request c)
unfolding policies_request
policies-IsSound (PoliciesCall.list params) = some-IsSound _ (fetches-IsSound _ _)
policies-IsSound (PoliciesCall.get dn) = fetches_entry-IsSound _ _
policies-IsSound (PoliciesCall.create policy) = some-IsSound _ (sends-IsSound _ _ _ _ (λ h. cc))
policies-IsSound (PoliciesCall.update dn policy) = sends_entry-IsSound _ _ _ _ (λ h. cc)
policies-IsSound (PoliciesCall.delete dn) = sends_entry-IsSound _ _ _ _ (λ h. cc)

system-IsSound : (c : SystemCall) → IsSound true (system_request c)
unfolding system_request
system-IsSound SystemCall.schema_get = fetches-IsSound _ _
system-IsSound SystemCall.schema_refresh = sends-IsSound _ _ _ _ (λ h. cc)
system-IsSound (SystemCall.audit_list params) = fetches-IsSound _ _
system-IsSound SystemCall.audit_actors = fetches-IsSound _ _
system-IsSound (SystemCall.directory_changes params) = fetches-IsSound _ _
system-IsSound SystemCall.next_ids = fetches-IsSound _ _
system-IsSound SystemCall.overview = fetches-IsSound _ _
system-IsSound SystemCall.server_info = fetches-IsSound _ _

admin-IsSound : (c : AdminCall) → IsSound true (admin_request c)
unfolding admin_request
admin-IsSound AdminCall.get_config = fetches-IsSound _ _
admin-IsSound AdminCall.policy_self_test = sends-IsSound _ _ _ _ (λ h. cc)
admin-IsSound AdminCall.tasks_get_config = fetches-IsSound _ _
admin-IsSound (AdminCall.tasks_get_runs task_name) = fetches-IsSound _ _
admin-IsSound AdminCall.tasks_get_health = fetches-IsSound _ _
admin-IsSound AdminCall.trigger_users_expiration = sends-IsSound _ _ _ _ (λ h. cc)
admin-IsSound AdminCall.trigger_passwords_expiration = sends-IsSound _ _ _ _ (λ h. cc)
admin-IsSound AdminCall.trigger_lockout_scan = sends-IsSound _ _ _ _ (λ h. cc)

reset-IsSound : (c : ResetCall) → IsSound false (reset_request c)
unfolding reset_request
reset-IsSound (ResetCall.get_info token) = record {
  session = refl;
  no_body = λ e. refl;
  validated = λ e. refl;
}
reset-IsSound (ResetCall.confirm token password) = record {
  session = refl;
  no_body = λ e. cc;
  validated = λ e. cc;
}

-- The calls that work without a session.
abbrev pub needs_session : Call → Bool
needs_session (password_reset c) = false
needs_session _ = true

-- Every request but those of the password reset sends the session cookie; a request that only
-- reads sends no body, and its answer is validated against a schema.
pub request-IsSound : (c : Call) (r : Request) → request c ≡ some r → IsSound (needs_session c) r
unfolding request
request-IsSound (auth c) r e = some-IsSound (auth_request c) (auth-IsSound c) r e
request-IsSound (users c) r e = users-IsSound c r e
request-IsSound (groups c) r e = groups-IsSound c r e
request-IsSound (netgroups c) r e = netgroups-IsSound c r e
request-IsSound (sudo_roles c) r e = sudo_roles-IsSound c r e
request-IsSound (password_policies c) r e = policies-IsSound c r e
request-IsSound (system c) r e = some-IsSound (system_request c) (system-IsSound c) r e
request-IsSound (admin c) r e = some-IsSound (admin_request c) (admin-IsSound c) r e
request-IsSound (password_reset c) r e =
    let same : reset_request c ≡ r = ground arith in subst (IsSound false) same (reset-IsSound c)
