-- ===== src/Api/Calls/DnLaws.antt =====
-- The DN of a call and the path of its request.
use ldapwarden.Prelude.{text, ◌===◌, ◌≡◌, refl, Option, none, some}
use ldapwarden.Api.Request.{Request, Method}
use ldapwarden.Api.Calls.Users.{UsersCall, users_request}
use ldapwarden.Api.Calls.Groups.{GroupsCall, groups_request, NetgroupsCall, netgroups_request}
use ldapwarden.Api.Calls.Sudo.{SudoRolesCall, sudo_roles_request, PoliciesCall, policies_request}
use ldapwarden.Api.Calls.{Call, request, users, groups, netgroups, sudo_roles, password_policies}
use ldapwarden.Api.Calls.Path.{
  EntryRoute, entry_route, route_of, IsAddress, Takes, fetches-Takes, sends-Takes,
}

abbrev pub user_route : UsersCall → Option EntryRoute
user_route (UsersCall.get dn) = entry_route Method.get (text "users") dn none
user_route (UsersCall.update dn user) = entry_route Method.put (text "users") dn none
user_route (UsersCall.delete dn) = entry_route Method.delete (text "users") dn none
user_route (UsersCall.get_groups dn) =
    entry_route Method.get (text "users") dn (some (text "groups"))
user_route (UsersCall.change_posix_ids dn ids) =
    entry_route Method.post (text "users") dn (some (text "change-posix-ids"))
user_route (UsersCall.change_uid dn new_uid) =
    entry_route Method.post (text "users") dn (some (text "change-uid"))
user_route (UsersCall.lock dn) = entry_route Method.post (text "users") dn (some (text "lock"))
user_route (UsersCall.unlock dn) = entry_route Method.post (text "users") dn (some (text "unlock"))
user_route (UsersCall.set_expiration dn date) =
    entry_route Method.put (text "users") dn (some (text "expiration"))
user_route (UsersCall.change_password dn password) =
    entry_route Method.post (text "users") dn (some (text "password"))
user_route (UsersCall.remove_password dn) =
    entry_route Method.delete (text "users") dn (some (text "password"))
user_route (UsersCall.set_ssh_keys dn keys) =
    entry_route Method.put (text "users") dn (some (text "ssh-keys"))
user_route (UsersCall.add_ssh_key dn key) =
    entry_route Method.post (text "users") dn (some (text "ssh-keys"))
user_route (UsersCall.remove_ssh_key dn key) =
    entry_route Method.delete (text "users") dn (some (text "ssh-keys"))
user_route (UsersCall.get_sudo_roles dn) =
    entry_route Method.get (text "users") dn (some (text "sudo-roles"))
user_route (UsersCall.get_netgroups dn) =
    entry_route Method.get (text "users") dn (some (text "netgroups"))
user_route (UsersCall.send_password_reset dn) =
    entry_route Method.post (text "users") dn (some (text "send-password-reset"))
user_route (UsersCall.update_samba dn samba) =
    entry_route Method.put (text "users") dn (some (text "samba"))
user_route (UsersCall.update_shadow dn shadow) =
    entry_route Method.put (text "users") dn (some (text "shadow"))
user_route _ = none

abbrev pub group_route : GroupsCall → Option EntryRoute
group_route (GroupsCall.get dn) = entry_route Method.get (text "groups") dn none
group_route (GroupsCall.update dn group) = entry_route Method.put (text "groups") dn none
group_route (GroupsCall.delete dn) = entry_route Method.delete (text "groups") dn none
group_route (GroupsCall.change_cn dn new_cn) =
    entry_route Method.post (text "groups") dn (some (text "change-cn"))
group_route (GroupsCall.add_member dn member_uid) =
    entry_route Method.post (text "groups") dn (some (text "members"))
group_route (GroupsCall.remove_member dn member_uid) =
    entry_route Method.delete (text "groups") dn (some (text "members"))
group_route (GroupsCall.members dn) =
    entry_route Method.get (text "groups") dn (some (text "members"))
group_route (GroupsCall.get_sudo_roles dn) =
    entry_route Method.get (text "groups") dn (some (text "sudo-roles"))
group_route (GroupsCall.update_samba dn samba) =
    entry_route Method.put (text "groups") dn (some (text "samba"))
group_route _ = none

abbrev pub netgroup_route : NetgroupsCall → Option EntryRoute
netgroup_route (NetgroupsCall.get dn) = entry_route Method.get (text "netgroups") dn none
netgroup_route (NetgroupsCall.expand dn) =
    entry_route Method.get (text "netgroups") dn (some (text "expand"))
netgroup_route (NetgroupsCall.get_sudo_roles dn) =
    entry_route Method.get (text "netgroups") dn (some (text "sudo-roles"))
netgroup_route (NetgroupsCall.update dn netgroup) =
    entry_route Method.put (text "netgroups") dn none
netgroup_route (NetgroupsCall.delete dn) = entry_route Method.delete (text "netgroups") dn none
netgroup_route _ = none

abbrev pub sudo_role_route : SudoRolesCall → Option EntryRoute
sudo_role_route (SudoRolesCall.get dn) = entry_route Method.get (text "sudo-roles") dn none
sudo_role_route (SudoRolesCall.update dn role) = entry_route Method.put (text "sudo-roles") dn none
sudo_role_route (SudoRolesCall.delete dn) = entry_route Method.delete (text "sudo-roles") dn none
sudo_role_route (SudoRolesCall.add_user dn uid) =
    entry_route Method.post (text "sudo-roles") dn (some (text "users"))
sudo_role_route (SudoRolesCall.remove_user dn uid) =
    entry_route Method.delete (text "sudo-roles") dn (some (text "users"))
sudo_role_route (SudoRolesCall.add_group dn cn) =
    entry_route Method.post (text "sudo-roles") dn (some (text "groups"))
sudo_role_route (SudoRolesCall.remove_group dn cn) =
    entry_route Method.delete (text "sudo-roles") dn (some (text "groups"))
sudo_role_route _ = none

abbrev pub policy_route : PoliciesCall → Option EntryRoute
policy_route (PoliciesCall.get dn) = entry_route Method.get (text "password-policies") dn none
policy_route (PoliciesCall.update dn policy) =
    entry_route Method.put (text "password-policies") dn none
policy_route (PoliciesCall.delete dn) = entry_route Method.delete (text "password-policies") dn none
policy_route _ = none

-- The route of the server (internal/api/routes.go) that a call about an entry is meant for.
abbrev pub meant_route : Call → Option EntryRoute
meant_route (users c) = user_route c
meant_route (groups c) = group_route c
meant_route (netgroups c) = netgroup_route c
meant_route (sudo_roles c) = sudo_role_route c
meant_route (password_policies c) = policy_route c
meant_route _ = none

user-Takes :
    (c : UsersCall) (route : EntryRoute)
    → IsAddress route
    → user_route c ≡ some route
    → Takes route (users_request c)
unfolding users_request ◌===◌
user-Takes (UsersCall.list params) route u e = cc
user-Takes (UsersCall.get d) route u e =
    fetches-Takes (text "users") d none route e (refl, (refl, refl)) tt u _
user-Takes (UsersCall.create user) route u e = cc
user-Takes (UsersCall.update d user) route u e =
    sends-Takes Method.put (text "users") d none route e (refl, (refl, refl)) tt u _ _
user-Takes (UsersCall.delete d) route u e =
    sends-Takes Method.delete (text "users") d none route e (refl, (refl, refl)) tt u _ _
user-Takes (UsersCall.import_rows rows) route u e = cc
user-Takes (UsersCall.get_groups d) route u e =
    fetches-Takes (text "users") d (some (text "groups")) route e (refl, (refl, refl))
      (refl, (refl, refl)) u _
user-Takes (UsersCall.change_posix_ids d ids) route u e =
    sends-Takes Method.post (text "users") d (some (text "change-posix-ids")) route e
      (refl, (refl, refl)) (refl, (refl, refl)) u _ _
user-Takes (UsersCall.change_uid d new_uid) route u e =
    sends-Takes Method.post (text "users") d (some (text "change-uid")) route e (refl, (refl, refl))
      (refl, (refl, refl)) u _ _
user-Takes (UsersCall.lock d) route u e =
    sends-Takes Method.post (text "users") d (some (text "lock")) route e (refl, (refl, refl))
      (refl, (refl, refl)) u _ _
user-Takes (UsersCall.unlock d) route u e =
    sends-Takes Method.post (text "users") d (some (text "unlock")) route e (refl, (refl, refl))
      (refl, (refl, refl)) u _ _
user-Takes (UsersCall.set_expiration d date) route u e =
    sends-Takes Method.put (text "users") d (some (text "expiration")) route e (refl, (refl, refl))
      (refl, (refl, refl)) u _ _
user-Takes (UsersCall.change_password d password) route u e =
    sends-Takes Method.post (text "users") d (some (text "password")) route e (refl, (refl, refl))
      (refl, (refl, refl)) u _ _
user-Takes (UsersCall.remove_password d) route u e =
    sends-Takes Method.delete (text "users") d (some (text "password")) route e (refl, (refl, refl))
      (refl, (refl, refl)) u _ _
user-Takes (UsersCall.set_ssh_keys d keys) route u e =
    sends-Takes Method.put (text "users") d (some (text "ssh-keys")) route e (refl, (refl, refl))
      (refl, (refl, refl)) u _ _
user-Takes (UsersCall.add_ssh_key d key) route u e =
    sends-Takes Method.post (text "users") d (some (text "ssh-keys")) route e (refl, (refl, refl))
      (refl, (refl, refl)) u _ _
user-Takes (UsersCall.remove_ssh_key d key) route u e =
    sends-Takes Method.delete (text "users") d (some (text "ssh-keys")) route e (refl, (refl, refl))
      (refl, (refl, refl)) u _ _
user-Takes (UsersCall.get_sudo_roles d) route u e =
    fetches-Takes (text "users") d (some (text "sudo-roles")) route e (refl, (refl, refl))
      (refl, (refl, refl)) u _
user-Takes (UsersCall.get_netgroups d) route u e =
    fetches-Takes (text "users") d (some (text "netgroups")) route e (refl, (refl, refl))
      (refl, (refl, refl)) u _
user-Takes (UsersCall.send_password_reset d) route u e =
    sends-Takes Method.post (text "users") d (some (text "send-password-reset")) route e
      (refl, (refl, refl)) (refl, (refl, refl)) u _ _
user-Takes (UsersCall.update_samba d samba) route u e =
    sends-Takes Method.put (text "users") d (some (text "samba")) route e (refl, (refl, refl))
      (refl, (refl, refl)) u _ _
user-Takes (UsersCall.update_shadow d shadow) route u e =
    sends-Takes Method.put (text "users") d (some (text "shadow")) route e (refl, (refl, refl))
      (refl, (refl, refl)) u _ _

group-Takes :
    (c : GroupsCall) (route : EntryRoute)
    → IsAddress route
    → group_route c ≡ some route
    → Takes route (groups_request c)
unfolding groups_request ◌===◌
group-Takes (GroupsCall.list params) route u e = cc
group-Takes (GroupsCall.get d) route u e =
    fetches-Takes (text "groups") d none route e (refl, (refl, refl)) tt u _
group-Takes (GroupsCall.create group) route u e = cc
group-Takes (GroupsCall.update d group) route u e =
    sends-Takes Method.put (text "groups") d none route e (refl, (refl, refl)) tt u _ _
group-Takes (GroupsCall.delete d) route u e =
    sends-Takes Method.delete (text "groups") d none route e (refl, (refl, refl)) tt u _ _
group-Takes (GroupsCall.import_rows rows) route u e = cc
group-Takes (GroupsCall.change_cn d new_cn) route u e =
    sends-Takes Method.post (text "groups") d (some (text "change-cn")) route e (refl, (refl, refl))
      (refl, (refl, refl)) u _ _
group-Takes (GroupsCall.add_member d member_uid) route u e =
    sends-Takes Method.post (text "groups") d (some (text "members")) route e (refl, (refl, refl))
      (refl, (refl, refl)) u _ _
group-Takes (GroupsCall.remove_member d member_uid) route u e =
    sends-Takes Method.delete (text "groups") d (some (text "members")) route e (refl, (refl, refl))
      (refl, (refl, refl)) u _ _
group-Takes (GroupsCall.members d) route u e =
    fetches-Takes (text "groups") d (some (text "members")) route e (refl, (refl, refl))
      (refl, (refl, refl)) u _
group-Takes (GroupsCall.get_sudo_roles d) route u e =
    fetches-Takes (text "groups") d (some (text "sudo-roles")) route e (refl, (refl, refl))
      (refl, (refl, refl)) u _
group-Takes (GroupsCall.update_samba d samba) route u e =
    sends-Takes Method.put (text "groups") d (some (text "samba")) route e (refl, (refl, refl))
      (refl, (refl, refl)) u _ _

netgroup-Takes :
    (c : NetgroupsCall) (route : EntryRoute)
    → IsAddress route
    → netgroup_route c ≡ some route
    → Takes route (netgroups_request c)
unfolding netgroups_request ◌===◌
netgroup-Takes (NetgroupsCall.list params) route u e = cc
netgroup-Takes (NetgroupsCall.get d) route u e =
    fetches-Takes (text "netgroups") d none route e (refl, (refl, refl)) tt u _
netgroup-Takes (NetgroupsCall.expand d) route u e =
    fetches-Takes (text "netgroups") d (some (text "expand")) route e (refl, (refl, refl))
      (refl, (refl, refl)) u _
netgroup-Takes (NetgroupsCall.get_sudo_roles d) route u e =
    fetches-Takes (text "netgroups") d (some (text "sudo-roles")) route e (refl, (refl, refl))
      (refl, (refl, refl)) u _
netgroup-Takes (NetgroupsCall.create netgroup) route u e = cc
netgroup-Takes (NetgroupsCall.import_rows rows) route u e = cc
netgroup-Takes (NetgroupsCall.update d netgroup) route u e =
    sends-Takes Method.put (text "netgroups") d none route e (refl, (refl, refl)) tt u _ _
netgroup-Takes (NetgroupsCall.delete d) route u e =
    sends-Takes Method.delete (text "netgroups") d none route e (refl, (refl, refl)) tt u _ _

sudo_role-Takes :
    (c : SudoRolesCall) (route : EntryRoute)
    → IsAddress route
    → sudo_role_route c ≡ some route
    → Takes route (sudo_roles_request c)
unfolding sudo_roles_request ◌===◌
sudo_role-Takes (SudoRolesCall.list params) route u e = cc
sudo_role-Takes (SudoRolesCall.get d) route u e =
    fetches-Takes (text "sudo-roles") d none route e (refl, (refl, refl)) tt u _
sudo_role-Takes (SudoRolesCall.create role) route u e = cc
sudo_role-Takes (SudoRolesCall.update d role) route u e =
    sends-Takes Method.put (text "sudo-roles") d none route e (refl, (refl, refl)) tt u _ _
sudo_role-Takes (SudoRolesCall.delete d) route u e =
    sends-Takes Method.delete (text "sudo-roles") d none route e (refl, (refl, refl)) tt u _ _
sudo_role-Takes (SudoRolesCall.add_user d uid) route u e =
    sends-Takes Method.post (text "sudo-roles") d (some (text "users")) route e (refl, (refl, refl))
      (refl, (refl, refl)) u _ _
sudo_role-Takes (SudoRolesCall.remove_user d uid) route u e =
    sends-Takes Method.delete (text "sudo-roles") d (some (text "users")) route e
      (refl, (refl, refl)) (refl, (refl, refl)) u _ _
sudo_role-Takes (SudoRolesCall.add_group d cn) route u e =
    sends-Takes Method.post (text "sudo-roles") d (some (text "groups")) route e
      (refl, (refl, refl)) (refl, (refl, refl)) u _ _
sudo_role-Takes (SudoRolesCall.remove_group d cn) route u e =
    sends-Takes Method.delete (text "sudo-roles") d (some (text "groups")) route e
      (refl, (refl, refl)) (refl, (refl, refl)) u _ _

policy-Takes :
    (c : PoliciesCall) (route : EntryRoute)
    → IsAddress route
    → policy_route c ≡ some route
    → Takes route (policies_request c)
unfolding policies_request ◌===◌
policy-Takes (PoliciesCall.list params) route u e = cc
policy-Takes (PoliciesCall.get d) route u e =
    fetches-Takes (text "password-policies") d none route e (refl, (refl, refl)) tt u _
policy-Takes (PoliciesCall.create policy) route u e = cc
policy-Takes (PoliciesCall.update d policy) route u e =
    sends-Takes Method.put (text "password-policies") d none route e (refl, (refl, refl)) tt u _ _
policy-Takes (PoliciesCall.delete d) route u e =
    sends-Takes Method.delete (text "password-policies") d none route e (refl, (refl, refl)) tt u _
      _

-- A request about an entry whose DN has an RDN takes the route of the server that is meant for the
-- call, with its method, its resource, its action, and exactly that DN, whatever else the DN holds,
-- and after `fetch` has resolved the dot segments of the path.
pub request-meant_route :
    (c : Call) (route : EntryRoute) (q : Request)
    → IsAddress route
    → meant_route c ≡ some route
    → request c ≡ some q
    → route_of q ≡ some route
unfolding request
request-meant_route (users c) route q u e k = user-Takes c route u e q k
request-meant_route (groups c) route q u e k = group-Takes c route u e q k
request-meant_route (netgroups c) route q u e k = netgroup-Takes c route u e q k
request-meant_route (sudo_roles c) route q u e k = sudo_role-Takes c route u e q k
request-meant_route (password_policies c) route q u e k = policy-Takes c route u e q k
request-meant_route _ route q u e k = cc
