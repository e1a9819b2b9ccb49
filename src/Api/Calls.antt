-- ===== src/Api/Calls.antt =====
-- `api` of web/src/lib/api.ts: every call, and the request that it makes.
use ldapwarden.Prelude.{Option, some}
use ldapwarden.Api.Request.{Request}
use ldapwarden.Api.Calls.Users.{AuthCall, auth_request, UsersCall, users_request}
use ldapwarden.Api.Calls.Groups.{GroupsCall, groups_request, NetgroupsCall, netgroups_request}
use ldapwarden.Api.Calls.Sudo.{SudoRolesCall, sudo_roles_request, PoliciesCall, policies_request}
use ldapwarden.Api.Calls.System.{
  SystemCall, system_request, AdminCall, admin_request, ResetCall, reset_request,
}
pub mod Users
pub mod Groups
pub mod Sudo
pub mod System
pub mod Laws
pub mod Path
pub mod DnLaws

pub data Call : Type 0 where
  auth : AuthCall → Call
  users : UsersCall → Call
  groups : GroupsCall → Call
  netgroups : NetgroupsCall → Call
  sudo_roles : SudoRolesCall → Call
  password_policies : PoliciesCall → Call
  system : SystemCall → Call
  admin : AdminCall → Call
  password_reset : ResetCall → Call

-- None where the DN has a lone surrogate, so that `encodeURIComponent` throws.
unfoldable pub request : Call → Option Request
request (auth c) = some (auth_request c)
request (users c) = users_request c
request (groups c) = groups_request c
request (netgroups c) = netgroups_request c
request (sudo_roles c) = sudo_roles_request c
request (password_policies c) = policies_request c
request (system c) = some (system_request c)
request (admin c) = some (admin_request c)
request (password_reset c) = some (reset_request c)
