-- ===== src/Api/Schemas/Users.antt =====
-- The schemas of web/src/lib/api.ts for users.
use ldapwarden.Prelude.{text, [], ◌∷◌}
use ldapwarden.Api.Schema.{
  Schema, string, number, boolean, one_of, array, object_of, optional, nullish, or_empty,
}

abbrev pub lockout_schema : Schema
lockout_schema = object_of (
    (
      text "state",
      (one_of (text "none" ∷ text "manual" ∷ text "active" ∷ text "lifted" ∷ text "unknown" ∷ [])),
    )
    ∷ (text "lockedAt", (optional string))
    ∷ (text "liftsAt", (optional string))
    ∷ (text "durationSeconds", (optional number))
    ∷ (text "policyDn", (optional string))
    ∷ [])

abbrev pub user_schema : Schema
user_schema = object_of (
    (text "dn", string)
    ∷ (text "uid", string)
    ∷ (text "cn", string)
    ∷ (text "givenName", (optional string))
    ∷ (text "sn", string)
    ∷ (text "displayName", (optional string))
    ∷ (text "mail", (optional string))
    ∷ (text "telephoneNumber", (optional string))
    ∷ (text "title", (optional string))
    ∷ (text "departmentNumber", (optional string))
    ∷ (text "o", (optional string))
    ∷ (text "employeeNumber", (optional string))
    ∷ (text "employeeType", (optional string))
    ∷ (text "initials", (optional string))
    ∷ (text "manager", (optional string))
    ∷ (text "uidNumber", (optional number))
    ∷ (text "gidNumber", (optional number))
    ∷ (text "homeDirectory", (optional string))
    ∷ (text "loginShell", (optional string))
    ∷ (text "gecos", (optional string))
    ∷ (text "description", (optional string))
    ∷ (text "jpegPhoto", (optional string))
    ∷ (text "sshPublicKey", (optional (array string)))
    ∷ (text "hasPassword", (optional boolean))
    ∷ (text "accountLocked", (optional boolean))
    ∷ (text "objectClasses", (optional (array string)))
    ∷ (text "sambaSID", (optional string))
    ∷ (text "sambaPrimaryGroupSID", (optional string))
    ∷ (text "sambaAcctFlags", (optional string))
    ∷ (text "sambaHomePath", (optional string))
    ∷ (text "sambaHomeDrive", (optional string))
    ∷ (text "sambaLogonScript", (optional string))
    ∷ (text "sambaProfilePath", (optional string))
    ∷ (text "sambaDomainName", (optional string))
    ∷ (text "sambaPwdLastSet", (optional string))
    ∷ (text "sambaPwdCanChange", (optional string))
    ∷ (text "sambaPwdMustChange", (optional string))
    ∷ (text "sambaKickoffTime", (optional string))
    ∷ (text "shadowLastChange", (optional number))
    ∷ (text "shadowMin", (optional number))
    ∷ (text "shadowMax", (optional number))
    ∷ (text "shadowWarning", (optional number))
    ∷ (text "shadowInactive", (optional number))
    ∷ (text "shadowExpire", (optional number))
    ∷ (text "shadowFlag", (optional number))
    ∷ (text "pwdAccountLockedTime", (optional string))
    ∷ (text "pwdEndTime", (optional string))
    ∷ (text "pwdFailureTime", (optional (array string)))
    ∷ (text "pwdChangedTime", (optional string))
    ∷ (text "pwdGraceUseTime", (optional (array string)))
    ∷ (text "pwdReset", (optional boolean))
    ∷ (text "pwdPolicySubentry", (optional string))
    ∷ (text "lockout", (optional lockout_schema))
    ∷ [])

abbrev pub user_list_item_schema : Schema
user_list_item_schema = object_of (
    (text "dn", string)
    ∷ (text "uid", string)
    ∷ (text "cn", string)
    ∷ (text "displayName", (optional string))
    ∷ (text "mail", (optional string))
    ∷ (text "employeeType", (optional string))
    ∷ (text "hasPhoto", (optional boolean))
    ∷ (text "groupsCount", (optional number))
    ∷ (text "accountLocked", (optional boolean))
    ∷ (text "pwdAccountLockedTime", (optional string))
    ∷ (text "pwdEndTime", (optional string))
    ∷ (text "lockout", (optional lockout_schema))
    ∷ [])

abbrev pub users_response_schema : Schema
users_response_schema = object_of (
    (text "data", (array user_list_item_schema))
    ∷ (text "total", number)
    ∷ (text "inactiveCount", (optional number))
    ∷ (text "limit", (optional number))
    ∷ (text "offset", (optional number))
    ∷ (text "truncated", (optional boolean))
    ∷ [])

abbrev pub import_result_schema : Schema
import_result_schema = object_of (
    (text "created", number)
    ∷ (text "failed", number)
    ∷ (
      text "results",
      (array (
          object_of (
            (text "index", number)
            ∷ (text "key", string)
            ∷ (text "status", (one_of (text "created" ∷ text "error" ∷ [])))
            ∷ (text "error", (optional string))
            ∷ []))),
    )
    ∷ [])

abbrev pub change_uid_result_schema : Schema
change_uid_result_schema =
    object_of
      ((text "user", user_schema) ∷ (text "warnings", (or_empty (nullish (array string)))) ∷ [])

abbrev pub change_posix_ids_result_schema : Schema
change_posix_ids_result_schema =
    object_of
      ((text "user", user_schema) ∷ (text "warnings", (or_empty (nullish (array string)))) ∷ [])

abbrev pub warnings_result_schema : Schema
warnings_result_schema = object_of (
    (text "message", (optional string))
    ∷ (text "warnings", (or_empty (nullish (array string))))
    ∷ [])
