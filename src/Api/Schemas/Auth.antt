-- ===== src/Api/Schemas/Auth.antt =====
-- The schemas of web/src/lib/api.ts for sessions, the sign-in and the server.
use ldapwarden.Prelude.{text, [], ◌∷◌}
use ldapwarden.Api.Schema.{
  Schema, string, number, boolean, array, object_of, optional, nullish, or_empty,
}

abbrev pub session_schema : Schema
session_schema = object_of (
    (text "id", (optional string))
    ∷ (text "userDn", string)
    ∷ (text "userUid", string)
    ∷ (text "displayName", string)
    ∷ (text "mail", (optional string))
    ∷ (text "roleName", string)
    ∷ (text "permissions", (array string))
    ∷ (text "expiresAt", string)
    ∷ [])

abbrev pub login_response_schema : Schema
login_response_schema = object_of ((text "token", string) ∷ (text "session", session_schema) ∷ [])

abbrev pub me_avatar_schema : Schema
me_avatar_schema = object_of ((text "jpegPhoto", (optional string)) ∷ [])

abbrev pub server_info_schema : Schema
server_info_schema = object_of (
    (
      text "version",
      (object_of (
          (text "version", string)
          ∷ (text "revision", (optional string))
          ∷ (text "modified", (optional boolean))
          ∷ [])),
    )
    ∷ (text "modules", (or_empty (nullish (array string))))
    ∷ (text "usersObjects", (or_empty (nullish (array string))))
    ∷ (text "groupsObjects", (or_empty (nullish (array string))))
    ∷ (
      text "capabilities",
      (object_of (
          (text "scheduledExpirySupported", (optional boolean))
          ∷ (text "policyEnforcement", (optional string))
          ∷ (text "netgroupsSupported", (optional boolean))
          ∷ [])),
    )
    ∷ [])

abbrev pub password_reset_info_schema : Schema
password_reset_info_schema =
    object_of
      ((text "uid", string) ∷ (text "displayName", string) ∷ (text "organization", string) ∷ [])

abbrev pub overview_schema : Schema
overview_schema = object_of (
    (
      text "users",
      (object_of (
          (text "total", number)
          ∷ (text "active", number)
          ∷ (text "locked", number)
          ∷ (text "expired", number)
          ∷ (
            text "expiring",
            (or_empty (
                nullish (
                  array (
                    object_of (
                      (text "dn", string)
                      ∷ (text "uid", string)
                      ∷ (text "displayName", (optional string))
                      ∷ (text "expiresAt", string)
                      ∷ []))))),
          )
          ∷ [])),
    )
    ∷ (text "groups", number)
    ∷ (text "sudoRoles", number)
    ∷ (text "policies", number)
    ∷ (text "truncated", (optional boolean))
    ∷ [])

abbrev pub next_ids_schema : Schema
next_ids_schema = object_of (
    (text "nextUid", number)
    ∷ (text "nextGid", number)
    ∷ (text "minUid", number)
    ∷ (text "minGid", number)
    ∷ [])
