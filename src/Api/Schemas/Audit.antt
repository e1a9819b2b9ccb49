-- ===== src/Api/Schemas/Audit.antt =====
-- The schemas of web/src/lib/api.ts for the audit log and the changes of the directory.
use ldapwarden.Prelude.{text, [], ◌∷◌}
use ldapwarden.Values.{Value}
use ldapwarden.Api.Schema.{
  Schema, string, number, boolean, unknown, one_of, array, dictionary, object_of, optional, nullish,
  or_empty, catching,
}

abbrev pub audit_log_schema : Schema
audit_log_schema = object_of (
    (text "id", string)
    ∷ (text "actorDn", string)
    ∷ (text "actorUid", string)
    ∷ (text "action", string)
    ∷ (text "resourceType", string)
    ∷ (text "resourceDn", (optional string))
    ∷ (text "details", (optional (dictionary unknown)))
    ∷ (text "ipAddress", (optional string))
    ∷ (text "userAgent", (optional string))
    ∷ (text "createdAt", string)
    ∷ [])

abbrev pub audit_logs_response_schema : Schema
audit_logs_response_schema = object_of (
    (text "data", (array audit_log_schema))
    ∷ (text "total", number)
    ∷ (text "limit", number)
    ∷ (text "offset", number)
    ∷ [])

abbrev pub directory_change_origin_schema : Schema
directory_change_origin_schema = one_of (text "external" ∷ text "ldapwarden" ∷ text "policy" ∷ [])

abbrev pub value_list : Schema
value_list = or_empty (nullish (array string))

abbrev pub directory_change_schema : Schema
directory_change_schema = object_of (
    (text "id", string)
    ∷ (text "time", string)
    ∷ (text "type", string)
    ∷ (text "dn", string)
    ∷ (text "actor", string)
    ∷ (
      text "changes",
      (or_empty (
          nullish (
            array (
              object_of (
                (text "attribute", string)
                ∷ (text "op", string)
                ∷ (text "values", value_list)
                ∷ (text "redacted", (optional boolean))
                ∷ []))))),
    )
    ∷ (
      text "old",
      (or_empty (
          nullish (
            array (
              object_of (
                (text "attribute", string)
                ∷ (text "values", value_list)
                ∷ (text "redacted", (optional boolean))
                ∷ []))))),
    )
    ∷ (text "newRdn", (optional string))
    ∷ (text "deleteOldRdn", (optional boolean))
    ∷ (text "newSuperior", (optional string))
    ∷ (text "origin", (catching (Value.string (text "external")) directory_change_origin_schema))
    ∷ (text "auditLogId", (optional string))
    ∷ [])

abbrev pub directory_changes_response_schema : Schema
directory_changes_response_schema = object_of (
    (text "status", (one_of (text "ok" ∷ text "not-configured" ∷ text "unreadable" ∷ [])))
    ∷ (text "base", (optional string))
    ∷ (text "bindDn", string)
    ∷ (text "from", string)
    ∷ (text "to", string)
    ∷ (text "data", (array directory_change_schema))
    ∷ (text "total", number)
    ∷ (text "limit", number)
    ∷ (text "offset", number)
    ∷ (text "truncated", boolean)
    ∷ (text "counts", (dictionary number))
    ∷ [])

abbrev pub audit_actors_response_schema : Schema
audit_actors_response_schema = object_of ((text "data", (array string)) ∷ [])

abbrev pub field_change_schema : Schema
field_change_schema = object_of (
    (text "field", string)
    ∷ (text "old", (optional string))
    ∷ (text "new", (optional string))
    ∷ (text "masked", (optional boolean))
    ∷ [])
