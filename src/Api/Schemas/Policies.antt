-- ===== src/Api/Schemas/Policies.antt =====
-- The schemas of web/src/lib/api.ts for password policies and the schema of the directory.
use ldapwarden.Prelude.{text, [], ◌∷◌}
use ldapwarden.Values.{Value, nil}
use ldapwarden.Api.Schema.{
  Schema, string, number, boolean, one_of, array, dictionary, object_of, optional, nullish,
  or_empty, default_to, catching,
}

abbrev pub policy_delete_response_schema : Schema
policy_delete_response_schema = object_of (
    (text "message", string)
    ∷ (text "warnings", (default_to (Value.array nil) (array string)))
    ∷ [])

abbrev pub password_policy_schema : Schema
password_policy_schema = object_of (
    (text "dn", string)
    ∷ (text "cn", string)
    ∷ (text "description", (optional string))
    ∷ (text "pwdAttribute", (optional string))
    ∷ (text "pwdMinAge", (optional number))
    ∷ (text "pwdMaxAge", (optional number))
    ∷ (text "pwdInHistory", (optional number))
    ∷ (text "pwdCheckQuality", (optional number))
    ∷ (text "pwdMinLength", (optional number))
    ∷ (text "pwdExpireWarning", (optional number))
    ∷ (text "pwdGraceAuthNLimit", (optional number))
    ∷ (text "pwdLockout", (optional boolean))
    ∷ (text "pwdLockoutDuration", (optional number))
    ∷ (text "pwdMaxFailure", (optional number))
    ∷ (text "pwdFailureCountInterval", (optional number))
    ∷ (text "pwdMustChange", (optional boolean))
    ∷ (text "pwdAllowUserChange", (optional boolean))
    ∷ (text "pwdSafeModify", (optional boolean))
    ∷ (text "pwdCheckModule", (optional string))
    ∷ [])

abbrev pub password_policies_response_schema : Schema
password_policies_response_schema = object_of (
    (text "data", (array password_policy_schema))
    ∷ (text "total", number)
    ∷ (text "limit", (optional number))
    ∷ (text "offset", (optional number))
    ∷ (text "truncated", (optional boolean))
    ∷ [])

abbrev pub policy_enforcement_schema : Schema
policy_enforcement_schema =
    catching (Value.string (text "unknown"))
      (one_of (text "enforced" ∷ text "not-enforced" ∷ text "unknown" ∷ []))

abbrev pub policy_self_test_schema : Schema
policy_self_test_schema = object_of (
    (text "result", policy_enforcement_schema)
    ∷ (text "probeDn", string)
    ∷ (text "steps", (or_empty (nullish (array string))))
    ∷ (text "cleanedUp", boolean)
    ∷ (text "detail", (optional string))
    ∷ [])

abbrev pub schema_schema : Schema
schema_schema = object_of (
    (
      text "objectClasses",
      (dictionary (
          object_of (
            (text "oid", string)
            ∷ (text "name", string)
            ∷ (text "description", (optional string))
            ∷ (text "superior", (optional (array string)))
            ∷ (text "kind", string)
            ∷ (text "must", (optional (array string)))
            ∷ (text "may", (optional (array string)))
            ∷ []))),
    )
    ∷ (
      text "attributeTypes",
      (dictionary (
          object_of (
            (text "oid", string)
            ∷ (text "name", string)
            ∷ (text "description", (optional string))
            ∷ (text "syntax", (optional string))
            ∷ (text "singleValue", boolean)
            ∷ (text "noUserModification", boolean)
            ∷ (text "usage", (optional string))
            ∷ []))),
    )
    ∷ [])
