-- ===== src/Api/Schemas/Config.antt =====
-- The schemas of web/src/lib/api.ts for the configuration and the scheduled tasks.
use ldapwarden.Prelude.{text, false, [], ◌∷◌}
use ldapwarden.Values.{Value}
use ldapwarden.Api.Schema.{
  Schema, string, number, boolean, one_of, array, object_of, union_of, optional, nullable,
  default_to,
}
use ldapwarden.Api.Schemas.Policies.{policy_enforcement_schema}

abbrev pub config_value_schema : Schema
config_value_schema = object_of (
    (text "value", (union_of (string ∷ number ∷ boolean ∷ (array string) ∷ [])))
    ∷ (text "source", (one_of (text "env" ∷ text "file" ∷ text "default" ∷ [])))
    ∷ (text "envVar", (optional string))
    ∷ [])

abbrev pub config_response_schema : Schema
config_response_schema = object_of (
    (
      text "server",
      (object_of ((text "host", config_value_schema) ∷ (text "port", config_value_schema) ∷ [])),
    )
    ∷ (text "database", (object_of ((text "url", config_value_schema) ∷ [])))
    ∷ (
      text "ldap",
      (object_of (
          (text "url", config_value_schema)
          ∷ (text "baseDn", config_value_schema)
          ∷ (text "bindDn", config_value_schema)
          ∷ (text "userOu", config_value_schema)
          ∷ (text "groupOu", config_value_schema)
          ∷ (text "sudoersOu", config_value_schema)
          ∷ (text "ppolicyOu", config_value_schema)
          ∷ (text "defaultPolicyDn", config_value_schema)
          ∷ (text "minUid", config_value_schema)
          ∷ (text "minGid", config_value_schema)
          ∷ (text "tlsMode", config_value_schema)
          ∷ (text "tlsSkipVerify", config_value_schema)
          ∷ (text "tlsCaFile", config_value_schema)
          ∷ (text "tlsCertFile", config_value_schema)
          ∷ (text "tlsKeyFile", config_value_schema)
          ∷ [])),
    )
    ∷ (text "session", (object_of ((text "ttl", config_value_schema) ∷ [])))
    ∷ (
      text "app",
      (object_of (
          (text "adminGroup", config_value_schema)
          ∷ (text "organization", config_value_schema)
          ∷ (text "publicUrl", config_value_schema)
          ∷ (text "modules", config_value_schema)
          ∷ (text "usersObjects", config_value_schema)
          ∷ (text "groupsObjects", config_value_schema)
          ∷ [])),
    )
    ∷ (
      text "capabilities",
      (optional (
          object_of (
            (text "scheduledExpirySupported", boolean)
            ∷ (text "policyEnforcement", policy_enforcement_schema)
            ∷ (text "netgroupsSupported", (default_to (Value.boolean false) boolean))
            ∷ []))),
    )
    ∷ (
      text "mail",
      (object_of (
          (text "host", config_value_schema)
          ∷ (text "port", config_value_schema)
          ∷ (text "user", config_value_schema)
          ∷ (text "password", config_value_schema)
          ∷ (text "from", config_value_schema)
          ∷ (text "ssl", config_value_schema)
          ∷ [])),
    )
    ∷ [])

abbrev pub task_run_schema : Schema
task_run_schema = object_of (
    (text "id", string)
    ∷ (text "taskName", string)
    ∷ (text "startedAt", string)
    ∷ (text "completedAt", (optional (nullable string)))
    ∷ (text "status", string)
    ∷ (text "usersChecked", number)
    ∷ (text "notificationsSent", number)
    ∷ (text "errors", (optional (nullable (array string))))
    ∷ (text "triggeredBy", string)
    ∷ [])

abbrev pub task_runs_response_schema : Schema
task_runs_response_schema =
    object_of ((text "data", (array task_run_schema)) ∷ (text "total", number) ∷ [])

abbrev pub task_health_schema : Schema
task_health_schema = object_of (
    (text "taskName", string)
    ∷ (text "schedule", string)
    ∷ (text "lastRun", (nullable task_run_schema))
    ∷ (text "overdue", boolean)
    ∷ (text "expectedAt", (optional string))
    ∷ (text "nextRun", string)
    ∷ [])

abbrev pub task_health_response_schema : Schema
task_health_response_schema = object_of ((text "data", (array task_health_schema)) ∷ [])

abbrev pub trigger_task_response_schema : Schema
trigger_task_response_schema = object_of (
    (text "runId", string)
    ∷ (text "taskName", string)
    ∷ (text "usersChecked", number)
    ∷ (text "notificationsSent", number)
    ∷ (text "errors", (optional (nullable (array string))))
    ∷ [])

abbrev pub scheduled_tasks_config_schema : Schema
scheduled_tasks_config_schema = object_of (
    (text "usersExpiration", config_value_schema)
    ∷ (text "passwordsExpiration", config_value_schema)
    ∷ (text "lockoutScan", config_value_schema)
    ∷ [])
