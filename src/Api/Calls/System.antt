-- ===== src/Api/Calls/System.antt =====
-- The other groups of `api` in web/src/lib/api.ts: the schema, the logs, the server, the
-- administration and the password reset.
use ldapwarden.Prelude.{
  if◌then◌else◌, JsString, text, is_empty, false, Option, none, some, List, [], ◌++◌,
}
use ldapwarden.Api.Schemas.Auth.{
  next_ids_schema, overview_schema, server_info_schema, password_reset_info_schema,
}
use ldapwarden.Api.Schemas.Audit.{
  audit_logs_response_schema, audit_actors_response_schema, directory_changes_response_schema,
}
use ldapwarden.Api.Schemas.Policies.{schema_schema, policy_self_test_schema}
use ldapwarden.Api.Schemas.Config.{
  config_response_schema, scheduled_tasks_config_schema, task_runs_response_schema,
  task_health_response_schema, trigger_task_response_schema,
}
use ldapwarden.Api.Query.{ParamValue, audit_query, ExportParams, export_query}
use ldapwarden.Api.Request.{api_base, Request, post, fetches, sends, single}

pub data SystemCall : Type 0 where
  schema_get schema_refresh audit_actors next_ids overview server_info : SystemCall
  audit_list : Option (List (JsString × ParamValue)) → SystemCall
  directory_changes : List (JsString × ParamValue) → SystemCall

unfoldable pub system_request : SystemCall → Request
system_request schema_get = fetches (text "/schema") schema_schema
system_request schema_refresh = sends post (text "/schema/refresh") none (some schema_schema)
system_request (audit_list params) =
    fetches (text "/audit-logs" ++ audit_query params) audit_logs_response_schema
system_request audit_actors = fetches (text "/audit-logs/actors") audit_actors_response_schema
system_request (directory_changes params) =
    fetches (text "/directory-changes" ++ audit_query (some params))
      directory_changes_response_schema
system_request next_ids = fetches (text "/next-ids") next_ids_schema
system_request overview = fetches (text "/overview") overview_schema
system_request server_info = fetches (text "/server-info") server_info_schema

-- `api.auditLogs.exportUrl` and `api.admin.exportUrl`.
unfoldable pub audit_export_url : Option (List (JsString × ParamValue)) → JsString
audit_export_url params = api_base ++ (text "/audit-logs/export" ++ audit_query params)

unfoldable pub export_url : ExportParams → JsString
export_url params = api_base ++ (text "/admin/export?" ++ export_query params)

pub data AdminCall : Type 0 where
  get_config policy_self_test tasks_get_config tasks_get_health : AdminCall
  trigger_users_expiration trigger_passwords_expiration trigger_lockout_scan : AdminCall
  tasks_get_runs : Option JsString → AdminCall

abbrev runs_query : Option JsString → JsString
runs_query none = []
runs_query (some task_name) = if is_empty task_name then [] else text "?taskName=" ++ task_name

unfoldable pub admin_request : AdminCall → Request
admin_request get_config = fetches (text "/admin/config") config_response_schema
admin_request policy_self_test =
    sends post (text "/admin/policy-selftest") none (some policy_self_test_schema)
admin_request tasks_get_config =
    fetches (text "/admin/scheduled-tasks/config") scheduled_tasks_config_schema
admin_request (tasks_get_runs task_name) =
    fetches (text "/admin/scheduled-tasks/runs" ++ runs_query task_name) task_runs_response_schema
admin_request tasks_get_health =
    fetches (text "/admin/scheduled-tasks/health") task_health_response_schema
admin_request trigger_users_expiration =
    sends post (text "/admin/scheduled-tasks/users-expiration/trigger") none
      (some trigger_task_response_schema)
admin_request trigger_passwords_expiration =
    sends post (text "/admin/scheduled-tasks/passwords-expiration/trigger") none
      (some trigger_task_response_schema)
admin_request trigger_lockout_scan =
    sends post (text "/admin/scheduled-tasks/lockout-scan/trigger") none
      (some trigger_task_response_schema)

pub data ResetCall : Type 0 where
  get_info : JsString → ResetCall
  confirm : JsString → JsString → ResetCall

-- The token stands in the path as it is.
unfoldable pub reset_request : ResetCall → Request
reset_request (get_info token) =
    record (fetches (text "/password-reset/" ++ token) password_reset_info_schema) {
      signed = false;
    }
reset_request (confirm token password) =
    record (sends post (text "/password-reset/" ++ token) (some (single (text "password") password))
      none) { signed = false }
