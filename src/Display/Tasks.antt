-- ===== src/Display/Tasks.antt =====
-- Scheduled tasks: web/src/lib/scheduled-tasks.ts. `shown` prints a number.
use ldapwarden.Prelude.{◌==◌, if◌then◌else◌, JsString, text, ◌===◌, ℕ, [], ◌++◌}

pub data Task : Type 0 where
  users_expiration passwords_expiration lockouts_scan other : Task

-- The key of `TASKS` that a name is.
unfoldable pub task_of : JsString → Task
task_of name =
    if name === text "users_expiration"
    then users_expiration
    else if name === text "passwords_expiration"
    then passwords_expiration
    else if name === text "lockouts_scan"
    then lockouts_scan
    else other

unfoldable pub task_label : JsString → JsString
unfolding task_of
task_label name = elim (task_of name) [
  | users_expiration ↦ text "Account expiration"
  | passwords_expiration ↦ text "Password expiration"
  | lockouts_scan ↦ text "Lockout scan"
  | other ↦ name
]

-- `count === 1 ? '' : 's'`.
unfoldable pub plural : ℕ → JsString
plural count = if count == 1 then [] else text "s"

module _ (shown : ℕ → JsString) where
  unfoldable pub task_checked_label : JsString → ℕ → JsString
  unfolding task_of plural
  task_checked_label name count = elim (task_of name) [
    | users_expiration ↦ shown count ++ text " account" ++ plural count ++ text " checked"
    | passwords_expiration ↦ shown count ++ text " password" ++ plural count ++ text " checked"
    | lockouts_scan ↦ shown count ++ text " locked account" ++ plural count ++ text " seen"
    | other ↦ shown count ++ text " checked"
  ]

  unfoldable pub task_notified_label : ℕ → JsString
  unfolding plural
  task_notified_label count = shown count ++ text " notification" ++ plural count ++ text " sent"
