-- ===== src/PolicyPage.antt =====
-- Password policies: the form of web/src/routes/password-policies/$dn.tsx and the durations of
-- web/src/routes/password-policies/index.tsx.
use ldapwarden.Prelude.{
  ltb, ◌==◌, if◌then◌else◌, or_default, decimal, JsString, text, is_empty, ℕ, ◌/◌, Bool, true,
  false, Option, none, some, [], ◌++◌,
}

-- What the server sends of a policy: its numbers by their keys.
pub record PasswordPolicy : Type 0 where
  pub description : Option JsString
  pub pwd_attribute : Option JsString
  pub numbers : JsString → Option ℕ
  pub pwd_lockout : Option Bool
  pub pwd_must_change : Option Bool
  pub pwd_allow_user_change : Option Bool
  pub pwd_safe_modify : Option Bool
  pub pwd_check_module : Option JsString

pub record PolicyForm : Type 0 where
  pub description : JsString
  pub pwd_attribute : JsString
  pub numbers : JsString → ℕ
  pub pwd_lockout : Bool
  pub pwd_must_change : Bool
  pub pwd_allow_user_change : Bool
  pub pwd_safe_modify : Bool
  pub pwd_check_module : JsString

-- `a || b` for a text that may be missing.
abbrev filled_or : Option JsString → JsString → JsString
filled_or none b = b
filled_or (some s) b = if is_empty s then b else s

-- `serverForm`: a number that is missing is 0.
unfoldable pub policy_form : PasswordPolicy → PolicyForm
policy_form policy = record {
  description = filled_or policy.description [];
  pwd_attribute = filled_or policy.pwd_attribute (text "userPassword");
  numbers = λ key. or_default (policy.numbers key) 0;
  pwd_lockout = or_default policy.pwd_lockout false;
  pwd_must_change = or_default policy.pwd_must_change false;
  pwd_allow_user_change = or_default policy.pwd_allow_user_change true;
  pwd_safe_modify = or_default policy.pwd_safe_modify false;
  pwd_check_module = filled_or policy.pwd_check_module [];
}

-- `formatSeconds`.
unfoldable pub format_seconds : Option ℕ → JsString
format_seconds none = text "-"
format_seconds (some n) =
    if n == 0
    then text "-"
    else if ltb n 60
    then decimal n ++ text "s"
    else if ltb n 3600
    then decimal (n / 60) ++ text "m"
    else if ltb n 86400
    then decimal (n / 3600) ++ text "h"
    else decimal (n / 86400) ++ text "d"
