-- ===== src/Account/Status.antt =====
-- `lockLabel` and `statusOf` of web/src/components/account-status.tsx. An instant as the reader's
-- locale shows it, and the reading of an RFC 3339 time, are arguments.
use ldapwarden.Prelude.{
  ltb, leb, ◌==◌, if◌then◌else◌, decimal, JsString, text, ℕ, ◌+◌, ◌-◌, ◌/◌, Bool, true, false, not,
  ◌&&◌, Option, none, some, [], ◌++◌,
}
use ldapwarden.Account.Lock.{
  LockoutState, AccountStatusFields, manual, active, unknown, account_expiration, is_locked,
  has_lapsed_lock, lockout_lifts_at,
}

pub data Icon : Type 0 where
  lock lock_open calendar_x calendar_clock check_circle : Icon

pub data Tint : Type 0 where
  destructive warning success : Tint

pub record Status : Type 0 where
  pub icon : Icon
  pub class_name : Tint
  pub label : JsString
  pub short : JsString
  pub notable : Bool

abbrev pub day_length : ℕ
day_length = 86400000

-- `Math.ceil` of the days from now to an instant that is not before it.
unfoldable pub days_left : ℕ → ℕ → ℕ
days_left now expires_at = (expires_at - now + (day_length - 1)) / day_length

abbrev state_of : AccountStatusFields → Option LockoutState
state_of user = elim user.lockout [ none ↦ none | some lockout ↦ some lockout.state ]

-- The label of a lock that the policy has put on.
abbrev policy_label : (ℕ → JsString) → Option ℕ → JsString
policy_label locale_string none =
    text "Locked by the password policy, which never lifts it on its own"
policy_label locale_string (some lifts_at) =
    text "Locked by the password policy until " ++ locale_string lifts_at

abbrev short_of_lock : Option LockoutState → JsString
short_of_lock (some active) = text "Policy lockout"
short_of_lock _ = text "Locked"

-- `expiresAt && expiresAt < now`.
abbrev pub has_passed : ℕ → Option ℕ → Bool
has_passed now none = false
has_passed now (some expires_at) = ltb expires_at now

module _ (parse_date : JsString → Option ℕ) (locale_string : ℕ → JsString) where
  unfoldable pub lock_label : AccountStatusFields → JsString
  lock_label user = elim (state_of user) [
    | some manual ↦ text "Locked by an administrator"
    | some active ↦ policy_label locale_string (lockout_lifts_at parse_date user)
    | some unknown ↦ text "Locked — whether the policy has already lifted it is not known"
    | some LockoutState.none ↦ text "Account locked"
    | some LockoutState.lifted ↦ text "Account locked"
    | none ↦ text "Account locked"
  ]

  unfoldable pub locked_status : AccountStatusFields → Status
  locked_status user = record {
    icon = Icon.lock;
    class_name = destructive;
    label = lock_label user;
    short = short_of_lock (state_of user);
    notable = true;
  }

  abbrev expired_status : Status
  expired_status = record {
    icon = calendar_x;
    class_name = destructive;
    label = text "Account expired";
    short = text "Expired";
    notable = true;
  }

  abbrev lapsed_status : Status
  lapsed_status = record {
    icon = lock_open;
    class_name = success;
    label = text "Active — lockout expired, flag not yet cleared";
    short = text "Active";
    notable = false;
  }

  abbrev active_status : Status
  active_status = record {
    icon = check_circle;
    class_name = success;
    label = text "Active";
    short = text "Active";
    notable = false;
  }

  unfoldable pub expiring_status : ℕ → Status
  expiring_status days = record {
    icon = calendar_clock;
    class_name = if leb days 7 then destructive else if leb days 30 then warning else success;
    label =
        text "Expires in "
        ++ (decimal days ++ (text " day" ++ (if days == 1 then [] else text "s")));
    short = text "Expires in " ++ (decimal days ++ text "d");
    notable = leb days 30;
  }

  unfoldable pub working_status : ℕ → Option ℕ → Status
  working_status now none = active_status
  working_status now (some expires_at) = expiring_status (days_left now expires_at)

  unfoldable pub status_of : ℕ → AccountStatusFields → Status
  status_of now user =
      let expires_at = account_expiration user in
      if is_locked user
      then locked_status user
      else if has_passed now expires_at
      then expired_status
      else if has_lapsed_lock user
      then lapsed_status
      else working_status now expires_at

  -- The conditions under which AccountStatus renders nothing.
  unfoldable pub is_hidden : Bool → ℕ → AccountStatusFields → Bool
  is_hidden quiet now user = quiet && not (status_of now user).notable
