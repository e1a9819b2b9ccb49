-- ===== src/Account/Lock.antt =====
-- web/src/lib/account.ts: what an entry says about its lock and its expiry. An instant is the
-- number of milliseconds that the timestamp functions make of a timestamp.
use ldapwarden.Prelude.{
  if◌then◌else◌, or_default, JsString, text, ◌===◌, is_empty, ℕ, Bool, true, false, ◌||◌, Option,
  some,
}
use ldapwarden.Timestamp.Parse.{parse_ldap_timestamp}

pub data LockoutState : Type 0 where
  none manual active lifted unknown : LockoutState

pub record Lockout : Type 0 where
  pub state : LockoutState
  pub locked_at : Option JsString
  pub lifts_at : Option JsString
  pub duration_seconds : Option ℕ
  pub policy_dn : Option JsString

pub record AccountStatusFields : Type 0 where
  pub account_locked : Option Bool
  pub pwd_account_locked_time : Option JsString
  pub pwd_end_time : Option JsString
  pub lockout : Option Lockout

-- `!value` for an optional text, else what a function makes of it.
abbrev pub unless_empty : (JsString → Option ℕ) → Option JsString → Option ℕ
unless_empty f Option.none = Option.none
unless_empty f (some s) = if is_empty s then Option.none else f s

unfoldable pub account_expiration : AccountStatusFields → Option ℕ
account_expiration user = unless_empty parse_ldap_timestamp user.pwd_end_time

-- `state !== 'none' && state !== 'lifted'`.
abbrev pub holds : LockoutState → Bool
holds LockoutState.none = false
holds lifted = false
holds _ = true

unfoldable pub is_locked : AccountStatusFields → Bool
is_locked user = elim user.lockout [
  | Option.none ↦ or_default user.account_locked false
  | some lockout ↦ holds lockout.state
]

abbrev pub is_lifted : LockoutState → Bool
is_lifted lifted = true
is_lifted _ = false

unfoldable pub has_lapsed_lock : AccountStatusFields → Bool
has_lapsed_lock user = elim user.lockout [
  | Option.none ↦ false
  | some lockout ↦ is_lifted lockout.state
]

-- `new Date(text)`, none where its time is NaN, is an argument.
unfoldable pub lockout_lifts_at : (JsString → Option ℕ) → AccountStatusFields → Option ℕ
lockout_lifts_at parse_date user = elim user.lockout [
  | Option.none ↦ Option.none
  | some lockout ↦ unless_empty parse_date lockout.lifts_at
]

abbrev pub permanent_lock_value : JsString
permanent_lock_value = text "000001010000Z"

-- `user.lockout?.lockedAt ?? user.pwdAccountLockedTime`.
abbrev or_else : Option JsString → Option JsString → Option JsString
or_else Option.none o = o
or_else (some s) o = some s

abbrev pub lock_value : AccountStatusFields → Option JsString
lock_value user = elim user.lockout [
  | Option.none ↦ user.pwd_account_locked_time
  | some lockout ↦ or_else lockout.locked_at user.pwd_account_locked_time
]

-- `!raw || raw === PERMANENT_LOCK_VALUE`.
unfoldable pub instant_of_lock : Option JsString → Option ℕ
instant_of_lock Option.none = Option.none
instant_of_lock (some raw) =
    if is_empty raw || raw === permanent_lock_value then Option.none else parse_ldap_timestamp raw

unfoldable pub locked_at : AccountStatusFields → Option ℕ
locked_at user = instant_of_lock (lock_value user)
