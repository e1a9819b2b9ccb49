-- ===== src/Account/Tests.antt =====
-- The theorems on accounts at concrete ones.
use ldapwarden.Prelude.{text, ◌≡◌, true, not, ◌&&◌, ◌||◌, none, some, []}
use ldapwarden.Account.Lock.{
  AccountStatusFields, LockoutState, is_locked, has_lapsed_lock, account_expiration,
}
use ldapwarden.Account.Status.{is_hidden, has_passed}
use ldapwarden.Account.Laws.{falls_within, is_hidden_iff}

abbrev lapsed : AccountStatusFields
lapsed = record {
  account_locked = some true;
  pwd_account_locked_time = some (text "20240101000000Z");
  pwd_end_time = some (text "20240301235959Z");
  lockout = some (record {
    state = LockoutState.lifted;
    locked_at = none;
    lifts_at = none;
    duration_seconds = some 60;
    policy_dn = none;
  });
}

is_hidden_iff_example :
    is_hidden (λ s. none) (λ t. []) true 63876470400000 lapsed
    ≡ not (
        is_locked lapsed
        || has_passed 63876470400000 (account_expiration lapsed)
        || (not (has_lapsed_lock lapsed)
            && falls_within 30 63876470400000 (account_expiration lapsed)))
is_hidden_iff_example = is_hidden_iff (λ s. none) (λ t. []) 63876470400000 lapsed
