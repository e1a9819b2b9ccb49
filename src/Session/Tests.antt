-- ===== src/Session/Tests.antt =====
-- The theorems on sessions at concrete ones.
use ldapwarden.Prelude.{JsString, text, ◌===◌, refl, Bool, true, false, none, some, [], ◌∷◌}
use ldapwarden.Session.ServerInfo.{ServerInfo}
use ldapwarden.Session.Sections.{Session}
use ldapwarden.Session.Auth.{AuthState, auth_error, login_failed, logout_settled, initial, run}
use ldapwarden.Session.AuthLaws.{IsSignedOut, logout-IsSignedOut}

abbrev info : ServerInfo
info = record {
  version = record { version = text "1.0"; revision = none; modified = none };
  modules = text "users" ∷ text "netgroups" ∷ [];
  users_objects = [];
  groups_objects = [];
  capabilities = record {
    scheduled_expiry_supported = none;
    policy_enforcement = none;
    netgroups_supported = some true;
  };
}

abbrev reader : JsString → Bool
reader p = p === text "users:read"

abbrev alice : Session
alice = record {
  id = none;
  user_dn = text "uid=alice";
  user_uid = text "alice";
  display_name = text "Alice";
  mail = none;
  role_name = text "admin";
  permissions = text "users:read" ∷ [];
  expires_at = [];
}

abbrev signed_in : AuthState
signed_in = record initial { session = some alice; had_session = true; is_loading = false }

logout-IsSignedOut_example :
    IsSignedOut (run signed_in (logout_settled ∷ auth_error ∷ login_failed ∷ []))
logout-IsSignedOut_example =
    logout-IsSignedOut signed_in (auth_error ∷ login_failed ∷ []) (refl, (refl, tt))
