-- ===== src/Session/Auth.antt =====
-- web/src/lib/auth.tsx: the state of AuthProvider, and its effects and callbacks as events.
use ldapwarden.Prelude.{
  ◌==◌, if◌then◌else◌, is_some, ℕ, ◌+◌, Bool, true, false, not, Option, none, some, List, [], ◌∷◌,
}
use ldapwarden.Session.Sections.{Session}

-- The state of the component; `mounted` is the opposite of `cancelled`, and says that the callback
-- is registered; `clears` counts the calls of `queryClient.clear()`.
pub record AuthState : Type 0 where
  pub session : Option Session
  pub session_expired : Bool
  pub had_session : Bool
  pub is_loading : Bool
  pub mounted : Bool
  pub clears : ℕ

pub data AuthEvent : Type 0 where
  -- The probe of /auth/me on mount: its answer, its failure, and its `finally`.
  me_answered : Session → AuthEvent
  me_failed me_settled : AuthEvent
  -- React has committed a render, and runs the effect that notes a live session.
  committed : AuthEvent
  -- The API layer has met a 401.
  auth_error : AuthEvent
  -- `login` is called, and its request is answered or fails.
  login_called : AuthEvent
  login_answered : Session → AuthEvent
  login_failed : AuthEvent
  -- The request of `logout` is over, answered or not: the `finally` block.
  logout_settled : AuthEvent
  unmounted : AuthEvent

abbrev pub initial : AuthState
initial = record {
  session = none;
  session_expired = false;
  had_session = false;
  is_loading = true;
  mounted = true;
  clears = 0;
}

-- The callback given to `setOnAuthError`.
unfoldable pub on_auth_error : AuthState → AuthState
on_auth_error s = record s {
  session = none;
  session_expired = if s.had_session then true else s.session_expired;
  had_session = false;
  clears = s.clears + 1;
}

unfoldable pub step : AuthState → AuthEvent → AuthState
unfolding on_auth_error
step s (me_answered session) = if s.mounted then record s { session = some session } else s
step s me_failed = s
step s me_settled = if s.mounted then record s { is_loading = false } else s
step s committed = if is_some s.session then record s { had_session = true } else s
step s auth_error = if s.mounted then on_auth_error s else s
step s login_called = record s { session_expired = false }
step s (login_answered session) = record s { session = some session }
step s login_failed = s
step s logout_settled = record s {
  session = none;
  session_expired = false;
  had_session = false;
  clears = s.clears + 1;
}
step s unmounted = record s { mounted = false }

unfoldable pub run : AuthState → List AuthEvent → AuthState
run s [] = s
run s (e ∷ es) = run (step s e) es

-- How a request of `logout` ends.
pub data LogoutReply : Type 0 where
  done : LogoutReply
  api_error : ℕ → LogoutReply
  other_error : LogoutReply

-- Whether `logout` rethrows: every error but a 401.
unfoldable pub logout_throws : LogoutReply → Bool
logout_throws done = false
logout_throws (api_error status) = not (status == 401)
logout_throws other_error = true
