-- ===== src/SignIn/LoginForm.antt =====
-- The form of the login page, LoginPage of web/src/routes/login.tsx. What `login` of useAuth comes
-- to is an event.
mod Laws
use ldapwarden.Prelude.{
  if◌then◌else◌, JsString, text, Bool, true, false, Option, none, some, List, [], ◌∷◌,
}
use ldapwarden.SignIn.{safe_redirect}

pub record LoginForm : Type 0 where
  pub username : JsString
  pub password : JsString
  pub error : JsString
  pub is_loading : Bool

abbrev pub blank_form : LoginForm
blank_form = record { username = []; password = []; error = []; is_loading = false }

-- The submit button is disabled while a login is on its way. `refused none` is a rejection with
-- something that is no Error.
pub data LoginEvent : Type 0 where
  types_username types_password : JsString → LoginEvent
  submits accepted : LoginEvent
  refused : Option JsString → LoginEvent

abbrev pub failure_text : Option JsString → JsString
failure_text none = text "Login failed"
failure_text (some message) = message

unfoldable pub login_event : LoginForm → LoginEvent → LoginForm
login_event s (types_username value) = record s { username = value }
login_event s (types_password value) = record s { password = value }
login_event s submits = if s.is_loading then s else record s { error = []; is_loading = true }
login_event s accepted = if s.is_loading then record s { is_loading = false } else s
login_event s (refused message) =
    if s.is_loading then record s { error = failure_text message; is_loading = false } else s

unfoldable pub login_run : LoginForm → List LoginEvent → LoginForm
unfolding login_event
login_run s [] = s
login_run s (e ∷ es) = login_run (login_event s e) es

-- Where the page leads, once there is a session.
unfoldable pub login_target : Bool → Option JsString → Option JsString
unfolding safe_redirect
login_target is_authenticated redirect =
    if is_authenticated then some (safe_redirect redirect) else none
