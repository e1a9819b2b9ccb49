-- ===== src/Session/AuthLaws.antt =====
-- When the app says that a session has expired.
use ldapwarden.Prelude.{
  is_some, All, ◌+◌, ◌≡◌, refl, Bool, true, false, none, some, List, [], ◌∷◌, arith,
}
use ldapwarden.Session.Sections.{Session}
use ldapwarden.Session.Auth.{
  AuthState, AuthEvent, me_answered, committed, auth_error, login_called, login_answered,
  logout_settled, initial, step, run,
}

-- Nobody is signed in, and nothing has been lost.
pub record IsSignedOut (s : AuthState) : Type 0 where
  pub session : s.session ≡ none
  pub fresh : s.had_session ≡ false
  pub quiet : s.session_expired ≡ false

-- An event that brings no session.
abbrev pub grants : AuthEvent → Bool
grants (me_answered _) = true
grants (login_answered _) = true
grants _ = false

step-IsSignedOut :
    (s : AuthState) (e : AuthEvent) → grants e ≡ false → IsSignedOut s → IsSignedOut (step s e)
unfolding step
step-IsSignedOut s (me_answered _) g h = cc
step-IsSignedOut s e g h = ground arith

run-IsSignedOut :
    (s : AuthState) (es : List AuthEvent)
    → All (λ e. grants e ≡ false) es
    → IsSignedOut s
    → IsSignedOut (run s es)
unfolding run
run-IsSignedOut s [] g h = h
run-IsSignedOut s (e ∷ es) (g, gs) h = run-IsSignedOut (step s e) es gs (step-IsSignedOut s e g h)

-- After a deliberate sign-out, whatever happened before it, no number of 401 answers, failed
-- probes and failed logins makes the app report an expired session.
pub logout-IsSignedOut :
    (s : AuthState) (es : List AuthEvent)
    → All (λ e. grants e ≡ false) es
    → IsSignedOut (run s (logout_settled ∷ es))
unfolding run step
logout-IsSignedOut s es g =
    run-IsSignedOut _ es g (record { session = refl; fresh = refl; quiet = refl })

-- The same holds from the start of the app: a 401 on the first probe is no expiry.
pub initial-IsSignedOut :
    (es : List AuthEvent) → All (λ e. grants e ≡ false) es → IsSignedOut (run initial es)
initial-IsSignedOut es g =
    run-IsSignedOut initial es g (record { session = refl; fresh = refl; quiet = refl })

-- An event that neither starts a login nor ends a logout.
abbrev pub keeps_notice : AuthEvent → Bool
keeps_notice login_called = false
keeps_notice logout_settled = false
keeps_notice _ = true

step-expired :
    (s : AuthState) (e : AuthEvent)
    → keeps_notice e ≡ true
    → s.session_expired ≡ true
    → (step s e).session_expired ≡ true
unfolding step
step-expired s login_called k h = cc
step-expired s e k h = ground arith

run-expired :
    (s : AuthState) (es : List AuthEvent)
    → All (λ e. keeps_notice e ≡ true) es
    → s.session_expired ≡ true
    → (run s es).session_expired ≡ true
unfolding run
run-expired s [] k h = h
run-expired s (e ∷ es) (k, ks) h = run-expired (step s e) es ks (step-expired s e k h)

-- A live session that a render has shown, and that then meets a 401, is reported as expired; the
-- notice stays until the next login or logout, and the session is gone with the cached data.
pub expiry_reported :
    (s : AuthState) (session : Session) (es : List AuthEvent)
    → s.mounted ≡ true
    → s.session ≡ some session
    → All (λ e. keeps_notice e ≡ true) es
    → ((run s (committed ∷ auth_error ∷ [])).session ≡ none)
      × ((run s (committed ∷ auth_error ∷ [])).clears ≡ s.clears + 1)
      × ((run s (committed ∷ auth_error ∷ es)).session_expired ≡ true)
unfolding run step
expiry_reported s session es m e k = (ground arith, ground arith, run-expired _ es k (ground arith))

-- A session is noted as soon as a render has shown it, and a noted session is forgotten with it.
pub record IsNoted (s : AuthState) : Type 0 where
  pub noted : is_some s.session ≡ true → s.had_session ≡ true
  pub live : s.had_session ≡ true → is_some s.session ≡ true

-- Each event followed by the effect of its render.
abbrev pub settle : AuthState → AuthEvent → AuthState
settle s e = step (step s e) committed

abbrev pub settle_all : AuthState → List AuthEvent → AuthState
settle_all s [] = s
settle_all s (e ∷ es) = settle_all (settle s e) es

settle-IsNoted : (s : AuthState) (e : AuthEvent) → IsNoted s → IsNoted (settle s e)
unfolding step
settle-IsNoted s (me_answered x) h = ground arith
settle-IsNoted s e h = ground arith

-- With every render committed before the next event, the app is signed in exactly when it has
-- noted a session to lose, so that no expiry goes unreported.
pub settle_all-IsNoted : (es : List AuthEvent) → IsNoted (settle_all initial es)
settle_all-IsNoted es = go initial es (record { noted = λ e. cc; live = λ e. cc })
  where
    go : (s : AuthState) (es : List AuthEvent) → IsNoted s → IsNoted (settle_all s es)
    go s [] h = h
    go s (e ∷ es) h = go (settle s e) es (settle-IsNoted s e h)
