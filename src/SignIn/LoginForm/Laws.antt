-- ===== src/SignIn/LoginForm/Laws.antt =====
-- What the login page shows of a failure.
use ldapwarden.Prelude.{
  Bool-cases, JsString, ◌≡◌, refl, inl, inr, true, false, Option, List, [], ◌∷◌,
}
use ldapwarden.SignIn.LoginForm.{
  LoginForm, LoginEvent, types_username, types_password, submits, accepted, refused, failure_text,
  login_event, login_run, blank_form,
}

-- While a login is on its way, no failure is shown.
abbrev IsTidy : LoginForm → Type 0
IsTidy s = s.is_loading ≡ true → s.error ≡ []

login_event-IsTidy : (s : LoginForm) (e : LoginEvent) → IsTidy s → IsTidy (login_event s e)
unfolding login_event
login_event-IsTidy s (types_username value) h = h
login_event-IsTidy s (types_password value) h = h
login_event-IsTidy s submits h = elim (Bool-cases s.is_loading) [
  | inl e ↦ rw e (λ _. h e)
  | inr e ↦ rw e (λ _. refl)
]
login_event-IsTidy s accepted h = elim (Bool-cases s.is_loading) [
  | inl e ↦ rw e (λ f. cc)
  | inr e ↦ rw e (λ f. cc)
]
login_event-IsTidy s (refused m) h = elim (Bool-cases s.is_loading) [
  | inl e ↦ rw e (λ f. cc)
  | inr e ↦ rw e (λ f. cc)
]

login_run-IsTidy : (s : LoginForm) (es : List LoginEvent) → IsTidy s → IsTidy (login_run s es)
unfolding login_run
login_run-IsTidy s [] h = h
login_run-IsTidy s (e ∷ es) h = login_run-IsTidy (login_event s e) es (login_event-IsTidy s e h)

-- Whatever is typed and submitted, a failure of an earlier login is not shown while the next is on
-- its way, and a login that is refused ends with its text.
pub login_run-refused :
    (es : List LoginEvent) (m : Option JsString)
    → let s = login_run blank_form es in
      s.is_loading ≡ true
      → (s.error ≡ [])
        × ((login_event s (refused m)).error ≡ failure_text m)
        × ((login_event s (refused m)).is_loading ≡ false)
unfolding login_event
login_run-refused es m h = (login_run-IsTidy blank_form es (λ f. cc) h, rw h refl, rw h refl)
