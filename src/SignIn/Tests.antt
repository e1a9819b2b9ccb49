-- ===== src/SignIn/Tests.antt =====
-- What follows the login for two links, and the points of a password.
use ldapwarden.Prelude.{text, ◌≡◌, refl, some}
use ldapwarden.SignIn.{safe_redirect, strength_score}

kept_path : safe_redirect (some (text "/users?page=2")) ≡ text "/users?page=2"
unfolding safe_redirect
kept_path = refl

other_site : safe_redirect (some (text "//evil.com")) ≡ text "/"
unfolding safe_redirect
other_site = refl

long_password : strength_score (text "Correct-Horse-9") ≡ 6
unfolding strength_score
long_password = refl
