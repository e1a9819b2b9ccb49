-- ===== src/SignIn.antt =====
-- Signing in and resetting a password: web/src/routes/login.tsx,
-- web/src/routes/reset-password.$token.tsx, web/src/components/ui/password-strength.tsx and
-- web/src/components/ui/password-requirements.tsx.
mod Tests
pub mod LoginForm
use ldapwarden.Prelude.{
  leb, ◌==◌, if◌then◌else◌, Bool-cases, JsString, text, ◌===◌, is_empty, starts_with, length, any,
  ℕ, ◌+◌, ◌≤◌, ◌≡◌, refl, inl, inr, Bool, true, false, not, ◌&&◌, ◌||◌, Option, none, some, List,
  [], ◌∷◌, ◌++◌, arith,
}
use ldapwarden.Values.{Value, string, Fields, get}
use ldapwarden.Api.Fetch.{Failure, api_error, abort_error, other_error}

pub record LoginSearch : Type 0 where
  pub redirect : Option JsString
  pub is_expired : Bool

abbrev string_of : Value → Option JsString
string_of (string s) = some s
string_of _ = none

abbrev is_text : JsString → Value → Bool
is_text s (string t) = t === s
is_text s _ = false

unfoldable pub validate_login : Fields → LoginSearch
validate_login search = record {
  redirect = string_of (get (text "redirect") search);
  is_expired = is_text (text "expired") (get (text "reason") search);
}

unfoldable pub safe_redirect : Option JsString → JsString
safe_redirect none = text "/"
safe_redirect (some target) =
    if not (is_empty target)
      && (starts_with (text "/") target && not (starts_with (text "//") target))
    then target
    else text "/"

-- Whether an error says that the link of a reset is dead.
unfoldable pub link_dead : Failure → Bool
link_dead (api_error status message) = status == 404 || (status == 410 || status == 400)
link_dead abort_error = false
link_dead (other_error message) = false

pub data ResetView : Type 0 where
  is_loading could_not_check invalid_link is_done shows_form : ResetView

-- What the page of a reset shows: the early returns in their order.
unfoldable pub reset_view : Bool → Option Failure → Bool → ResetView
unfolding link_dead
reset_view loading error done = if loading then is_loading else elim error [
  | some e ↦ if not (link_dead e) then could_not_check else invalid_link
  | none ↦ if done then is_done else shows_form
]

abbrev is_lower : ℕ → Bool
is_lower c = leb b'a' c && leb c b'z'

abbrev is_upper : ℕ → Bool
is_upper c = leb b'A' c && leb c b'Z'

abbrev is_numeral : ℕ → Bool
is_numeral c = leb b'0' c && leb c b'9'

abbrev is_special : ℕ → Bool
is_special c = not (is_lower c || (is_upper c || is_numeral c))

abbrev point : Bool → ℕ
point true = 1
point false = 0

unfoldable pub strength_score : JsString → ℕ
strength_score password =
    point (leb 8 (length password))
    + point (leb 12 (length password))
    + point (any is_lower password)
    + point (any is_upper password)
    + point (any is_numeral password)
    + point (any is_special password)

pub data Strength : Type 0 where
  weak medium strong : Strength

unfoldable pub strength_of : ℕ → Strength
strength_of score = if leb score 2 then weak else if leb score 4 then medium else strong

-- What PasswordRequirements reads of a policy: a missing number is 0.
pub record Rules : Type 0 where
  pub min_length : ℕ
  pub in_history : ℕ
  pub check_quality : ℕ

pub record Requirement : Type 0 where
  pub label : JsString
  pub met : Option Bool

abbrev require_if : Bool → JsString → Option Bool → List Requirement
require_if true label met = record { label = label; met = met } ∷ []
require_if false label met = []

-- `shown` prints a number. No requirement shows nothing.
unfoldable pub requirements : (ℕ → JsString) → Option Rules → JsString → List Requirement
requirements shown none password = []
requirements shown (some policy) password =
    require_if (not (policy.min_length == 0))
      (text "At least " ++ (shown policy.min_length ++ text " characters"))
      (some (leb policy.min_length (length password)))
    ++ (require_if (not (policy.in_history == 0))
          (text "Not one of the last "
            ++ (shown policy.in_history ++ text " passwords used on this account"))
          none
        ++ require_if (not (policy.check_quality == 0))
            (text "Complex enough for the directory's quality check") none)

-- Whatever the link to the login page says, what follows the login is a path of this site: one that
-- starts with a slash, and not with two.
pub safe_redirect_lem :
    (target : Option JsString)
    → (starts_with (text "/") (safe_redirect target) ≡ true)
      × (starts_with (text "//") (safe_redirect target) ≡ false)
unfolding safe_redirect
safe_redirect_lem none = (refl, refl)
safe_redirect_lem (some target) =
    elim (Bool-cases (
      not (is_empty target)
      && (starts_with (text "/") target && not (starts_with (text "//") target)))) [
        | inl e ↦ rw e (ground arith, ground arith)
        | inr e ↦ rw e (refl, refl)
      ]

point-le : (b : Bool) → point b ≤ 1
point-le true = omega arith
point-le false = omega arith

-- Every character is of one of the four kinds.
kinds : (c : ℕ) → (is_lower c || (is_upper c || (is_numeral c || is_special c))) ≡ true
kinds c = ground arith

one_point :
    (a b c d : Bool) → (a || (b || (c || d))) ≡ true → 1 ≤ point a + point b + point c + point d
one_point true b c d h = omega arith
one_point false true c d h = omega arith
one_point false false true d h = omega arith
one_point false false false true h = omega arith
one_point false false false false h = cc

some_kind :
    (c : ℕ) (s : JsString)
    → (any is_lower (c ∷ s)
        || (any is_upper (c ∷ s) || (any is_numeral (c ∷ s) || any is_special (c ∷ s))))
      ≡ true
some_kind c s =
    spread (is_lower c) (is_upper c) (is_numeral c) (is_special c) (any is_lower s) (any is_upper s)
      (any is_numeral s) (any is_special s) (kinds c)
  where
    spread :
        (a b c d e f g h : Bool)
        → (a || (b || (c || d))) ≡ true
        → ((a || e) || ((b || f) || ((c || g) || (d || h)))) ≡ true
    spread a b c d e f g h k = ground arith

-- A password that is not empty has between one and six points, and is strong from five on.
pub strength_score_bounds :
    (password : JsString)
    → is_empty password ≡ false
    → (1 ≤ strength_score password) × (strength_score password ≤ 6)
unfolding strength_score
strength_score_bounds [] h = cc
strength_score_bounds (c ∷ s) h =
    let p = c ∷ s in
    let low =
      one_point (any is_lower p) (any is_upper p) (any is_numeral p) (any is_special p)
        (some_kind c s) in
    (
      omega arith,
      omega (
        arith,
        point-le (leb 8 (length p)),
        point-le (leb 12 (length p)),
        point-le (any is_lower p),
        point-le (any is_upper p),
        point-le (any is_numeral p),
        point-le (any is_special p),
      ),
    )
