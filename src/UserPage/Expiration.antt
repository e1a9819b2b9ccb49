-- ===== src/UserPage/Expiration.antt =====
-- The day on which an account expires: SecurityTab of web/src/routes/users/$dn.tsx.
use ldapwarden.Prelude.{
  if◌then◌else◌, Bool-cases, or_default, JsString, text, is_empty, ℕ, ◌≡◌, refl, inl, inr, Bool,
  true, false, Option, none, some, [], ◌∷◌,
}

-- The day in the picker, whether it is being edited, and the day to come that the entry has.
pub record Expiration : Type 0 where
  pub date : JsString
  pub editing : Bool
  pub server : Option JsString

abbrev pub shown_day : Option JsString → Expiration
shown_day server = record { date = or_default server []; editing = false; server = server }

pub data ExpirationEvent : Type 0 where
  edits cancels saved : ExpirationEvent
  picks : JsString → ExpirationEvent
  loads : Option JsString → ExpirationEvent

unfoldable pub expiration_event : Expiration → ExpirationEvent → Expiration
expiration_event s edits = record s { editing = true }
expiration_event s cancels = record s { editing = false; date = or_default s.server s.date }
expiration_event s saved = record s { editing = false }
expiration_event s (picks date) = record s { date = date }
expiration_event s (loads server) = record s { server = server }

-- What the two buttons ask for: `expirationDate || null` and `null`.
unfoldable pub asked_day : Expiration → Option JsString
asked_day s = if is_empty s.date then none else some s.date

abbrev pub cleared_day : Option JsString
cleared_day = none

-- What is said when the request has succeeded.
unfoldable pub expiration_toast : Expiration → JsString
expiration_toast s =
    if is_empty s.date then text "Expiration date cleared" else text "Expiration date set"

-- What the button of the picker asks for is what is said.
pub expiration_toast-asked_day :
    (s : Expiration)
    → expiration_toast s ≡ elim (asked_day s) [
      | none ↦ text "Expiration date cleared"
      | some day ↦ text "Expiration date set"
    ]
unfolding expiration_toast asked_day
expiration_toast-asked_day s = elim (Bool-cases (is_empty s.date)) [
  | inl e ↦ rw e refl
  | inr e ↦ rw e refl
]

-- An operator who clears the day of the own account is told that it has been set.
pub own_day_cleared :
    (c : ℕ) (day : JsString)
    → expiration_toast (shown_day (some (c ∷ day))) ≡ text "Expiration date set"
unfolding expiration_toast
own_day_cleared c day = refl
