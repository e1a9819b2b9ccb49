-- ===== src/UserPage/Shadow.antt =====
-- The shadow tab: shadowForm, and the request that saving it makes.
pub mod Laws
use ldapwarden.Prelude.{
  ◌==◌, if◌then◌else◌, decimal, JsString, text, is_empty, ℕ, ◌*◌, ◌/◌, List, [], ◌∷◌, map,
}
use ldapwarden.Values.{
  Value, undefined, number, Fields, end, field, get, number_text, parse_int, stringified,
}
use ldapwarden.UserPage.Forms.{Form, changed_fields}

abbrev pub shadow_keys : List JsString
shadow_keys =
    text "shadowLastChange"
    ∷ text "shadowMin"
    ∷ text "shadowMax"
    ∷ text "shadowWarning"
    ∷ text "shadowInactive"
    ∷ text "shadowExpire"
    ∷ text "shadowFlag"
    ∷ []

-- `value?.toString() || ''` of a number or undefined.
unfoldable pub shown_number : Value → JsString
shown_number (number n) = number_text n
shown_number _ = []

unfoldable pub shadow_form : Fields → Form
unfolding shown_number number_text
shadow_form user = map (λ key. (key, shown_number (get key user))) shadow_keys

abbrev pub day_millis : ℕ
day_millis = 1000 * 60 * 60 * 24

-- The form that handleAddShadowAccount fills in. `now` is `Date.now()`.
unfoldable pub shadow_defaults : ℕ → Form
shadow_defaults now =
    (text "shadowLastChange", decimal (now / day_millis))
    ∷ (text "shadowMin", text "0")
    ∷ (text "shadowMax", text "99999")
    ∷ (text "shadowWarning", text "7")
    ∷ (text "shadowInactive", [])
    ∷ (text "shadowExpire", [])
    ∷ (text "shadowFlag", text "0")
    ∷ []

-- `value === '' ? undefined : parseInt(value, 10)`.
unfoldable pub shadow_value : JsString → Value
unfolding parse_int
shadow_value value = if is_empty value then undefined else number (parse_int value)

-- The loop over the entries of the changed fields.
unfoldable pub shadow_entries : Form → Fields
unfolding shadow_value
shadow_entries [] = end
shadow_entries ((key, value) ∷ changed) = field key (shadow_value value) (shadow_entries changed)

-- The data that the update is called with, and its body.
unfoldable pub shadow_update : Form → Fields → Fields
shadow_update form user = shadow_entries (changed_fields form (shadow_form user))

unfoldable pub shadow_body : Form → Fields → Fields
unfolding shadow_update stringified
shadow_body form user = stringified (shadow_update form user)

-- `daysToDate`. `local_date` is what the reader's locale makes of an instant.
unfoldable pub days_to_date : (ℕ → JsString) → ℕ → JsString
days_to_date local_date days =
    if days == 0 then text "Not set" else local_date (days * 24 * 60 * 60 * 1000)
