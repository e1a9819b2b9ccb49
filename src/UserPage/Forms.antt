-- ===== src/UserPage/Forms.antt =====
-- The forms of the tabs of an account, and what saving one sends: identityForm, posixForm,
-- sambaForm and changedFields of web/src/routes/users/$dn.tsx.
pub mod Laws
pub mod SaveLaws
use ldapwarden.Prelude.{
  if◌then◌else◌, JsString, text, ◌===◌, look_up, Bool, false, Option, none, some, List, [], ◌∷◌,
  ◌++◌, map,
}
use ldapwarden.Values.{Value, string, Fields, get}
use ldapwarden.FormSync.{FormState}

-- The texts of a form, by the names of its fields in the order of the object's keys.
abbrev pub Form : Type 0
Form = List (JsString × JsString)

-- `value || ''` of a text or undefined.
unfoldable pub text_of : Value → JsString
text_of (string s) = s
text_of _ = []

unfoldable pub form_of : List JsString → Fields → Form
unfolding text_of
form_of keys user = map (λ key. (key, text_of (get key user))) keys

abbrev pub identity_keys : List JsString
identity_keys =
    text "givenName"
    ∷ text "sn"
    ∷ text "cn"
    ∷ text "displayName"
    ∷ text "mail"
    ∷ text "telephoneNumber"
    ∷ text "title"
    ∷ text "departmentNumber"
    ∷ text "o"
    ∷ text "employeeNumber"
    ∷ text "employeeType"
    ∷ text "initials"
    ∷ text "manager"
    ∷ text "description"
    ∷ []

unfoldable pub identity_form : Fields → Form
unfolding form_of
identity_form user = form_of identity_keys user

abbrev pub posix_keys : List JsString
posix_keys = text "homeDirectory" ∷ text "loginShell" ∷ text "gecos" ∷ []

unfoldable pub posix_form : Fields → Form
unfolding form_of
posix_form user = form_of posix_keys user

abbrev pub samba_keys : List JsString
samba_keys =
    text "sambaSID"
    ∷ text "sambaPrimaryGroupSID"
    ∷ text "sambaAcctFlags"
    ∷ text "sambaHomePath"
    ∷ text "sambaHomeDrive"
    ∷ text "sambaLogonScript"
    ∷ text "sambaProfilePath"
    ∷ text "sambaDomainName"
    ∷ []

unfoldable pub samba_form : Fields → Form
unfolding form_of
samba_form user = form_of samba_keys user

-- `setFormData({ ...formData, key: value })`, for a key of the form.
unfoldable pub set_field : JsString → JsString → Form → Form
set_field key value [] = []
set_field key value ((k, v) ∷ form) = (k, if k === key then value else v) ∷ set_field key value form

-- `form[key] === server[key]`, where the server's copy may lack the key.
unfoldable pub is_same : JsString → Option JsString → Bool
is_same value none = false
is_same value (some old) = value === old

unfoldable pub changed_fields : Form → Form → Form
unfolding is_same
changed_fields [] server = []
changed_fields ((key, value) ∷ form) server =
    let rest = changed_fields form server in
    if is_same value (look_up key server) then rest else (key, value) ∷ rest

-- The data of the update of the identity tab: the photo is added where it has been changed.
unfoldable pub identity_update : Form → Fields → Bool → JsString → Form
unfolding changed_fields
identity_update form user photo_changed photo =
    let changed = changed_fields form (identity_form user) in
    if photo_changed then changed ++ (text "jpegPhoto", photo) ∷ [] else changed

-- What saving the POSIX tab sends: `changedFields` of the form and of the copy of the last render,
-- which is always there.
unfoldable pub save_body : (json : Form → JsString) → FormState json → Form
unfolding changed_fields
save_body json s = elim s.server [ none ↦ [] | some copy ↦ changed_fields s.form copy ]
