-- ===== src/UserPage/Shadow/Laws.antt =====
-- What the shadow tab sends of a field.
use ldapwarden.Prelude.{
  if◌then◌else◌, Bool-cases, trim_start, JsString, text, ◌===◌, ===_refl, ===_eq, look_up, is_empty,
  ℕ, ◌/◌, ◌≡◌, refl, sym, ◌∙◌, subst, inl, inr, false, ◌||◌, Option, some, [], ◌∷◌, map, arith,
}
use ldapwarden.Values.{undefined, number, whole, Fields, end, field, get, parse_int, stringified}
use ldapwarden.Values.Numbers.{decimal-cons, parse_int-decimal}
use ldapwarden.UserPage.Forms.{Form, is_same, changed_fields}
use ldapwarden.UserPage.Forms.Laws.{Lacks, IsRecord}
use ldapwarden.UserPage.Shadow.{
  day_millis, shadow_keys, shadow_form, shadow_defaults, shadow_value, shadow_entries,
  shadow_update, shadow_body,
}

-- The body made of the changed fields.
abbrev body : Form → Form → Fields
body form server = stringified (shadow_entries (changed_fields form server))

body-skip :
    (key k v : JsString) (form server : Form)
    → (k === key) ≡ false
    → get key (body ((k, v) ∷ form) server) ≡ get key (body form server)
unfolding changed_fields shadow_entries stringified get shadow_value
body-skip key k v form server h = elim (Bool-cases (is_same v (look_up k server))) [
  | inl e ↦ rw e refl
  | inr e ↦ elim (Bool-cases (is_empty v)) [ inl f ↦ rw (e, f) refl | inr f ↦ rw (e, f, h) refl ]
]

body-Lacks :
    (key : JsString) (form server : Form) → Lacks key form → get key (body form server) ≡ undefined
unfolding changed_fields shadow_entries stringified get
body-Lacks key [] server h = refl
body-Lacks key ((k, v) ∷ form) server (h, hs) =
    body-skip key k v form server h ∙ body-Lacks key form server hs

body-here :
    (key value : JsString) (form server : Form)
    → Lacks key form
    → get key (body ((key, value) ∷ form) server) ≡ (
        if is_same value (look_up key server) || is_empty value
        then undefined
        else number (parse_int value))
unfolding changed_fields shadow_entries stringified get shadow_value
body-here key value form server h = elim (Bool-cases (is_same value (look_up key server))) [
  | inl e ↦ rw e (body-Lacks key form server h)
  | inr e ↦ elim (Bool-cases (is_empty value)) [
    | inl f ↦ rw (e, f) (body-Lacks key form server h)
    | inr f ↦ rw (e, f, ===_refl key) refl
  ]
]

body_lem :
    (key value : JsString) (form server : Form)
    → IsRecord form
    → look_up key form ≡ some value
    → get key (body form server) ≡ (
        if is_same value (look_up key server) || is_empty value
        then undefined
        else number (parse_int value))
unfolding look_up
body_lem key value [] server r e = cc
body_lem key value ((k, v) ∷ form) server (l, r) e = elim (Bool-cases (k === key)) [
  | inl h ↦
      let same_value : v ≡ value = unsome (rw h at e) in
      subst
        (λ i. get key (body ((i, v) ∷ form) server) ≡ (
          if is_same value (look_up key server) || is_empty value
          then undefined
          else number (parse_int value)))
        (sym (===_eq k key h))
        (rw same_value
          (body-here key value form server (subst (λ i. Lacks i form) (===_eq k key h) l)))
  | inr h ↦ body-skip key k v form server h ∙ body_lem key value form server r (rw h at e)
]
  where
    unsome : {a b : JsString} → Option.some a ≡ some b → a ≡ b
    unsome q = ground arith

-- Saving the tab sends of a field of the form the number that is typed there, if the field differs
-- from the entry's and is not empty, and nothing of it otherwise. So a field that has been emptied is
-- not sent at all.
pub shadow_body_lem :
    (key value : JsString) (form : Form) (user : Fields)
    → IsRecord form
    → look_up key form ≡ some value
    → get key (shadow_body form user) ≡ (
        if is_same value (look_up key (shadow_form user)) || is_empty value
        then undefined
        else number (parse_int value))
unfolding shadow_body shadow_update
shadow_body_lem key value form user r e = body_lem key value form (shadow_form user) r e

-- Of the fields that "Add Shadow Account" fills in, saving them for an account without any shadow
-- attribute sends the number of the day and the four limits, and none of the empty ones.
pub shadow_body-shadow_defaults :
    (now : ℕ) (user : Fields)
    → shadow_form user ≡ map (λ key. (key, [])) shadow_keys
    → shadow_body (shadow_defaults now) user
      ≡ field (text "shadowLastChange") (number (whole (now / day_millis))) (
          field (text "shadowMin") (number (whole 0)) (
            field (text "shadowMax") (number (whole 99999)) (
              field
                (text "shadowWarning")
                (number (whole 7))
                (field (text "shadowFlag") (number (whole 0)) end))))
unfolding shadow_body shadow_update shadow_defaults changed_fields is_same look_up ◌===◌
    shadow_entries shadow_value stringified parse_int trim_start
shadow_body-shadow_defaults now user e =
    let (c, s, d) = decimal-cons (now / day_millis) in
    let today : parse_int (c ∷ s) ≡ whole (now / day_millis) =
      subst (λ t. parse_int t ≡ whole (now / day_millis)) d
        (parse_int-decimal (now / day_millis)) in
    rw (e, d) (rw today refl)
