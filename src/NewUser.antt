-- ===== src/NewUser.antt =====
-- Creating an account: web/src/routes/users/new.tsx. `parse` is parseInt.
pub mod States
use ldapwarden.Prelude.{
  if◌then◌else◌, Bool-cases, or_default, JsString, text, ◌===◌, look_up, is_empty, includes, length,
  filter, any, find, ℕ, ◌-◌, ◌≡◌, refl, ◌⊎◌, inl, inr, true, false, not, none, some, List, [], ◌∷◌,
  ◌++◌, map,
}
use ldapwarden.Values.{
  JsNumber, whole, Value, undefined, boolean, number, string, array, Items, nil, cons, Fields, end,
  field, get,
}
use ldapwarden.UserPage.Forms.{Form}

-- What the page reads of a group.
pub record GroupOption : Type 0 where
  pub cn : JsString
  pub gid_number : ℕ

abbrev pub new_user_keys : List JsString
new_user_keys =
    text "uid"
    ∷ text "givenName"
    ∷ text "sn"
    ∷ text "cn"
    ∷ text "displayName"
    ∷ text "mail"
    ∷ text "telephoneNumber"
    ∷ text "title"
    ∷ text "departmentNumber"
    ∷ text "o"
    ∷ text "employeeType"
    ∷ text "uidNumber"
    ∷ text "homeDirectory"
    ∷ text "loginShell"
    ∷ text "description"
    ∷ text "expirationDate"
    ∷ text "password"
    ∷ []

unfoldable pub new_user_form : Form
new_user_form =
    map (λ key. (key, if key === text "loginShell" then text "/bin/bash" else [])) new_user_keys

-- `formData.key`.
unfoldable pub form_value : JsString → Form → JsString
form_value key form = or_default (look_up key form) []

-- `formData.key || undefined`.
unfoldable pub optional_value : JsString → Form → Value
unfolding form_value
optional_value key form =
    let value = form_value key form in if is_empty value then undefined else string value

-- `formData.key || other`.
unfoldable pub value_or : JsString → JsString → Form → JsString
unfolding form_value
value_or key other form = let value = form_value key form in if is_empty value then other else value

unfoldable pub full_name : Form → JsString
unfolding form_value
full_name form = form_value (text "givenName") form ++ (b' ' ∷ form_value (text "sn") form)

unfoldable pub resolved_gid_number : JsString → List GroupOption → ℕ
resolved_gid_number primary_group groups =
    if is_empty primary_group
    then 0
    else elim (find (λ g. g.cn === primary_group) groups) [ none ↦ 0 | some g ↦ g.gid_number ]

unfoldable pub items_of : List JsString → Items
items_of [] = nil
items_of (s ∷ rest) = cons (string s) (items_of rest)

unfoldable pub groups_value : List JsString → Value
unfolding items_of
groups_value selected = if is_empty selected then undefined else array (items_of selected)

-- `!primaryGroup || undefined`.
unfoldable pub create_primary_group : JsString → Value
create_primary_group primary_group = if is_empty primary_group then boolean true else undefined

unfoldable pub uid_number_value : (JsString → JsNumber) → Form → JsNumber
unfolding form_value
uid_number_value parse form =
    let value = form_value (text "uidNumber") form in
    if is_empty value then whole 0 else parse value

-- The object that the mutation sends, before JSON.stringify drops what is undefined.
unfoldable pub new_user_body :
    (JsString → JsNumber) → Form → JsString → List JsString → List GroupOption → Fields
unfolding optional_value value_or full_name resolved_gid_number groups_value create_primary_group
    uid_number_value
new_user_body parse form primary_group selected groups =
    field (text "uid") (string (form_value (text "uid") form)) (
      field (text "givenName") (string (form_value (text "givenName") form)) (
        field (text "sn") (string (form_value (text "sn") form)) (
          field (text "cn") (string (value_or (text "cn") (full_name form) form)) (
            field (text "displayName")
              (string (value_or (text "displayName") (full_name form) form))
              (field (text "mail") (optional_value (text "mail") form) (
                field (text "telephoneNumber") (optional_value (text "telephoneNumber") form) (
                  field (text "title") (optional_value (text "title") form) (
                    field (text "departmentNumber") (optional_value (text "departmentNumber") form)
                      (field (text "o") (optional_value (text "o") form) (
                        field (text "employeeType") (optional_value (text "employeeType") form) (
                          field (text "uidNumber") (number (uid_number_value parse form)) (
                            field (text "gidNumber")
                              (number (whole (resolved_gid_number primary_group groups)))
                              (field (text "homeDirectory")
                                (string (
                                  value_or (text "homeDirectory")
                                    (text "/home/" ++ form_value (text "uid") form) form))
                                (field (text "loginShell")
                                  (string (form_value (text "loginShell") form))
                                  (field (text "description")
                                    (optional_value (text "description") form)
                                    (field (text "password") (optional_value (text "password") form)
                                      (field (text "groups") (groups_value selected) (
                                        field (text "createPrimaryGroup")
                                          (create_primary_group primary_group)
                                          (field (text "expirationDate")
                                            (optional_value (text "expirationDate") form)
                                            end)))))))))))))))))))

-- The groups that the membership box offers.
unfoldable pub available_groups : List JsString → List GroupOption → List GroupOption
available_groups selected items = filter (λ g. not (includes g.cn selected)) items

unfoldable pub groups_not_listed : ℕ → List GroupOption → ℕ
groups_not_listed total listed = total - length listed

-- Whatever is filled in, an account is created either with a new group of its own, whose number the
-- server allocates, or, where a group of the list is chosen, with the number of a group of that
-- name.
pub new_user_body-primary :
    (parse : JsString → JsNumber) (form : Form) (primary_group : JsString)
    (selected : List JsString) (groups : List GroupOption)
    → let body = new_user_body parse form primary_group selected groups in
      ((primary_group ≡ [])
        × (get (text "createPrimaryGroup") body ≡ boolean true)
        × (get (text "gidNumber") body ≡ number (whole 0)))
      ⊎ ((get (text "createPrimaryGroup") body ≡ undefined)
          × ((any (λ g. g.cn === primary_group) groups ≡ false)
              ⊎ ((g : GroupOption) × ((g.cn === primary_group) ≡ true)
                  × (get (text "gidNumber") body ≡ number (whole g.gid_number)))))
unfolding new_user_body get ◌===◌
new_user_body-primary parse form [] selected groups = inl (refl, refl, refl)
new_user_body-primary parse form (c ∷ primary) selected groups = inr (refl, found groups)
  where
    found :
        (gs : List GroupOption)
        → (any (λ g. g.cn === (c ∷ primary)) gs ≡ false)
          ⊎ ((g : GroupOption) × ((g.cn === (c ∷ primary)) ≡ true)
              × (number (whole (resolved_gid_number (c ∷ primary) gs))
                  ≡ number (whole g.gid_number)))
    found [] = inl refl
    found (g ∷ gs) = elim (Bool-cases (g.cn === (c ∷ primary))) [
      | inl e ↦ inr (g, e, rw e refl)
      | inr e ↦ rw e (found gs)
    ]
