-- ===== src/UserPage/Tests.antt =====
-- The theorems about the page of an account at concrete inputs, and runs of the definitions.
use ldapwarden.Prelude.{
  if◌then◌else◌, trim_start, trim_end, trim, decimal, JsString, text, ◌===◌, look_up, ◌≡◌, refl,
  ap₂, ◌≢◌, ◌↔◌, Bool, true, false, none, some, List, [], ◌∷◌, arith,
}
use ldapwarden.Values.{string, number, undefined, whole, Fields, end, field, get, parse_int}
use ldapwarden.FormSync.{FormState, renders, render, run as sync_run}
use ldapwarden.Ui.Tabs.{shown_panels}
use ldapwarden.Ui.DetailTabs.{validate_tab, rendered, is_rendered}
use ldapwarden.UserPage.Forms.{Form, is_same, changed_fields, save_body}
use ldapwarden.UserPage.Forms.Laws.{overwrite, IsRecord, SameKeys, overwrite-changed_fields}
use ldapwarden.UserPage.Forms.SaveLaws.{save_merges, save_reverts}
use ldapwarden.UserPage.Shadow.{shadow_form, shown_number, shadow_body}
use ldapwarden.UserPage.Shadow.Laws.{shadow_body_lem}
use ldapwarden.UserPage.ClassTab.{Event, entry_loaded, edits, saved, step, run, can_save}
use ldapwarden.UserPage.ClassTab.Laws.{add_pressed, adding_saves}
use ldapwarden.UserPage.TabChoice.{
  UserTabs, user_tabs, user_panels, user_active_tab, user_tab_shown,
}
use ldapwarden.UserPage.Security.{Policy}
use ldapwarden.UserPage.PosixIds.{PosixIds, PosixInput, can_change, posix_body, is_new, is_bad}
use ldapwarden.UserPage.PosixIds.Laws.{IsNumbersOf, posix_body-IsNumbersOf}

abbrev account : Fields
account =
    field (text "loginShell") (string (text "/bin/sh"))
      (field (text "shadowMin") (number (whole 5)) end)

abbrev server_copy : Form
server_copy = (text "loginShell", text "/bin/sh") ∷ (text "gecos", []) ∷ []

abbrev edited : Form
edited = (text "loginShell", text "/bin/bash") ∷ (text "gecos", []) ∷ []

edited-IsRecord : IsRecord edited
unfolding ◌===◌
edited-IsRecord = ((refl, tt), (tt, tt))

edited-SameKeys : SameKeys edited server_copy
edited-SameKeys = (refl, (refl, tt))

overwrite-changed_fields_example :
    (overwrite (changed_fields edited server_copy) server_copy ≡ edited)
    × ((changed_fields edited server_copy ≡ []) ↔ (edited ≡ server_copy))
overwrite-changed_fields_example =
    overwrite-changed_fields edited server_copy edited-IsRecord edited-SameKeys

one_change : changed_fields edited server_copy ≡ (text "loginShell", text "/bin/bash") ∷ []
unfolding changed_fields is_same look_up ◌===◌
one_change = refl

-- A JSON text that tells forms apart: each text with a mark before every character and at its end.
abbrev quoted : JsString → JsString → JsString
quoted [] rest = 0 ∷ rest
quoted (c ∷ s) rest = 1 ∷ c ∷ quoted s rest

abbrev json : Form → JsString
json [] = []
json ((k, v) ∷ form) = quoted k (quoted v (json form))

quoted_eq : (s t p q : JsString) → quoted s p ≡ quoted t q → (s ≡ t) × (p ≡ q)
quoted_eq [] [] p q e = (refl, cc)
quoted_eq [] (d ∷ t) p q e = absurd (ground (arith))
quoted_eq (c ∷ s) [] p q e = absurd (ground (arith))
quoted_eq (c ∷ s) (d ∷ t) p q e =
    let (same, rest) = quoted_eq s t p q (cc) in let head : c ≡ d = cc in (ap₂ ◌∷◌ head same, rest)

json-injective : (a b : Form) → json a ≡ json b → a ≡ b
json-injective [] [] e = refl
json-injective [] (([], v) ∷ b) e = cc
json-injective [] ((c ∷ k, v) ∷ b) e = cc
json-injective (([], v) ∷ a) [] e = cc
json-injective ((c ∷ k, v) ∷ a) [] e = cc
json-injective ((k, v) ∷ a) ((j, w) ∷ b) e =
    let (keys, e1) = quoted_eq k j (quoted v (json a)) (quoted w (json b)) e in
    let (values, e2) = quoted_eq v w (json a) (json b) e1 in
    ap₂ ◌∷◌ (λ i. (keys i, values i)) (json-injective a b e2)

abbrev editing : FormState json
editing = record { form = edited; last_synced = some (json server_copy); server = some server_copy }

-- The entry once another administrator has filled in a field.
abbrev filled_in : Form
filled_in = (text "loginShell", text "/bin/sh") ∷ (text "gecos", text "Ada") ∷ []

save_merges_example :
    (look_up (text "gecos") server_copy ≡ some []
      → look_up (text "gecos") (overwrite (changed_fields edited server_copy) filled_in)
        ≡ some (text "Ada"))
    × (look_up (text "gecos") server_copy ≢ some []
        → look_up (text "gecos") (overwrite (changed_fields edited server_copy) filled_in)
          ≡ some [])
unfolding look_up ◌===◌
save_merges_example =
    save_merges edited server_copy filled_in (text "gecos") edited-IsRecord refl refl

save_reverts_example :
    let refetched = render json (some filled_in) (sync_run json editing (renders none ∷ [])) in
    (look_up (text "gecos") (save_body json refetched) ≡ some [])
    × (look_up (text "gecos") (overwrite (save_body json refetched) filled_in) ≡ some [])
unfolding look_up ◌===◌
save_reverts_example =
    save_reverts json editing server_copy (renders none ∷ []) filled_in (text "gecos") refl refl
      (tt, tt) refl edited-IsRecord refl refl refl (λ e. cc)

abbrev emptied : Form
emptied = (text "shadowMin", []) ∷ (text "shadowMax", text "90") ∷ []

shadow_body_lem_example : get (text "shadowMin") (shadow_body emptied account) ≡ undefined
unfolding look_up ◌===◌ is_same shadow_form get decimal
shadow_body_lem_example =
    shadow_body_lem (text "shadowMin") [] emptied account ((refl, tt), (tt, tt)) refl

maximum_sent : get (text "shadowMax") (shadow_body emptied account) ≡ number (whole 90)
unfolding look_up ◌===◌ is_same shadow_form get shown_number parse_int trim_start
maximum_sent =
    shadow_body_lem (text "shadowMax") (text "90") emptied account ((refl, tt), (tt, tt)) refl

abbrev filling : List (Event json)
filling = entry_loaded true server_copy ∷ edits edited ∷ []

adding_saves_example :
    let filled = run json (add_pressed json [] server_copy) filling in
    (filled.sync.form ≡ edited)
    × (can_save json filled ≡ true)
    × ((step json (step json filled saved) (entry_loaded true edited)).sync.form ≡ edited)
    × (can_save json (step json (step json filled saved) (entry_loaded true edited)) ≡ false)
adding_saves_example = adding_saves json [] server_copy filling (tt, (tt, tt))

abbrev without_samba : UserTabs
without_samba = record {
  show_identity = true;
  show_posix = true;
  show_ssh_keys = false;
  show_samba = false;
  show_shadow = false;
  show_sudo = true;
}

user_tab_shown_example :
    let active = user_active_tab without_samba (string (text "samba")) in
    let panels = rendered (user_panels without_samba) in
    (shown_panels active panels
      ≡ (if is_rendered active (user_panels without_samba) then active ∷ [] else []))
    × (validate_tab user_tabs (string (text "samba")) ≡ none
        → ((rest : List JsString) × (panels ≡ active ∷ rest))
          × (shown_panels active panels ≡ active ∷ []))
user_tab_shown_example = user_tab_shown without_samba (string (text "samba"))

disabled_tab :
    shown_panels
      (user_active_tab without_samba (string (text "samba")))
      (rendered (user_panels without_samba))
    ≡ []
unfolding user_active_tab validate_tab user_panels rendered shown_panels ◌===◌
disabled_tab = refl

abbrev listed_policies : List Policy
listed_policies =
    record { dn = text "cn=default,dc=x"; cn = text "default"; description = none } ∷ []

abbrev numbers : PosixIds
numbers = record { uid = text "jdoe"; uid_number = some 1000; gid_number = some 1000 }

abbrev typed : PosixInput
typed = record { new_uid = text "2000"; new_gid = []; confirm = text "jdoe"; pending = false }

posix_body-IsNumbersOf_example :
    (◌≡◌ {A = Bool} false false)
    × (text "jdoe" ≡ text "jdoe")
    × IsNumbersOf numbers (posix_body parse_int numbers typed)
unfolding can_change trim trim_start trim_end is_new is_bad parse_int ◌===◌
posix_body-IsNumbersOf_example = posix_body-IsNumbersOf parse_int numbers typed refl
