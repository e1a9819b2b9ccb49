-- ===== src/GroupPage.antt =====
-- The page of a group: the tabs and the Samba form of web/src/routes/groups/$dn.tsx, and
-- web/src/components/group-rename.tsx.
use ldapwarden.Prelude.{
  if◌then◌else◌, Bool-cases, or_default, JsString, text, ◌===◌, look_up, includes, any, ◌≡◌, refl,
  inl, inr, Bool, true, not, ◌&&◌, ◌||◌, none, List, [], ◌∷◌, ◌++◌, arith,
}
use ldapwarden.Values.{Value, Fields, get}
use ldapwarden.Ui.Tabs.{shown_panels}
use ldapwarden.Ui.DetailTabs.{
  validate_tab, active_tab, rendered, is_rendered, AreNamedApart, first_of, shown_or_default,
}
use ldapwarden.UserPage.Forms.{Form, text_of, form_of, is_same, changed_fields}
use ldapwarden.UserPage.Security.{uid_pattern}

abbrev pub group_tabs : List JsString
group_tabs = text "information" ∷ text "members" ∷ text "samba" ∷ text "sudo" ∷ text "security" ∷ []

pub record GroupTabs : Type 0 where
  pub show_posix_group : Bool
  pub show_samba : Bool
  pub show_sudo : Bool

-- From the enabled object classes and the enabled modules, in lower case.
unfoldable pub group_tabs_for : List JsString → List JsString → GroupTabs
group_tabs_for objects modules = record {
  show_posix_group = includes (text "posixgroup") objects;
  show_samba = includes (text "sambagroupmapping") objects;
  show_sudo = includes (text "sudo") modules;
}

unfoldable pub group_default_tab : GroupTabs → JsString
group_default_tab t =
    if t.show_posix_group
    then text "information"
    else if t.show_samba
    then text "samba"
    else if t.show_sudo
    then text "sudo"
    else text "security"

unfoldable pub group_panels : GroupTabs → List (Bool × JsString)
group_panels t =
    (t.show_posix_group, text "information")
    ∷ (t.show_posix_group, text "members")
    ∷ (t.show_samba, text "samba")
    ∷ (t.show_sudo, text "sudo")
    ∷ (true, text "security")
    ∷ []

unfoldable pub group_active_tab : GroupTabs → Value → JsString
unfolding active_tab group_default_tab
group_active_tab t raw = active_tab group_tabs (group_default_tab t) raw

abbrev pub group_samba_keys : List JsString
group_samba_keys = text "sambaSID" ∷ text "sambaGroupType" ∷ text "displayName" ∷ []

unfoldable pub group_samba_form : Fields → Form
unfolding form_of
group_samba_form group = form_of group_samba_keys group

-- The form that handleAddSambaGroup fills in, for a printed gidNumber and the name of the group.
unfoldable pub group_samba_defaults : JsString → JsString → Form
group_samba_defaults gid_number cn =
    (text "sambaSID", text "S-1-5-21-0-0-0-" ++ gid_number)
    ∷ (text "sambaGroupType", text "2")
    ∷ (text "displayName", cn)
    ∷ []

-- One of the three tests of the update: `formData.key !== (group?.key || '')`.
unfoldable pub samba_entry : JsString → Form → Fields → Form
samba_entry key form group =
    let value = or_default (look_up key form) [] in
    if value === text_of (get key group) then [] else (key, value) ∷ []

unfoldable pub group_samba_update : Form → Fields → Form
unfolding samba_entry text_of
group_samba_update form group =
    samba_entry (text "sambaSID") form group
    ++ (samba_entry (text "sambaGroupType") form group
        ++ samba_entry (text "displayName") form group)

-- Whether the button of the rename dialog is enabled.
unfoldable pub can_rename_group : JsString → JsString → JsString → Bool → Bool
unfolding uid_pattern
can_rename_group cn new_cn confirm pending =
    not (not (uid_pattern new_cn && not (new_cn === cn)) || not (confirm === cn) || pending)

group_panels-AreNamedApart : (t : GroupTabs) → AreNamedApart (group_panels t)
unfolding group_panels ◌===◌
group_panels-AreNamedApart t = search tt

group_default_tab_lem : (t : GroupTabs) → group_default_tab t ≡ first_of (group_panels t)
unfolding group_default_tab first_of group_panels
group_default_tab_lem t = elim (Bool-cases t.show_posix_group) [
  | inl e ↦ rw e refl
  | inr e ↦ rw e refl
]

any_group_panel : (t : GroupTabs) → any (λ p. p.0) (group_panels t) ≡ true
unfolding group_panels
any_group_panel t = ground arith

-- Whatever the URL says, the page of a group shows the panel of the active tab and no other if that
-- tab is enabled, and no panel if it is not. Without a tab of the page in the URL the active tab is
-- the first of those that are enabled, and shown.
pub group_tab_shown :
    (t : GroupTabs) (raw : Value)
    → let active = group_active_tab t raw in
      let panels = rendered (group_panels t) in
      (shown_panels active panels
        ≡ (if is_rendered active (group_panels t) then active ∷ [] else []))
      × (validate_tab group_tabs raw ≡ none
          → ((rest : List JsString) × (panels ≡ active ∷ rest))
            × (shown_panels active panels ≡ active ∷ []))
unfolding group_active_tab
group_tab_shown t raw =
    shown_or_default group_tabs (group_default_tab t) (group_panels t) raw
      (group_panels-AreNamedApart t) (any_group_panel t) (group_default_tab_lem t)

-- The tests that the Samba tab of a group writes out send the fields that changedFields would send:
-- those of the form that differ from the group's.
pub group_samba_update-changed_fields :
    (sid type display_name : JsString) (group : Fields)
    → let form : Form =
        (text "sambaSID", sid)
        ∷ (text "sambaGroupType", type)
        ∷ (text "displayName", display_name)
        ∷ [] in
      group_samba_update form group ≡ changed_fields form (group_samba_form group)
unfolding group_samba_update group_samba_form changed_fields is_same look_up ◌===◌ form_of
group_samba_update-changed_fields sid type display_name group = ground arith
