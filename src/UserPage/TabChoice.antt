-- ===== src/UserPage/TabChoice.antt =====
-- Which tabs the page of an account has, and which one it shows.
use ldapwarden.Prelude.{
  if◌then◌else◌, JsString, text, ◌===◌, includes, any, ◌≡◌, refl, Bool, true, none, List, [], ◌∷◌,
  arith,
}
use ldapwarden.Values.{Value}
use ldapwarden.Ui.Tabs.{shown_panels}
use ldapwarden.Ui.DetailTabs.{
  validate_tab, active_tab, rendered, is_rendered, AreNamedApart, first_of, shown_or_default,
}

abbrev pub user_tabs : List JsString
user_tabs =
    text "identity"
    ∷ text "posix"
    ∷ text "shadow"
    ∷ text "samba"
    ∷ text "ssh-keys"
    ∷ text "sudo"
    ∷ text "security"
    ∷ []

pub record UserTabs : Type 0 where
  pub show_identity : Bool
  pub show_posix : Bool
  pub show_ssh_keys : Bool
  pub show_samba : Bool
  pub show_shadow : Bool
  pub show_sudo : Bool

-- From the enabled object classes and the enabled modules, in lower case.
unfoldable pub tabs_for : List JsString → List JsString → UserTabs
tabs_for objects modules = record {
  show_identity = includes (text "inetorgperson") objects;
  show_posix = includes (text "posixaccount") objects;
  show_ssh_keys = includes (text "ldappublickey") objects;
  show_samba = includes (text "sambasamaccount") objects;
  show_shadow = includes (text "shadowaccount") objects;
  show_sudo = includes (text "sudo") modules;
}

unfoldable pub default_tab : UserTabs → JsString
default_tab t =
    if t.show_identity
    then text "identity"
    else if t.show_posix
    then text "posix"
    else if t.show_shadow
    then text "shadow"
    else if t.show_samba
    then text "samba"
    else if t.show_ssh_keys
    then text "ssh-keys"
    else if t.show_sudo
    then text "sudo"
    else text "security"

unfoldable pub user_panels : UserTabs → List (Bool × JsString)
user_panels t =
    (t.show_identity, text "identity")
    ∷ (t.show_posix, text "posix")
    ∷ (t.show_shadow, text "shadow")
    ∷ (t.show_samba, text "samba")
    ∷ (t.show_ssh_keys, text "ssh-keys")
    ∷ (t.show_sudo, text "sudo")
    ∷ (true, text "security")
    ∷ []

unfoldable pub user_active_tab : UserTabs → Value → JsString
unfolding active_tab default_tab
user_active_tab t raw = active_tab user_tabs (default_tab t) raw

default_tab_lem : (t : UserTabs) → default_tab t ≡ first_of (user_panels t)
unfolding default_tab first_of user_panels
default_tab_lem t = refl

user_panels-AreNamedApart : (t : UserTabs) → AreNamedApart (user_panels t)
unfolding user_panels ◌===◌
user_panels-AreNamedApart t = search tt

any_user_panel : (t : UserTabs) → any (λ p. p.0) (user_panels t) ≡ true
unfolding user_panels
any_user_panel t = ground arith

-- Whatever the URL says, the page of an account shows the panel of the active tab and no other if
-- that tab is enabled, and no panel if it is not. Without a tab of the page in the URL the active
-- tab is the first of those that are enabled, and shown.
pub user_tab_shown :
    (t : UserTabs) (raw : Value)
    → let active = user_active_tab t raw in
      let panels = rendered (user_panels t) in
      (shown_panels active panels
        ≡ (if is_rendered active (user_panels t) then active ∷ [] else []))
      × (validate_tab user_tabs raw ≡ none
          → ((rest : List JsString) × (panels ≡ active ∷ rest))
            × (shown_panels active panels ≡ active ∷ []))
unfolding user_active_tab
user_tab_shown t raw =
    shown_or_default user_tabs (default_tab t) (user_panels t) raw (user_panels-AreNamedApart t)
      (any_user_panel t) (default_tab_lem t)
