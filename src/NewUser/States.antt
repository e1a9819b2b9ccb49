-- ===== src/NewUser/States.antt =====
-- Filling in the form of a new account: the setters of web/src/routes/users/new.tsx.
pub mod Laws
use ldapwarden.Prelude.{if◌then◌else◌, JsString, ◌===◌, filter, any, Bool, not, List, [], ◌∷◌, ◌++◌}
use ldapwarden.UserPage.Forms.{Form, set_field}
use ldapwarden.FormSync.{is_creation_dirty}
use ldapwarden.NewUser.{GroupOption, new_user_form, available_groups}

pub record NewUserPage : Type 0 where
  pub form : Form
  pub primary_group : JsString
  pub selected : List JsString

abbrev pub empty_page : NewUserPage
empty_page = record { form = new_user_form; primary_group = []; selected = [] }

-- A group is selected by the button with its name, among those that a search has found: a name
-- without a button does nothing.
pub data NewUserEvent : Type 0 where
  sets : JsString → JsString → NewUserEvent
  sets_primary_group : JsString → NewUserEvent
  selects : List GroupOption → JsString → NewUserEvent
  unselects : JsString → NewUserEvent

unfoldable pub new_user_event : NewUserPage → NewUserEvent → NewUserPage
unfolding set_field available_groups
new_user_event s (sets key value) = record s { form = set_field key value s.form }
new_user_event s (sets_primary_group cn) = record s { primary_group = cn }
new_user_event s (selects items cn) =
    if any (λ g. g.cn === cn) (available_groups s.selected items)
    then record s { selected = s.selected ++ cn ∷ [] }
    else s
new_user_event s (unselects cn) = record s { selected = filter (λ g. not (g === cn)) s.selected }

unfoldable pub new_user_events : NewUserPage → List NewUserEvent → NewUserPage
unfolding new_user_event
new_user_events s [] = s
new_user_events s (e ∷ es) = new_user_events (new_user_event s e) es

-- Whether leaving the page loses anything, for `JSON.stringify` of what has been filled in.
unfoldable pub is_unsaved : (NewUserPage → JsString) → NewUserPage → Bool → Bool
unfolding is_creation_dirty
is_unsaved json s settled = is_creation_dirty json empty_page s settled
