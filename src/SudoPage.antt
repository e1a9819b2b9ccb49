-- ===== src/SudoPage.antt =====
-- The form of a sudo rule: web/src/routes/sudo-roles/new.tsx and web/src/routes/sudo-roles/$dn.tsx.
pub mod Laws
use ldapwarden.Prelude.{
  ◌==◌, if◌then◌else◌, or_default, trim, JsString, text, ◌===◌, is_empty, includes, starts_with,
  filter, any, ℕ, Bool, not, ◌||◌, Option, List, [], ◌∷◌, ◌++◌,
}
use ldapwarden.Values.{JsNumber, whole, nan, parse_int}

-- The fields of the form that hold lists.
pub data ListField : Type 0 where
  sudo_user sudo_host sudo_command sudo_run_as sudo_run_as_user sudo_run_as_group sudo_option :
      ListField

abbrev pub field_index : ListField → ℕ
field_index sudo_user = 0
field_index sudo_host = 1
field_index sudo_command = 2
field_index sudo_run_as = 3
field_index sudo_run_as_user = 4
field_index sudo_run_as_group = 5
field_index sudo_option = 6

abbrev pub same_field : ListField → ListField → Bool
same_field f g = field_index f == field_index g

pub data TextField : Type 0 where
  name description not_before not_after : TextField

pub record SudoForm : Type 0 where
  pub cn : JsString
  pub description : JsString
  -- `formData[field]`, of the fields that hold lists.
  pub values : ListField → List JsString
  pub order : JsNumber
  pub not_before : JsString
  pub not_after : JsString

abbrev pub empty_form : SudoForm
empty_form = record {
  cn = [];
  description = [];
  values = λ field. [];
  order = whole 0;
  not_before = [];
  not_after = [];
}

-- `n || 0`; an undefined n counts as NaN.
unfoldable pub or_zero : JsNumber → JsNumber
or_zero nan = whole 0
or_zero n = n

unfoldable pub set_text_field : TextField → JsString → SudoForm → SudoForm
set_text_field name value form = record form { cn = value }
set_text_field description value form = record form { description = value }
set_text_field not_before value form = record form { not_before = value }
set_text_field not_after value form = record form { not_after = value }

-- `parseInt(value) || 0`.
unfoldable pub set_order : JsString → SudoForm → SudoForm
unfolding or_zero parse_int
set_order value form = record form { order = or_zero (parse_int value) }

-- `{ ...formData, [field]: values }`.
unfoldable pub with_values : ListField → List JsString → SudoForm → SudoForm
with_values field values form = record form {
  values = λ other. if same_field field other then values else form.values other;
}

-- `addValue`.
unfoldable pub add_value : ListField → JsString → SudoForm → SudoForm
unfolding with_values
add_value field value form =
    if includes value (form.values field)
    then form
    else with_values field (form.values field ++ value ∷ []) form

-- `addToArray`: the form, and the input it leaves.
unfoldable pub add_to_array : ListField → JsString → SudoForm → SudoForm × JsString
unfolding add_value
add_to_array field input form =
    if is_empty (trim input) then (form, input) else (add_value field (trim input) form, [])

-- `removeFromArray`.
unfoldable pub remove_from_array : ListField → JsString → SudoForm → SudoForm
unfolding with_values
remove_from_array field value form =
    with_values field (filter (λ v. not (v === value)) (form.values field)) form

unfoldable pub names_netgroup : SudoForm → Bool
names_netgroup form =
    any (λ v. starts_with (text "+") v) (form.values sudo_user)
    || any (λ v. starts_with (text "+") v) (form.values sudo_host)

pub data FormAction : Type 0 where
  adds_input : ListField → JsString → FormAction
  picks : ListField → JsString → FormAction
  drops : ListField → JsString → FormAction
  types : TextField → JsString → FormAction
  types_order : JsString → FormAction

unfoldable pub form_action : SudoForm → FormAction → SudoForm
unfolding add_to_array add_value remove_from_array set_text_field set_order
form_action form (adds_input field input) = (add_to_array field input form).0
form_action form (picks field value) = add_value field value form
form_action form (drops field value) = remove_from_array field value form
form_action form (types field value) = set_text_field field value form
form_action form (types_order value) = set_order value form

unfoldable pub form_actions : SudoForm → List FormAction → SudoForm
unfolding form_action
form_actions form [] = form
form_actions form (a ∷ actions) = form_actions (form_action form a) actions

-- What the server sends of a rule, and the form made of it: `role.x || ''`, `role.x || []` and
-- `role.sudoOrder || 0`.
pub record SudoRole : Type 0 where
  pub description : Option JsString
  pub lists : ListField → Option (List JsString)
  pub order : Option JsNumber
  pub not_before : Option JsString
  pub not_after : Option JsString

unfoldable pub server_form : JsString → SudoRole → SudoForm
server_form cn role = record {
  cn = cn;
  description = or_default role.description [];
  values = λ field. or_default (role.lists field) [];
  order = or_zero (or_default role.order nan);
  not_before = or_default role.not_before [];
  not_after = or_default role.not_after [];
}
