-- ===== src/SudoPage/Laws.antt =====
-- Lemmas on the lists of a sudo rule's form (web/src/routes/sudo-roles/new.tsx and $dn.tsx).
use ldapwarden.Prelude.{
  ==_iff, Bool-cases, trim, JsString, ◌===◌, ===_refl, is_empty, includes, filter, ℕ, zero, suc,
  ◌≡◌, refl, sym, ap, ◌∙◌, subst, inl, inr, true, false, not, List, [], ◌∷◌, ◌++◌, arith,
}
use ldapwarden.Prelude.Unlike.{AreUnlike, AreUnlike-append, AreUnlike-filter}
use ldapwarden.SudoPage.{
  ListField, SudoForm, with_values, add_value, add_to_array, remove_from_array, FormAction,
  form_action, form_actions, adds_input, picks, drops, types, types_order, name, description,
  not_before, not_after, set_text_field, set_order, same_field, field_index, sudo_user, sudo_host,
  sudo_command, sudo_run_as, sudo_run_as_user, sudo_run_as_group, sudo_option,
}

abbrev pub IsTidy : SudoForm → Type 0
IsTidy form = (field : ListField) → AreUnlike (form.values field)

-- Setting one field of a tidy form to values without repetition leaves it tidy.
with_values-IsTidy :
    (field : ListField) (values : List JsString) (form : SudoForm)
    → AreUnlike values
    → IsTidy form
    → IsTidy (with_values field values form)
unfolding with_values
with_values-IsTidy field values form a t other = elim (Bool-cases (same_field field other)) [
  | inl e ↦ rw e a
  | inr e ↦ rw e (t other)
]

add_value-IsTidy :
    (field : ListField) (value : JsString) (form : SudoForm)
    → IsTidy form
    → IsTidy (add_value field value form)
unfolding add_value
add_value-IsTidy field value form t = elim (Bool-cases (includes value (form.values field))) [
  | inl e ↦ rw e t
  | inr e ↦ rw e (
      with_values-IsTidy field (form.values field ++ value ∷ []) form
        (AreUnlike-append value (form.values field) (t field) e) t)
]

add_to_array-IsTidy :
    (field : ListField) (input : JsString) (form : SudoForm)
    → IsTidy form
    → IsTidy (add_to_array field input form).0
unfolding add_to_array
add_to_array-IsTidy field input form t other = elim (Bool-cases (is_empty (trim input))) [
  | inl e ↦ rw e (t other)
  | inr e ↦ rw e (add_value-IsTidy field (trim input) form t other)
]

form_action-IsTidy : (form : SudoForm) (a : FormAction) → IsTidy form → IsTidy (form_action form a)
unfolding form_action remove_from_array set_text_field set_order
form_action-IsTidy form (picks field value) t = add_value-IsTidy field value form t
form_action-IsTidy form (drops field value) t =
    with_values-IsTidy field (filter (λ v. not (v === value)) (form.values field)) form
      (AreUnlike-filter (λ v. not (v === value)) (form.values field) (t field)) t
form_action-IsTidy form (adds_input field input) t = add_to_array-IsTidy field input form t
form_action-IsTidy form (types name value) t = t
form_action-IsTidy form (types description value) t = t
form_action-IsTidy form (types not_before value) t = t
form_action-IsTidy form (types not_after value) t = t
form_action-IsTidy form (types_order value) t = t

-- However values are typed, picked and removed, no list of the form holds a value twice, if that was
-- so at the start.
pub form_actions-IsTidy :
    (form : SudoForm) (actions : List FormAction) → IsTidy form → IsTidy (form_actions form actions)
unfolding form_actions
form_actions-IsTidy form [] t = t
form_actions-IsTidy form (a ∷ actions) t =
    form_actions-IsTidy (form_action form a) actions (form_action-IsTidy form a t)

filter_absent :
    (value : JsString) (vs : List JsString)
    → includes value vs ≡ false
    → filter (λ v. not (v === value)) vs ≡ vs
filter_absent value [] h = refl
filter_absent value (v ∷ vs) h =
    let other : (v === value) ≡ false = ground arith in
    rw other (ap (◌∷◌ v) (filter_absent value vs (ground arith)))

filter_added :
    (value : JsString) (vs : List JsString)
    → includes value vs ≡ false
    → filter (λ v. not (v === value)) (vs ++ value ∷ []) ≡ vs
filter_added value [] h = rw (===_refl value) refl
filter_added value (v ∷ vs) h =
    let other : (v === value) ≡ false = ground arith in
    rw other (ap (◌∷◌ v) (filter_added value vs (ground arith)))

filter_gone :
    (value : JsString) (vs : List JsString)
    → includes value (filter (λ v. not (v === value)) vs) ≡ false
filter_gone value [] = refl
filter_gone value (v ∷ vs) = elim (Bool-cases (v === value)) [
  | inl e ↦ rw e (filter_gone value vs)
  | inr e ↦ rw (e, e) (filter_gone value vs)
]

field_at : ℕ → ListField
field_at zero = sudo_user
field_at (suc zero) = sudo_host
field_at (suc (suc zero)) = sudo_command
field_at (suc (suc (suc zero))) = sudo_run_as
field_at (suc (suc (suc (suc zero)))) = sudo_run_as_user
field_at (suc (suc (suc (suc (suc zero))))) = sudo_run_as_group
field_at _ = sudo_option

field_at-field_index : (f : ListField) → field_at (field_index f) ≡ f
unfolding field_at
field_at-field_index sudo_user = refl
field_at-field_index sudo_host = refl
field_at-field_index sudo_command = refl
field_at-field_index sudo_run_as = refl
field_at-field_index sudo_run_as_user = refl
field_at-field_index sudo_run_as_group = refl
field_at-field_index sudo_option = refl

same_field_eq : (f g : ListField) → same_field f g ≡ true → f ≡ g
same_field_eq f g h =
    let e : field_index f ≡ field_index g = (==_iff (field_index f) (field_index g)).0 h in
    sym (field_at-field_index f) ∙ ap field_at e ∙ field_at-field_index g

values-with_values :
    (field : ListField) (vs : List JsString) (form : SudoForm)
    → (with_values field vs form).values field ≡ vs
unfolding with_values
values-with_values field vs form =
    let e : same_field field field ≡ true =
      (==_iff (field_index field) (field_index field)).1 refl in
    rw e refl

values-other :
    (field other : ListField) (vs : List JsString) (form : SudoForm)
    → same_field field other ≡ false
    → (with_values field vs form).values other ≡ form.values other
unfolding with_values
values-other field other vs form e = rw e refl

-- Removing a value that has just been added leaves each list of the form as it was, and a value that
-- has been removed is in its list no more.
pub remove_from_array-add_value :
    (field other : ListField) (value : JsString) (form : SudoForm)
    → includes value (form.values field) ≡ false
    → ((remove_from_array field value (add_value field value form)).values other
        ≡ form.values other)
      × (includes value ((remove_from_array field value form).values field) ≡ false)
unfolding remove_from_array add_value
remove_from_array-add_value field other value form h = (
  elim (Bool-cases (same_field field other)) [
    | inl e ↦
        let same = same_field_eq field other e in
        subst
          (λ o.
            (remove_from_array field value (add_value field value form)).values o ≡ form.values o)
          same
          (rw h (
            values-with_values field (filter (λ v. not (v === value)) (added.values field)) added
            ∙ rw (values-with_values field (form.values field ++ value ∷ []) form)
                (filter_added value (form.values field) h)))
    | inr e ↦ rw h (
        values-other field other (filter (λ v. not (v === value)) (added.values field)) added e
        ∙ values-other field other (form.values field ++ value ∷ []) form e)
  ],
  rw (values-with_values field (filter (λ v. not (v === value)) (form.values field)) form)
      (filter_gone value (form.values field)),
)
  where
    added : SudoForm
    added = with_values field (form.values field ++ value ∷ []) form
