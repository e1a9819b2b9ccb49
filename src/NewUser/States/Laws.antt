-- ===== src/NewUser/States/Laws.antt =====
-- What the form of a new account asks for after any changes of it.
use ldapwarden.Prelude.{
  Bool-cases, JsString, ◌===◌, ===_eq, includes, any, ◌≡◌, subst, inl, inr, true, false, not, List,
  [], ◌∷◌,
}
use ldapwarden.Prelude.Unlike.{AreUnlike, AreUnlike-append, AreUnlike-filter}
use ldapwarden.NewUser.{GroupOption, available_groups}
use ldapwarden.NewUser.States.{
  NewUserPage, NewUserEvent, sets, sets_primary_group, selects, unselects, new_user_event,
  new_user_events,
}

-- A group that can be selected has not been.
available-includes :
    (selected : List JsString) (items : List GroupOption) (cn : JsString)
    → any (λ g. g.cn === cn) (available_groups selected items) ≡ true
    → includes cn selected ≡ false
unfolding available_groups
available-includes selected [] cn h = cc
available-includes selected (g ∷ items) cn h = elim (Bool-cases (includes g.cn selected)) [
  | inl e ↦ available-includes selected items cn (rw e at h)
  | inr e ↦ elim (Bool-cases (g.cn === cn)) [
    | inl f ↦ subst (λ c. includes c selected ≡ false) (===_eq g.cn cn f) e
    | inr f ↦ available-includes selected items cn (rw (e, f) at h)
  ]
]

new_user_event-AreUnlike :
    (s : NewUserPage) (e : NewUserEvent)
    → AreUnlike s.selected
    → AreUnlike (new_user_event s e).selected
unfolding new_user_event
new_user_event-AreUnlike s (sets key value) h = h
new_user_event-AreUnlike s (sets_primary_group cn) h = h
new_user_event-AreUnlike s (selects items cn) h =
    elim (Bool-cases (any (λ g. g.cn === cn) (available_groups s.selected items))) [
      | inl e ↦ rw e (AreUnlike-append cn s.selected h (available-includes s.selected items cn e))
      | inr e ↦ rw e h
    ]
new_user_event-AreUnlike s (unselects cn) h = AreUnlike-filter (λ g. not (g === cn)) s.selected h

-- Whatever is done on the page, no group is asked for twice.
pub new_user_events-AreUnlike :
    (s : NewUserPage) (es : List NewUserEvent)
    → AreUnlike s.selected
    → AreUnlike (new_user_events s es).selected
unfolding new_user_events
new_user_events-AreUnlike s [] h = h
new_user_events-AreUnlike s (e ∷ es) h =
    new_user_events-AreUnlike (new_user_event s e) es (new_user_event-AreUnlike s e h)
