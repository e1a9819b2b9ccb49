-- ===== src/UserPage/Memberships.antt =====
-- Adding an account to groups: the dialog of IdentityTab in web/src/routes/users/$dn.tsx.
use ldapwarden.Prelude.{
  ltb, if◌then◌else◌, Option-cases, JsString, text, ◌===◌, is_empty, includes, length, filter, All,
  ℕ, ◌+◌, ◌≡◌, refl, ap, ◌≢◌, ◌⊎◌, inl, inr, Bool, true, false, not, Option, none, some, List, [],
  ◌∷◌, ◌++◌,
}

-- `addMember` for each group in turn, until one is refused: the groups that were added, and the
-- message of the refusal. `answer` is what the server says for a group, none for a success.
abbrev note_answer :
    JsString → Option JsString → List JsString × Option JsString → List JsString × Option JsString
note_answer dn (some message) rest = ([], some message)
note_answer dn none rest = (dn ∷ rest.0, rest.1)

unfoldable pub add_each :
    (JsString → Option JsString) → List JsString → List JsString × Option JsString
add_each answer [] = ([], none)
add_each answer (dn ∷ dns) = let rest = add_each answer dns in note_answer dn (answer dn) rest

-- The dialog, the groups that are selected in it, how often the memberships have been asked for
-- again, and the message that is shown last.
pub record AddDialog : Type 0 where
  pub is_open : Bool
  pub selected : List JsString
  pub refetches : ℕ
  pub toast : JsString

pub data DialogEvent : Type 0 where
  opens cancels : DialogEvent
  toggles : JsString → DialogEvent
  adds : (JsString → Option JsString) → DialogEvent

abbrev added_text : (ℕ → JsString) → ℕ → JsString
added_text shown count =
    text "User added to "
    ++ (shown count ++ (text " group" ++ (if ltb 1 count then text "s" else [])))

-- What the mutation ends with.
unfoldable pub add_settled : (ℕ → JsString) → Option JsString → AddDialog → AddDialog
add_settled shown none s = record s {
  is_open = false;
  selected = [];
  refetches = s.refetches + 1;
  toast = added_text shown (length s.selected);
}
add_settled shown (some message) s = record s { toast = message }

-- The button is disabled while nothing is selected.
unfoldable pub dialog_event : (ℕ → JsString) → AddDialog → DialogEvent → AddDialog
unfolding add_each add_settled
dialog_event shown s opens = record s { is_open = true }
dialog_event shown s cancels = record s { is_open = false; selected = [] }
dialog_event shown s (toggles dn) = record s {
  selected =
      if includes dn s.selected
      then filter (λ g. not (g === dn)) s.selected
      else s.selected ++ dn ∷ [];
}
dialog_event shown s (adds answer) =
    if is_empty s.selected then s else add_settled shown (add_each answer s.selected).1 s

-- Where one group is refused, those before it have been added and no other has been asked for.
pub add_each_lem :
    (answer : JsString → Option JsString) (dns : List JsString)
    → let (added, failure) = add_each answer dns in
      All (λ dn. answer dn ≡ none) added
      × ((failure ≡ none) × (added ≡ dns)
          ⊎ ((dn : JsString) × (rest : List JsString) × (dns ≡ added ++ dn ∷ rest)
              × (answer dn ≡ failure)
              × (failure ≢ none)))
unfolding add_each
add_each_lem answer [] = (tt, inl (refl, refl))
add_each_lem answer (dn ∷ dns) = elim (Option-cases (answer dn)) [
  | inl e ↦
      let (added, rest) = add_each_lem answer dns in
      elim rest [
        | inl (f, same) ↦ rw e ((e, added), inl (f, ap (◌∷◌ dn) same))
        | inr (g, more, split, refused, ne) ↦
            rw e ((e, added), inr (g, more, ap (◌∷◌ dn) split, refused, ne))
      ]
  | inr (message, e) ↦ rw e (tt, inr (dn, dns, refl, e, λ f. cc))
]
