-- ===== src/Ui/Tests.antt =====
-- The theorems about the interface components at concrete inputs, and runs of the definitions.
use ldapwarden.Prelude.{
  JsString, text, ◌===◌, ℕ, ◌≡◌, refl, ◌↔◌, Option, none, some, List, [], ◌∷◌, arith,
}
use ldapwarden.Ui.Tabs.{arrow_right, end_key, index_of, press, target, after, shown_panels}
use ldapwarden.Ui.Paging.{start_item, end_item, next_button}
use ldapwarden.Ui.Paging.Laws.{next_button_reaches, clicks}
use ldapwarden.Api.Query.{SortOrder}
use ldapwarden.Ui.SearchBox.{opened, step, navigates}
use ldapwarden.Ui.SearchBox.Laws.{navigation_undone}

abbrev panels : List JsString
panels = text "identity" ∷ text "posix" ∷ text "security" ∷ []

round_the_end : press arrow_right panels (text "security") ≡ some (text "identity")
unfolding press index_of target after ◌===◌
round_the_end = refl

to_the_end : press end_key panels (text "identity") ≡ some (text "security")
unfolding press index_of target ◌===◌
to_the_end = refl

no_panel : shown_panels (text "samba") panels ≡ []
unfolding shown_panels ◌===◌
no_panel = refl

next_button_reaches_example : (clicks 2 3 1 ≡ 3) × ((next_button 3 3 ≡ none) ↔ (◌≡◌ {A = ℕ} 3 3))
next_button_reaches_example = next_button_reaches 2 1 3 (omega arith)

beyond_the_last : (start_item 9 20 30 ≡ 161) × (end_item 9 20 30 ≡ 30)
unfolding start_item end_item
beyond_the_last = (refl, refl)

-- A search that finds the panels, whatever is asked for.
abbrev find_panels : Option JsString → Option JsString → Option SortOrder → List JsString
find_panels term sort order = panels

navigation_undone_example :
    ((step (navigates []) (opened (text "jd"))).1 ≡ some (text "jd"))
    × (step (navigates (text "jd")) (step (navigates []) (opened (text "jd"))).0
        ≡ (opened (text "jd"), none))
unfolding ◌===◌
navigation_undone_example = navigation_undone (text "jd") [] refl refl
