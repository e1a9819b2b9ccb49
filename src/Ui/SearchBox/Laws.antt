-- ===== src/Ui/SearchBox/Laws.antt =====
-- What of a search (web/src/lib/use-url-search-input.ts) reaches the URL.
use ldapwarden.Prelude.{JsString, ◌===◌, ===_refl, ◌≡◌, refl, false, none, some, List, [], ◌∷◌}
use ldapwarden.Ui.SearchBox.{
  SearchBox, opened, types, delay_passes, navigates, render, state_after, committed, step,
}

-- The keystrokes of a search, none of which commits anything.
abbrev pub typing : List JsString → SearchBox → SearchBox
typing [] s = s
typing (value ∷ values) s = typing values (step (types value) s).0

abbrev pub IsQuiet : List JsString → SearchBox → Type 0
IsQuiet [] s = Unit {0}
IsQuiet (value ∷ values) s =
    ((step (types value) s).1 ≡ none) × IsQuiet values (step (types value) s).0

types_lem :
    (value : JsString) (s : SearchBox) → step (types value) s ≡ (record s { input = value }, none)
unfolding step
types_lem value s = rw (===_refl s.debounced, ===_refl s.url) refl

-- The last text typed, or the one that was there.
abbrev pub last_typed : List JsString → JsString → JsString
last_typed [] input = input
last_typed (value ∷ values) input = last_typed values value

typing_lem :
    (values : List JsString) (s : SearchBox)
    → (typing values s ≡ record s { input = last_typed values s.input }) × IsQuiet values s
typing_lem [] s = (refl, tt)
typing_lem (value ∷ values) s =
    let (e, q) = typing_lem values (record s { input = value }) in
    rw (types_lem value s) (e, (refl, q))

-- Whatever is typed into a box that shows the URL's term, the last text is committed once the delay
-- has passed, and nothing before; when the URL has taken it up the box is as if opened with it.
pub typing_commits :
    (url : JsString) (values : List JsString)
    → (last_typed values url === url) ≡ false
    → let typed = typing values (opened url) in
      let value = last_typed values url in
      IsQuiet values (opened url)
      × ((step delay_passes typed).1 ≡ some value)
      × (step (navigates value) (step delay_passes typed).0 ≡ (opened value, none))
unfolding step state_after render committed
typing_commits url values h =
    let (e, quiet) = typing_lem values (opened url) in
    rw e (quiet, rw (===_refl url, h) refl, rw (h, ===_refl (last_typed values url), h) refl)

-- A term that comes to the box from the URL, with nothing being typed, is undone: the box commits
-- the term that the URL had before, and when the URL has taken that up the box is as it was.
pub navigation_undone :
    (url other : JsString)
    → (url === other) ≡ false
    → (other === url) ≡ false
    → ((step (navigates other) (opened url)).1 ≡ some url)
      × (step (navigates url) (step (navigates other) (opened url)).0 ≡ (opened url, none))
unfolding step state_after render committed
navigation_undone url other h k = (rw (k, ===_refl url, k, h) refl, rw (k, h, ===_refl url, h) refl)
