-- ===== src/Palette/States/Tests.antt =====
-- The palette opened again after a search.
use ldapwarden.Prelude.{
  trim_start, trim_end, trim, text, ◌===◌, ◌≡◌, refl, true, false, List, [], ◌∷◌,
}
use ldapwarden.Palette.{arrow_down}
use ldapwarden.Palette.States.{
  Event, mounted, term_of, set_open, types, delay_passes, presses_down, step, run,
}
use ldapwarden.Palette.States.Laws.{open_stale}

-- A search for `bob`, with the second row highlighted, and the palette closed.
abbrev searched : List Event
searched = set_open true ∷ types (text " bob") ∷ delay_passes ∷ presses_down 3 ∷ set_open false ∷ []

open_stale_example :
    let before = run mounted searched in
    let opened = step before (set_open true) in
    (opened.query ≡ [])
    × (opened.active_index ≡ 0)
    × (term_of opened ≡ term_of before)
    × (term_of (step opened delay_passes) ≡ [])
    × ((step opened delay_passes).active_index ≡ 0)
unfolding run step trim trim_end trim_start ◌===◌ arrow_down
open_stale_example = open_stale searched refl

shows_bob : term_of (step (run mounted searched) (set_open true)) ≡ text "bob"
unfolding run step trim trim_end trim_start ◌===◌ arrow_down
shows_bob = refl
