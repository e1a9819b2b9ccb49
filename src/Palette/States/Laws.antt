-- ===== src/Palette/States/Laws.antt =====
-- What the command palette shows when it is opened, web/src/components/command-palette.tsx.
use ldapwarden.Prelude.{
  Bool-cases, trim_start, trim_end, trim, ◌===◌, ===_eq, ===_iff, ◌≡◌, refl, inl, inr, true, false,
  List, [], ◌∷◌,
}
use ldapwarden.Palette.States.{
  PaletteState, mounted, term_of, note_term, Event, set_open, delay_passes, handle, step, run,
}

-- The term of the last render is the one that has been noted.
abbrev IsNoted : PaletteState → Type 0
IsNoted s = term_of s ≡ s.last_term

note_term-IsNoted : (s : PaletteState) → IsNoted (note_term s)
unfolding note_term
note_term-IsNoted s = elim (Bool-cases (term_of s === s.last_term)) [
  | inl e ↦ rw e (===_eq _ _ e)
  | inr e ↦ rw e refl
]

step-IsNoted : (s : PaletteState) (e : Event) → IsNoted (step s e)
unfolding step
step-IsNoted s e = note_term-IsNoted (handle e s)

run-IsNoted : (s : PaletteState) (es : List Event) → IsNoted s → IsNoted (run s es)
unfolding run
run-IsNoted s [] h = h
run-IsNoted s (e ∷ es) h = run-IsNoted (step s e) es (step-IsNoted s e)

note_term-same : (s : PaletteState) → IsNoted s → note_term s ≡ s
unfolding note_term
note_term-same s h = rw ((===_iff (term_of s) s.last_term).1 h) refl

settled :
    (s : PaletteState)
    → s.debounced ≡ []
    → s.active_index ≡ 0
    → (term_of (note_term s) ≡ []) × ((note_term s).active_index ≡ 0)
unfolding note_term trim trim_end trim_start
settled s d a = elim (Bool-cases (term_of s === s.last_term)) [
  | inl e ↦ rw (e, d) (refl, a)
  | inr e ↦ rw (e, d) (refl, refl)
]

-- A palette that is opened, whatever was done with it before, has an empty query and the first row
-- highlighted, but the commands that it shows are those of the term of last time, until the delay
-- of the query has passed.
pub open_stale :
    (es : List Event)
    → (run mounted es).last_open ≡ false
    → let before = run mounted es in
      let opened = step before (set_open true) in
      (opened.query ≡ [])
      × (opened.active_index ≡ 0)
      × (term_of opened ≡ term_of before)
      × (term_of (step opened delay_passes) ≡ [])
      × ((step opened delay_passes).active_index ≡ 0)
unfolding term_of step trim trim_end trim_start
open_stale es h = from (run mounted es) (run-IsNoted mounted es refl) h
  where
    from :
        (s : PaletteState)
        → IsNoted s
        → s.last_open ≡ false
        → let opened = step s (set_open true) in
          (opened.query ≡ [])
          × (opened.active_index ≡ 0)
          × (term_of opened ≡ term_of s)
          × (term_of (step opened delay_passes) ≡ [])
          × ((step opened delay_passes).active_index ≡ 0)
    from s n h =
        let opened : PaletteState = record s { last_open = true; query = []; active_index = 0 } in
        let stays : note_term opened ≡ opened = note_term-same opened n in
        let later = settled (record opened { debounced = [] }) refl refl in
        rw (h, stays) (refl, refl, refl, later.0, later.1)
