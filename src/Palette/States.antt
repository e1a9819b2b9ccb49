-- ===== src/Palette/States.antt =====
-- The state of the command palette, web/src/components/command-palette.tsx, with the debounced copy
-- of the query (web/src/lib/use-debounced.ts). The palette stays mounted while it is closed.
pub mod Laws
mod Tests
use ldapwarden.Prelude.{if◌then◌else◌, trim, JsString, ◌===◌, ℕ, Bool, true, false, List, [], ◌∷◌}
use ldapwarden.Palette.{arrow_down, arrow_up}

pub record PaletteState : Type 0 where
  pub query : JsString
  pub debounced : JsString
  pub active_index : ℕ
  pub last_open : Bool
  pub last_term : JsString

-- The closed palette as it is mounted.
abbrev pub mounted : PaletteState
mounted = record { query = []; debounced = []; active_index = 0; last_open = false; last_term = [] }

-- The term that is searched for.
unfoldable pub term_of : PaletteState → JsString
term_of s = trim s.debounced

-- What a render makes of `open`, and of the term.
unfoldable pub note_open : Bool → PaletteState → PaletteState
note_open true s =
    if s.last_open then s else record s { last_open = true; query = []; active_index = 0 }
note_open false s = if s.last_open then record s { last_open = false } else s

unfoldable pub note_term : PaletteState → PaletteState
unfolding term_of
note_term s =
    if term_of s === s.last_term then s else record s { last_term = term_of s; active_index = 0 }

-- The dialog is opened or closed, the query is typed, the delay passes without a change of it, or
-- an arrow is pressed beside so many commands.
pub data Event : Type 0 where
  set_open : Bool → Event
  types : JsString → Event
  delay_passes : Event
  presses_down presses_up : ℕ → Event
  -- The pointer moves over a row.
  hovers : ℕ → Event

unfoldable pub handle : Event → PaletteState → PaletteState
unfolding note_open
handle (set_open is_open) s = note_open is_open s
handle (types query) s = record s { query = query }
handle delay_passes s = record s { debounced = s.query }
handle (presses_down count) s = record s { active_index = arrow_down count s.active_index }
handle (presses_up count) s = record s { active_index = arrow_up count s.active_index }
handle (hovers index) s = record s { active_index = index }

unfoldable pub step : PaletteState → Event → PaletteState
unfolding note_term handle
step s e = note_term (handle e s)

unfoldable pub run : PaletteState → List Event → PaletteState
unfolding step
run s [] = s
run s (e ∷ es) = run (step s e) es
