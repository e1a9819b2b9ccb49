-- ===== src/Ui/SearchBox.antt =====
-- The search box of a list page: web/src/lib/use-url-search-input.ts with the debounced copy of
-- web/src/lib/use-debounced.ts.
pub mod Laws
use ldapwarden.Prelude.{if◌then◌else◌, JsString, ◌===◌, ◌&&◌, Option, none, some}

-- The state of the two hooks, and the term in the URL at the last render.
pub record SearchBox : Type 0 where
  pub input : JsString
  pub last_url : JsString
  pub debounced : JsString
  pub url : JsString

-- `useState` in the first render.
abbrev pub opened : JsString → SearchBox
opened url = record { input = url; last_url = url; debounced = url; url = url }

-- What happens to it: the input is set, the delay passes without a change, the URL's term is new.
pub data Event : Type 0 where
  types : JsString → Event
  delay_passes : Event
  navigates : JsString → Event

-- A render: a term that the URL has not had before is adopted.
unfoldable pub render : JsString → SearchBox → SearchBox
render url s =
    if url === s.last_url
    then record s { url = url }
    else record s { url = url; last_url = url; input = url }

-- The timer of `useDebounced` is set again on every change, so it brings the latest input.
unfoldable pub state_after : Event → SearchBox → SearchBox
unfolding render
state_after (types value) s = record s { input = value }
state_after delay_passes s = record s { debounced = s.input }
state_after (navigates url) s = render url s

-- The effect, which runs when the debounced value or the URL's term has changed: the term that it
-- commits, if any.
unfoldable pub committed : SearchBox → SearchBox → Option JsString
committed before now =
    if now.debounced === before.debounced && now.url === before.url
    then none
    else if now.debounced === now.url
    then none
    else some now.debounced

unfoldable pub step : Event → SearchBox → SearchBox × Option JsString
unfolding state_after committed
step e s = (state_after e s, committed s (state_after e s))
