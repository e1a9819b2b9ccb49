-- ===== src/Ui/Tabs.antt =====
-- The arrow keys of a list of tabs, and the panel that is shown: web/src/components/ui/tabs.tsx.
pub mod Laws
use mathlib.Core.Option
use ldapwarden.Prelude.{
  if◌then◌else◌, ◌>>=◌, JsString, ◌===◌, length, get_elem?, filter, ℕ, suc, ◌+◌, ◌-◌, ◌%◌, Option,
  none, some, List, [], ◌∷◌, map,
}

pub data Key : Type 0 where
  arrow_right arrow_down arrow_left arrow_up home_key end_key other_key : Key

-- `tabs.indexOf(tab)`, with `none` for -1.
unfoldable pub index_of : JsString → List JsString → Option ℕ
index_of tab [] = none
index_of tab (t ∷ tabs) =
    let rest = Option.map suc (index_of tab tabs) in if t === tab then some 0 else rest

-- `(index + 1) % tabs.length` and `(index - 1 + tabs.length) % tabs.length`, at an index that is
-- in the list.
unfoldable pub after : ℕ → ℕ → ℕ
after index count = (index + 1) % count

unfoldable pub before : ℕ → ℕ → ℕ
before index count = (index + count - 1) % count

-- The place that a key leads to from a tab of a list: `none` where the key is not one of them.
unfoldable pub target : Key → ℕ → ℕ → Option ℕ
target arrow_right index count = some (after index count)
target arrow_down index count = some (after index count)
target arrow_left index count = some (before index count)
target arrow_up index count = some (before index count)
target home_key index count = some 0
target end_key index count = some (count - 1)
target other_key index count = none

-- The tab that is clicked. The tab with the focus is one of the list.
unfoldable pub press : Key → List JsString → JsString → Option JsString
unfolding target
press key tabs current =
    index_of current tabs >>= λ index. target key index (length tabs) >>= get_elem? tabs

-- The panels, each of which shows itself where its value is the selected one.
unfoldable pub shown_panels : JsString → List JsString → List JsString
shown_panels selected panels = filter (λ value. selected === value) panels
