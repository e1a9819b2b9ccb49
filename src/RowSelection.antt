-- ===== src/RowSelection.antt =====
-- web/src/lib/use-row-selection.ts: the rows of a list page that are selected, by their DNs. A set
-- is the list of its values.
pub mod Laws
mod Tests
use ldapwarden.Prelude.{
  if◌then◌else◌, JsString, ◌===◌, is_empty, includes, filter, all, Bool, not, ◌&&◌, List, [], ◌∷◌,
  ◌++◌, map,
}

-- `toggleOne`.
unfoldable pub toggle_one : JsString → List JsString → List JsString
toggle_one dn selected =
    if includes dn selected then filter (λ s. not (s === dn)) selected else selected ++ dn ∷ []

-- `new Set(values)`.
unfoldable pub set_of : List JsString → List JsString → List JsString
set_of [] set = set
set_of (v ∷ values) set = set_of values (if includes v set then set else set ++ v ∷ [])

module _ {Row : Type 0} (dn : Row → JsString) (rows : List Row) where
  unfoldable pub selected_rows : List JsString → List Row
  selected_rows selected = filter (λ row. includes (dn row) selected) rows

  -- `rows.every(…)`.
  unfoldable pub every_selected : List JsString → Bool
  every_selected selected = all (λ row. includes (dn row) selected) rows

  unfoldable pub all_selected : List JsString → Bool
  all_selected selected = not (is_empty rows) && every_selected selected

  unfoldable pub some_selected : List JsString → Bool
  some_selected selected = not (is_empty selected) && not (all_selected selected)

  unfoldable pub toggle_all : List JsString → List JsString
  toggle_all selected = if every_selected selected then [] else set_of (map dn rows) []
