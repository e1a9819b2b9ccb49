-- ===== src/Ui/Picker.antt =====
-- The search of a picker, web/src/lib/use-picker-search.ts, and the candidates that a page leaves
-- out of what it finds.
pub mod Laws
use ldapwarden.Prelude.{
  ◌==◌, if◌then◌else◌, JsString, text, includes, length, filter, ℕ, ◌+◌, ◌-◌, not, Option, none,
  some, List, [], ◌++◌,
}
use ldapwarden.Api.Query.{ListParams, asc}

abbrev pub picker_limit : ℕ
picker_limit = 20

-- `list({ search: term, sort, order: 'asc', limit })`.
unfoldable pub picker_params : JsString → Option JsString → ℕ → ListParams
picker_params term sort headroom = record {
  search = some term;
  sort = sort;
  order = some asc;
  limit = some (picker_limit + headroom);
  offset = none;
  status = none;
}

-- An answer of a list endpoint: some of the matches, and how many there are.
pub record Found {ℓ} (A : Type ℓ) : Type ℓ where
  pub items : List A
  pub total : ℕ

module _ {ℓ} {A : Type ℓ} where
  -- `query.data?.data ?? []` and `query.data?.total ?? 0`.
  unfoldable pub picker_items : Option (Found A) → List A
  picker_items none = []
  picker_items (some found) = found.items

  unfoldable pub picker_total : Option (Found A) → ℕ
  picker_total none = 0
  picker_total (some found) = found.total

  -- `Math.max(0, total - items.length)`, as subtraction on the natural numbers.
  unfoldable pub overflow : Option (Found A) → ℕ
  overflow answer = picker_total answer - length (picker_items answer)

  -- `items.filter((item) => !taken.has(item.key))`.
  unfoldable pub candidates : (A → JsString) → List JsString → List A → List A
  candidates key taken items = filter (λ item. not (includes (key item) taken)) items

-- `PickerOverflow`: what is said of the matches that are not shown. `shown` prints a number.
unfoldable pub overflow_text : (ℕ → JsString) → ℕ → Option JsString
overflow_text shown count =
    if count == 0
    then none
    else if count == 1
    then some (text "1 more match is not shown — refine the search to reach it.")
    else some (shown count ++ text " more matches are not shown — refine the search to reach them.")
