-- ===== src/ListSearch/Validate.antt =====
-- `listSearchValidator`, `listSearchValues` and `nextSort` of web/src/lib/list-search.ts.
use ldapwarden.Prelude.{
  ltb, ◌==◌, if◌then◌else◌, or_default, JsString, text, ◌===◌, is_empty, includes, any, ℕ, Bool,
  true, false, not, ◌&&◌, ◌||◌, Option, none, some, List, [], ◌∷◌,
}
use ldapwarden.Values.{JsNumber, whole, Value, Items, Fields, boolean, string, get, to_number}

pub data SortDirection : Type 0 where
  asc desc : SortDirection

abbrev pub page_sizes : List ℕ
page_sizes = 10 ∷ 25 ∷ 50 ∷ 100 ∷ []

abbrev pub default_page_size : ℕ
default_page_size = 25

-- A field is `none` where it holds its default.
pub record ListSearch : Type 0 where
  pub q : Option JsString
  pub sort : Option JsString
  pub dir : Option SortDirection
  pub page : Option ℕ
  pub size : Option ℕ

unfoldable pub as_string : Value → Option JsString
as_string (string s) = if is_empty s then none else some s
as_string _ = none

unfoldable pub as_one_of : Value → List JsString → Option JsString
as_one_of (string s) allowed = if includes s allowed then some s else none
as_one_of _ allowed = none

-- `as_one_of(raw.dir, ['asc', 'desc'])`, read as a direction.
unfoldable pub as_direction : Value → Option SortDirection
as_direction (string s) =
    if s === text "asc" then some asc else if s === text "desc" then some desc else none
as_direction _ = none

-- `Number.isInteger(n) && n > 1`.
unfoldable pub page_number : JsNumber → Option ℕ
page_number (whole n) = if ltb 1 n then some n else none
page_number _ = none

unfoldable pub page_size : JsNumber → Option ℕ
page_size (whole n) =
    if any (λ s. s == n) page_sizes && not (n == default_page_size) then some n else none
page_size _ = none

unfoldable pub as_boolean : Value → Option Bool
as_boolean (boolean true) = some true
as_boolean (string s) = if s === text "true" || s === text "1" then some true else none
as_boolean _ = none

module _ (parse : JsString → JsNumber) (shown : Items → JsString) where
  unfoldable pub as_page : Value → Option ℕ
  unfolding page_number to_number
  as_page v = page_number (to_number parse shown v)

  unfoldable pub as_size : Value → Option ℕ
  unfolding page_size to_number
  as_size v = page_size (to_number parse shown v)

  unfoldable pub list_search_validator : List JsString → Fields → ListSearch
  unfolding as_string as_one_of as_direction as_page as_size
  list_search_validator sort_fields raw = record {
    q = as_string (get (text "q") raw);
    sort = as_one_of (get (text "sort") raw) sort_fields;
    dir = as_direction (get (text "dir") raw);
    page = as_page (get (text "page") raw);
    size = as_size (get (text "size") raw);
  }

pub record ListView : Type 0 where
  pub q : JsString
  pub sort : JsString
  pub dir : SortDirection
  pub page : ℕ
  pub size : ℕ

unfoldable pub list_search_values : ListSearch → JsString → ListView
list_search_values s default_sort = record {
  q = or_default s.q [];
  sort = or_default s.sort default_sort;
  dir = or_default s.dir asc;
  page = or_default s.page 1;
  size = or_default s.size default_page_size;
}

pub record SortState : Type 0 where
  pub sort : JsString
  pub dir : SortDirection

abbrev is_asc : SortDirection → Bool
is_asc asc = true
is_asc desc = false

-- The result's `page` is `undefined` always.
unfoldable pub next_sort : SortState → JsString → SortState × Option ℕ
next_sort current field = (
  record { sort = field; dir = if current.sort === field && is_asc current.dir then desc else asc },
  none,
)
