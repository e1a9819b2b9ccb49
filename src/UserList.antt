-- ===== src/UserList.antt =====
-- The list of accounts: web/src/routes/users/index.tsx. The view is in the URL; the selection is by
-- DN.
pub mod Laws
mod Tests
use ldapwarden.Prelude.{
  ltb, if◌then◌else◌, is_some, JsString, text, ◌===◌, is_empty, ℕ, Option, none, some, List, [],
  ◌∷◌,
}
use ldapwarden.Values.{JsNumber, Value, string, Items, Fields, get}
use ldapwarden.Api.Query.{ListParams, ListStatus, SortOrder, active, inactive}
use ldapwarden.ListSearch.Validate.{
  SortDirection, ListSearch, as_boolean, list_search_validator, ListView, list_search_values,
  next_sort,
}
use ldapwarden.RowSelection.{toggle_one}
use ldapwarden.Ui.Paging.{slice}

abbrev pub user_sort_fields : List JsString
user_sort_fields =
    text "uid" ∷ text "displayName" ∷ text "mail" ∷ text "employeeType" ∷ text "groupsCount" ∷ []

pub data StatusFilter : Type 0 where
  everyone only_inactive : StatusFilter

pub record UsersSearch : Type 0 where
  pub view : ListSearch
  pub status : Option StatusFilter

-- `STATUS_FILTERS.includes(raw.status)`.
unfoldable pub named_status : Value → Option StatusFilter
named_status (string s) =
    if s === text "all"
    then some everyone
    else if s === text "inactive"
    then some only_inactive
    else none
named_status _ = none

unfoldable pub parse_status : Fields → Option StatusFilter
unfolding named_status as_boolean
parse_status raw = elim (named_status (get (text "status") raw)) [
  | some status ↦ some status
  | none ↦ if is_some (as_boolean (get (text "inactive") raw)) then some everyone else none
]

unfoldable pub users_search : (JsString → JsNumber) → (Items → JsString) → Fields → UsersSearch
unfolding parse_status
users_search parse shown raw = record {
  view = list_search_validator parse shown user_sort_fields raw;
  status = parse_status raw;
}

abbrev order_of : SortDirection → SortOrder
order_of SortDirection.asc = SortOrder.asc
order_of SortDirection.desc = SortOrder.desc

-- `statusFilter === 'all' ? undefined : (statusFilter ?? 'active')`.
unfoldable pub asked_status : Option StatusFilter → Option ListStatus
asked_status none = some active
asked_status (some everyone) = none
asked_status (some only_inactive) = some inactive

abbrev pub users_view : UsersSearch → ListView
users_view s = list_search_values s.view (text "uid")

-- What the list asks for.
unfoldable pub users_params : UsersSearch → ListParams
unfolding asked_status
users_params s =
    let v = users_view s in
    record {
      search = some v.q;
      sort = some v.sort;
      order = some (order_of v.dir);
      limit = some (slice v.page v.size).limit;
      offset = some (slice v.page v.size).offset;
      status = asked_status s.status;
    }

pub record UserList : Type 0 where
  pub search : UsersSearch
  pub selected : List JsString

pub data ListEvent : Type 0 where
  sorts : JsString → ListEvent
  turns_to resizes : ℕ → ListEvent
  filters : Option StatusFilter → ListEvent
  searches : JsString → ListEvent
  toggles : JsString → ListEvent
  clears : ListEvent

-- `handleSort`, `handlePageChange`, `handlePageSizeChange`, `handleStatusChange`, the commit of the
-- search box, and the selection.
unfoldable pub list_event : UserList → ListEvent → UserList
unfolding next_sort toggle_one
list_event s (sorts field) =
    let v = users_view s.search in
    let (sorted, page) = next_sort (record { sort = v.sort; dir = v.dir }) field in
    record {
      search = record s.search {
        view = record s.search.view { sort = some sorted.sort; dir = some sorted.dir; page = page };
      };
      selected = [];
    }
list_event s (turns_to page) = record {
  search = record s.search {
    view = record s.search.view { page = if ltb 1 page then some page else none };
  };
  selected = [];
}
list_event s (resizes size) = record {
  search = record s.search { view = record s.search.view { size = some size; page = none } };
  selected = [];
}
list_event s (filters status) = record {
  search = record { view = record s.search.view { page = none }; status = status };
  selected = [];
}
list_event s (searches value) = record s {
  search = record s.search {
    view = record s.search.view { q = if is_empty value then none else some value; page = none };
  };
}
list_event s (toggles dn) = record s { selected = toggle_one dn s.selected }
list_event s clears = record s { selected = [] }

unfoldable pub list_events : UserList → List ListEvent → UserList
unfolding list_event
list_events s [] = s
list_events s (e ∷ es) = list_events (list_event s e) es
