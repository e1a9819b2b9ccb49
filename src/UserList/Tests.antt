-- ===== src/UserList/Tests.antt =====
-- What the list of accounts asks for after a filter, and after a turn to the third page.
use ldapwarden.Prelude.{text, none, some, [], ◌∷◌}
use ldapwarden.UserList.{UserList}

abbrev on_page_four : UserList
on_page_four = record {
  search = record {
    view = record { q = none; sort = none; dir = none; page = some 4; size = some 50 };
    status = none;
  };
  selected = text "uid=jdoe" ∷ [];
}
