-- ===== src/UserList/Laws.antt =====
-- Lemmas on what the list of accounts (web/src/routes/users/index.tsx) asks for.
use ldapwarden.Prelude.{Bool, true, false}
use ldapwarden.UserList.{UserList, ListEvent, turns_to, toggles, clears}

-- Whether an event changes which accounts the list is about, or their order.
abbrev pub changes_query : ListEvent → Bool
changes_query (turns_to page) = false
changes_query (toggles dn) = false
changes_query clears = false
changes_query _ = true
