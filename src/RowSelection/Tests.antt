-- ===== src/RowSelection/Tests.antt =====
-- The theorems on selections at a page of two rows.
use ldapwarden.Prelude.{JsString, text, List, [], ◌∷◌}

abbrev page : List JsString
page = text "cn=a" ∷ text "cn=b" ∷ []
