-- ===== src/ListSearch/Tests.antt =====
-- The theorems on list views at concrete ones.
use ldapwarden.Prelude.{if◌then◌else◌, JsString, text, ◌===◌, refl, some, [], ◌∷◌, arith}
use ldapwarden.Values.{JsNumber, nan, whole, Items, Fields, end, field, string, number}
use ldapwarden.ListSearch.Validate.{ListSearch, desc, list_search_validator, list_search_values}
use ldapwarden.ListSearch.Laws.{IsClean, IsView, list_search_values-IsView}

-- Text that reads as a number, for the texts below.
abbrev read : JsString → JsNumber
read s = if s === text "3" then whole 3 else nan

abbrev shown : Items → JsString
shown vs = []

abbrev url : Fields
url = field (text "page") (string (text "3")) (field (text "size") (number (whole 7)) end)

abbrev view : ListSearch
view = record {
  q = some (text "bob");
  sort = some (text "uid");
  dir = some desc;
  page = some 3;
  size = some 50;
}

view-IsClean : IsClean (text "uid" ∷ []) view
unfolding ◌===◌
view-IsClean = record {
  q = λ t e. ground arith;
  sort = λ f e. ground arith;
  page = λ n e. ground arith;
  size = λ n e. ground arith;
}

list_search_values-IsView_example :
    IsView
      (text "uid" ∷ [])
      (list_search_values (list_search_validator read shown (text "uid" ∷ []) url) (text "uid"))
unfolding ◌===◌
list_search_values-IsView_example =
    list_search_values-IsView read shown (text "uid" ∷ []) (text "uid") url refl
