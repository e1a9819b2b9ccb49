-- ===== src/Api/Tests.antt =====
-- The theorems on URLs, queries and calls at concrete ones.
use ldapwarden.Prelude.{
  ltb, split_on, trim_start, trim_end, trim, decimal, JsString, text, ◌===◌, drop, all, All, ◌≡◌,
  refl, subst, true, Option, none, some, List, [], ◌∷◌, ◌++◌, arith,
}
use ldapwarden.Api.Uri.{
  encode_uri_component, code_points, utf8, escape_all, hex_digit, is_unreserved, encode_point,
  encode_points,
}
use ldapwarden.Api.Uri.Utf8.{IsUnit}
use ldapwarden.Api.Uri.SegmentLaws.{IsText, IsText-ascii}
use ldapwarden.Api.Query.{
  ParamValue, number, string, undefined, ListParams, desc, active, list_query,
}
use ldapwarden.Api.Query.ReadLaws.{read_query}
use ldapwarden.Api.Query.AuditLaws.{IsObject, no_entries, entry, given_pairs, IsTextEntry}
use ldapwarden.Api.Query.ListLaws.{list_entries, IsListText, read_query-list_query}
use ldapwarden.Api.Request.{Request, entry_path, sends, post}
use ldapwarden.Api.Calls.Users.{lock, users_request}
use ldapwarden.Api.Calls.{users, request}
use ldapwarden.Api.Calls.Path.{EntryRoute, IsAddress, route_of, fetched_path}
use ldapwarden.Api.Calls.DnLaws.{request-meant_route}

-- The DN cn=Ł/x.
abbrev polish : JsString
polish = text "cn=" ++ (321 ∷ text "/x")

polish-units : All IsUnit polish
polish-units =
    (omega arith, (omega arith, (omega arith, (omega arith, (omega arith, (omega arith, tt))))))

abbrev escaped : JsString
escaped = text "cn%3D%C5%81%2Fx"

polish-escaped : encode_uri_component polish ≡ some escaped
unfolding encode_uri_component code_points utf8 escape_all hex_digit is_unreserved encode_point
    encode_points
polish-escaped = refl

abbrev filters : List (JsString × ParamValue)
filters =
    (text "search", string (text "a b")) ∷ (text "limit", number 25) ∷ (text "to", undefined) ∷ []

filters-IsObject : IsObject filters
unfolding ◌===◌
filters-IsObject = entry (refl, (refl, tt)) (entry (refl, tt) (entry tt no_entries))

ascii : (s : JsString) → all (λ c. ltb c 128) s ≡ true → IsText s
ascii s h = IsText-ascii s h

filters-IsText : All IsTextEntry filters
unfolding ldapwarden.Api.Query.value_text decimal
filters-IsText = (
  (ascii _ refl, ascii _ refl),
  ((ascii _ refl, ascii _ refl), ((ascii _ refl, ascii _ refl), tt)),
)

abbrev page : ListParams
page = record {
  search = some (text " bob ");
  sort = some (text "uid");
  order = some desc;
  limit = some 25;
  offset = some 0;
  status = some active;
}

page-IsText : IsListText page
unfolding trim trim_start trim_end
page-IsText = record {
  search = λ s e. subst IsText (unsome e) (ascii (text "bob") refl);
  sort = λ s e. subst IsText (unsome e) (ascii (text "uid") refl);
}
  where
    unsome : {s t : JsString} → Option.some s ≡ some t → s ≡ t
    unsome e = ground arith

read_query-list_query_example :
    read_query (drop 1 (list_query (some page))) ≡ given_pairs (list_entries page)
read_query-list_query_example = read_query-list_query page page-IsText

abbrev lock_request : Request
lock_request = sends post (text "/users/" ++ (escaped ++ text "/lock")) none none

lock_made : request (users (lock polish)) ≡ some lock_request
unfolding request users_request entry_path
lock_made = rw polish-escaped refl

-- The route that locks the account.
abbrev lock_route : EntryRoute
lock_route = record {
  method = post;
  resource = text "users";
  dn = polish;
  action = some (text "lock");
}

polish-IsAddress : IsAddress lock_route
polish-IsAddress = record { units = polish-units; equals = refl }

request-meant_route_example : route_of lock_request ≡ some lock_route
request-meant_route_example =
    request-meant_route (users (lock polish)) lock_route lock_request polish-IsAddress refl
      lock_made

-- The text `..` is no DN with an RDN: the request to lock it leaves the routes of an entry.
dots_leave : fetched_path (text "/users/../lock") ≡ text "api" ∷ text "lock" ∷ []
unfolding fetched_path split_on ◌===◌
dots_leave = refl
