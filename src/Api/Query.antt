-- ===== src/Api/Query.antt =====
-- The query strings of web/src/lib/api.ts: `listQuery`, `auditQuery`, and the export links.
use mathlib.Core.Option
use ldapwarden.Prelude.{
  ◌==◌, if◌then◌else◌, trim, decimal, JsString, text, ◌===◌, is_empty, filter, ℕ, Bool, false, not,
  Option, none, some, List, [], ◌∷◌, ◌++◌, map,
}
use ldapwarden.Api.Uri.{form_text}
pub mod ReadLaws
pub mod AuditLaws
pub mod ListLaws

-- `URLSearchParams`, as its pairs: `set` replaces the first value of a key, and drops any other.
unfoldable pub set : JsString → JsString → List (JsString × JsString) → List (JsString × JsString)
set key value [] = (key, value) ∷ []
set key value ((k, v) ∷ pairs) =
    let rest = set key value pairs in
    if k === key then (key, value) ∷ filter (λ p. not (p.0 === key)) pairs else (k, v) ∷ rest

unfoldable pub pair_text : JsString × JsString → JsString
pair_text (key, value) = form_text key ++ (b'=' ∷ form_text value)

unfoldable pub to_string : List (JsString × JsString) → JsString
to_string [] = []
to_string (p ∷ []) = pair_text p
to_string (p ∷ q ∷ pairs) = pair_text p ++ (b'&' ∷ to_string (q ∷ pairs))

-- `query ? `?${query}` : ''`.
unfoldable pub with_mark : JsString → JsString
with_mark query = if is_empty query then [] else b'?' ∷ query

pub data SortOrder : Type 0 where
  asc desc : SortOrder

pub data ListStatus : Type 0 where
  active inactive : ListStatus

pub record ListParams : Type 0 where
  pub search : Option JsString
  pub sort : Option JsString
  pub order : Option SortOrder
  pub limit : Option ℕ
  pub offset : Option ℕ
  pub status : Option ListStatus

abbrev pub order_text : SortOrder → JsString
order_text asc = text "asc"
order_text desc = text "desc"

abbrev pub status_text : ListStatus → JsString
status_text active = text "active"
status_text inactive = text "inactive"

-- `if (value) q.set(key, value)` for an optional text, number or literal.
unfoldable pub set_text :
    JsString → Option JsString → List (JsString × JsString) → List (JsString × JsString)
set_text key none q = q
set_text key (some s) q = if is_empty s then q else set key s q

unfoldable pub set_number :
    JsString → Option ℕ → List (JsString × JsString) → List (JsString × JsString)
set_number key none q = q
set_number key (some n) q = if n == 0 then q else set key (decimal n) q

unfoldable pub list_pairs : ListParams → List (JsString × JsString)
list_pairs params = set_text (text "status") (Option.map status_text params.status) (
    set_number (text "offset") params.offset (
      set_number (text "limit") params.limit (
        set_text (text "order") (Option.map order_text params.order) (
          set_text (text "sort") params.sort
            (set_text (text "search") (Option.map trim params.search) [])))))

unfoldable pub list_query : Option ListParams → JsString
list_query none = []
list_query (some params) = with_mark (to_string (list_pairs params))

-- A value of the parameters of the audit log: `undefined`, a text or a number.
pub data ParamValue : Type 0 where
  undefined : ParamValue
  string : JsString → ParamValue
  number : ℕ → ParamValue

-- The test in the loop, and `String(value)`.
unfoldable pub is_given : ParamValue → Bool
is_given undefined = false
is_given (string s) = not (is_empty s)
is_given (number n) = not (n == 0)

unfoldable pub value_text : ParamValue → JsString
value_text undefined = text "undefined"
value_text (string s) = s
value_text (number n) = decimal n

-- The loop over `Object.entries(params)`.
unfoldable pub audit_pairs :
    List (JsString × ParamValue) → List (JsString × JsString) → List (JsString × JsString)
audit_pairs [] q = q
audit_pairs ((key, value) ∷ entries) q =
    audit_pairs entries (if is_given value then set key (value_text value) q else q)

unfoldable pub audit_query : Option (List (JsString × ParamValue)) → JsString
audit_query none = []
audit_query (some params) = with_mark (to_string (audit_pairs params []))

pub record ExportParams : Type 0 where
  pub base : JsString
  pub scope : JsString
  pub operational : Bool

-- The query of `api.admin.exportUrl`.
unfoldable pub export_query : ExportParams → JsString
export_query params =
    let q = (text "base", params.base) ∷ (text "scope", params.scope) ∷ [] in
    to_string (if params.operational then set (text "operational") (text "true") q else q)
