-- ===== src/Bulk/Warnings.antt =====
-- `warningsOf` of web/src/lib/bulk.ts.
use ldapwarden.Prelude.{JsString, text, List, []}
use ldapwarden.Values.{Value, object, array, get, strings}

abbrev of_list : Value → List JsString
of_list (array vs) = strings vs
of_list _ = []

-- A field that is missing is `undefined`, which is no list either.
unfoldable pub warnings_of : Value → List JsString
warnings_of (object fields) = of_list (get (text "warnings") fields)
warnings_of _ = []
