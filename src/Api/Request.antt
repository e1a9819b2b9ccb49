-- ===== src/Api/Request.antt =====
-- A request as web/src/lib/api.ts hands it to `fetchApi` and `fetchApiPublic`.
use ldapwarden.Prelude.{◌>>=◌, JsString, text, Bool, true, Option, none, some, List, [], ◌∷◌, ◌++◌}
use ldapwarden.Values.{Value, Items, Fields, nil, cons, object, array, string, field, end}
use ldapwarden.Api.Schema.{Schema}
use ldapwarden.Api.Uri.{encode_uri_component}

abbrev pub api_base : JsString
api_base = text "/api"

-- GET where the options name no method.
pub data Method : Type 0 where
  get post put delete : Method

-- `body` is the value that goes through `JSON.stringify`; `signed` says that the session cookie is
-- sent along, as `fetchApi` does and `fetchApiPublic` does not.
pub record Request : Type 0 where
  pub endpoint : JsString
  pub method : Method
  pub body : Option Value
  pub schema : Option Schema
  pub signed : Bool

-- `/resource/${encodeURIComponent(dn)}` and what follows.
unfoldable pub entry_path : JsString → JsString → JsString → Option JsString
entry_path resource dn rest = do
  e ← encode_uri_component dn
  some (b'/' ∷ (resource ++ (b'/' ∷ (e ++ rest))))

-- `fetchApi(endpoint, {}, schema)`, and with a method and perhaps a body.
abbrev pub fetches : JsString → Schema → Request
fetches endpoint schema = record {
  endpoint = endpoint;
  method = Method.get;
  body = none;
  schema = some schema;
  signed = true;
}

abbrev pub sends : Method → JsString → Option Value → Option Schema → Request
sends method endpoint body schema = record {
  endpoint = endpoint;
  method = method;
  body = body;
  schema = schema;
  signed = true;
}

abbrev pub fetches_entry : Option JsString → Schema → Option Request
fetches_entry path schema = do endpoint ← path; some (fetches endpoint schema)

abbrev pub sends_entry : Method → Option JsString → Option Value → Option Schema → Option Request
sends_entry method path body schema = do endpoint ← path; some (sends method endpoint body schema)

-- `{ key: value }`, and `{ rows }` of an import.
abbrev pub single : JsString → JsString → Value
single key value = object (field key (string value) end)

abbrev pub items_of : List Fields → Items
items_of [] = nil
items_of (r ∷ rows) = cons (object r) (items_of rows)

abbrev pub strings_of : List JsString → Items
strings_of [] = nil
strings_of (s ∷ texts) = cons (string s) (strings_of texts)

abbrev pub import_body : List Fields → Value
import_body rows = object (field (text "rows") (array (items_of rows)) end)

-- `userPhotoUrl`.
unfoldable pub user_photo_url : JsString → Option JsString
user_photo_url dn = do path ← entry_path (text "users") dn (text "/photo"); some (api_base ++ path)
