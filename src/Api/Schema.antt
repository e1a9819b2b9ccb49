-- ===== src/Api/Schema.antt =====
-- The descriptions of JSON data that web/src/lib/api.ts builds with its validation library. What
-- the library does with one is an argument of the model.
use ldapwarden.Prelude.{JsString, List, [], ◌∷◌}
use ldapwarden.Values.{Value}
pub mod Types

mutual
  -- `one_of` is z.enum, `dictionary` z.record with string keys, and `or_empty` stands for
  -- `.transform((v) => v ?? [])`.
  pub data Schema : Type 0 where
    string number boolean unknown : Schema
    one_of : List JsString → Schema
    array dictionary : Schema → Schema
    union : Schemas → Schema
    object : Shape → Schema
    optional nullable nullish or_empty : Schema → Schema
    default_to catching : Value → Schema → Schema

  pub data Schemas : Type 0 where
    none_of : Schemas
    either : Schema → Schemas → Schemas

  pub data Shape : Type 0 where
    closed : Shape
    entry : JsString → Schema → Shape → Shape

-- The fields of `z.object`, and the schemas of `z.union`, as lists.
unfoldable pub shape_of : List (JsString × Schema) → Shape
shape_of [] = closed
shape_of ((key, s) ∷ fields) = entry key s (shape_of fields)

unfoldable pub object_of : List (JsString × Schema) → Schema
object_of fields = object (shape_of fields)

unfoldable pub alternatives : List Schema → Schemas
alternatives [] = none_of
alternatives (s ∷ schemas) = either s (alternatives schemas)

unfoldable pub union_of : List Schema → Schema
union_of schemas = union (alternatives schemas)

-- `.extend`, for keys that the object does not have.
unfoldable pub append_shape : Shape → List (JsString × Schema) → Shape
append_shape closed fields = shape_of fields
append_shape (entry key s rest) fields = entry key s (append_shape rest fields)

unfoldable pub extend : Schema → List (JsString × Schema) → Schema
extend (object shape) fields = object (append_shape shape fields)
extend s fields = s
