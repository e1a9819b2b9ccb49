-- ===== src/CsvImport.antt =====
-- web/src/components/csv-import.tsx: the columns of a CSV file matched to the fields of an import,
-- and the rows made of its cells. `toLowerCase` and the reading of a number are arguments, and a
-- field's pattern is its test.
use ldapwarden.Prelude.{
  if◌then◌else◌, or_default, split_on, trim, JsString, text, ◌===◌, look_up, is_empty, filter, Bool,
  true, not, ◌||◌, Option, none, some, List, [], ◌∷◌, ◌++◌, map,
}
use ldapwarden.Values.{
  JsNumber, whole, below_zero, Value, Items, Fields, nil, cons, end, field, number, string, array,
}
pub mod Laws
pub mod Steps
pub mod ImportFields
pub mod Template
mod Tests

pub data FieldType : Type 0 where
  text_field number_field string_array : FieldType

pub record ImportField : Type 0 where
  pub key : JsString
  pub label : JsString
  pub type : FieldType
  pub required : Bool
  pub aliases : List JsString
  pub pattern : Option (JsString → Bool)
  pub pattern_hint : Option JsString

pub record ParsedRow : Type 0 where
  pub row : Fields
  pub errors : List JsString

abbrev pub ignored : JsString
ignored = text "__ignore__"

-- `row[key] = value`.
unfoldable pub put : JsString → Value → Fields → Fields
put key value end = field key value end
put key value (field k v fs) =
    let rest = put key value fs in if k === key then field k value fs else field k v rest

module _ (lower : JsString → JsString) where
  -- `new Map(headers.map(…))`: of two headers that are alike the later one counts.
  unfoldable pub by_lower : List JsString → List (JsString × JsString) → List (JsString × JsString)
  by_lower [] seen = seen
  by_lower (h ∷ headers) seen = by_lower headers ((lower h, h) ∷ seen)

  -- The inner loop: the first candidate that is a header, and no empty one.
  unfoldable pub first_match : List (JsString × JsString) → List JsString → Option JsString
  first_match headers [] = none
  first_match headers (c ∷ candidates) =
      let rest = first_match headers candidates in
      elim (look_up c headers) [
        | none ↦ rest
        | some match ↦ if is_empty match then rest else some match
      ]

  abbrev pub candidates_of : ImportField → List JsString
  candidates_of f = map lower (f.key ∷ f.label ∷ f.aliases)

  -- The keys of the fields are distinct, so that each is set once.
  unfoldable pub map_fields :
      List ImportField → List (JsString × JsString) → List (JsString × JsString)
  map_fields [] headers = []
  map_fields (f ∷ fields) headers =
      let rest = map_fields fields headers in
      elim (first_match headers (candidates_of f)) [
        | none ↦ rest
        | some match ↦ (f.key, match) ∷ rest
      ]

  unfoldable pub auto_map : List ImportField → List JsString → List (JsString × JsString)
  auto_map fields headers = map_fields fields (by_lower headers [])

-- What one field makes of a row.
pub data Cell : Type 0 where
  skipped : Cell
  refused : JsString → Cell
  stored : Value → Cell

unfoldable pub missing : ImportField → Cell
missing f = if f.required then refused (f.label ++ text " is required") else skipped

abbrev pub matches : ImportField → JsString → Bool
matches f s = elim f.pattern [ none ↦ true | some test ↦ test s ]

abbrev texts : List JsString → Items
texts [] = nil
texts (s ∷ rest) = cons (string s) (texts rest)

abbrev join_comma : List JsString → JsString
join_comma [] = []
join_comma (s ∷ []) = s
join_comma (s ∷ t ∷ rest) = s ++ (text ", " ++ join_comma (t ∷ rest))

-- `raw.split(';').map((s) => s.trim()).filter(Boolean)`.
unfoldable pub split_values : JsString → List JsString
split_values raw = filter (λ s. not (is_empty s)) (map trim (split_on b';' raw))

unfoldable pub array_cell : ImportField → List JsString → Cell
array_cell f values =
    let invalid = filter (λ v. not (matches f v)) values in
    if is_empty invalid
    then stored (array (texts values))
    else refused (
        f.label
        ++ (text " "
            ++ (or_default f.pattern_hint (text "has invalid values")
                ++ (text ": " ++ join_comma invalid))))

unfoldable pub text_cell : ImportField → JsString → Cell
text_cell f raw =
    if matches f raw
    then stored (string raw)
    else refused
        (f.label ++ (text " " ++ or_default f.pattern_hint (text "has invalid characters")))

-- `Number.isInteger(n)`.
unfoldable pub number_cell : ImportField → JsNumber → Cell
number_cell f (whole n) = stored (number (whole n))
number_cell f (below_zero n) = stored (number (below_zero n))
number_cell f _ = refused (f.label ++ text " must be a whole number")

module _ (parse : JsString → JsNumber) where
  unfoldable pub typed_cell : FieldType → ImportField → JsString → Cell
  typed_cell number_field f raw = number_cell f (parse raw)
  typed_cell string_array f raw = array_cell f (split_values raw)
  typed_cell text_field f raw = text_cell f raw

  unfoldable pub filled_cell : ImportField → JsString → Cell
  filled_cell f raw = if is_empty raw then missing f else typed_cell f.type f raw

  -- One round of the loop.
  unfoldable pub cell : List (JsString × JsString) → List (JsString × JsString) → ImportField → Cell
  cell csv_row mapping f = elim (look_up f.key mapping) [
    | none ↦ missing f
    | some header ↦
        if is_empty header || header === ignored
        then missing f
        else filled_cell f (trim (or_default (look_up header csv_row) []))
  ]

  unfoldable pub record_cell : ImportField → Cell → ParsedRow → ParsedRow
  record_cell f skipped r = r
  record_cell f (refused message) r = record r { errors = r.errors ++ message ∷ [] }
  record_cell f (stored value) r = record r { row = put f.key value r.row }

  unfoldable pub build :
      List (JsString × JsString)
      → List (JsString × JsString)
      → List ImportField
      → ParsedRow
      → ParsedRow
  build csv_row mapping [] r = r
  build csv_row mapping (f ∷ fields) r =
      build csv_row mapping fields (record_cell f (cell csv_row mapping f) r)

  unfoldable pub build_row :
      List (JsString × JsString) → List ImportField → List (JsString × JsString) → ParsedRow
  build_row csv_row fields mapping =
      build csv_row mapping fields (record { row = end; errors = [] })
