-- ===== src/CsvImport/Steps.antt =====
-- The steps of an import: the component CsvImport of web/src/components/csv-import.tsx, with
-- formatCell and the rows of the two files that it offers. What Papa.parse makes of a file and what
-- the server answers are events.
pub mod Laws
use mathlib.Core.Option
use ldapwarden.Prelude.{
  if◌then◌else◌, or_default, JsString, text, ◌===◌, look_up, is_empty, length, filter, ℕ, ◌+◌, ◌-◌,
  Bool, true, false, not, ◌&&◌, ◌||◌, Option, none, some, List, [], ◌∷◌, ◌++◌, map,
}
use ldapwarden.Values.{JsNumber, Fields}
use ldapwarden.CsvImport.{ImportField, ParsedRow, auto_map, build_row}

pub data ImportStep : Type 0 where
  upload map_columns preview result : ImportStep

-- What the server says of a row, and of an import.
pub record RowResult : Type 0 where
  pub index : ℕ
  pub key : JsString
  pub is_error : Bool
  pub error : Option JsString

pub record ImportResult : Type 0 where
  pub created : ℕ
  pub failed : ℕ
  pub results : List RowResult

pub record Import : Type 0 where
  pub headers : List JsString
  pub csv_rows : List (List (JsString × JsString))
  pub mapping : List (JsString × JsString)
  pub import_step : ImportStep
  pub submitting : Bool
  pub outcome : Option ImportResult
  -- The messages shown, and the rows of each request made, the latest last.
  pub toasts : List JsString
  pub requests : List (List Fields)

abbrev pub fresh : Import
fresh = record {
  headers = [];
  csv_rows = [];
  mapping = [];
  import_step = upload;
  submitting = false;
  outcome = none;
  toasts = [];
  requests = [];
}

abbrev toast : JsString → Import → Import
toast message s = record s { toasts = s.toasts ++ message ∷ [] }

-- `{ ...m, [key]: value }`.
unfoldable pub set_column :
    JsString → JsString → List (JsString × JsString) → List (JsString × JsString)
set_column key value [] = (key, value) ∷ []
set_column key value ((k, v) ∷ mapping) =
    let rest = set_column key value mapping in
    if k === key then (k, value) ∷ mapping else (k, v) ∷ rest

-- `filter(Boolean)` on the column names.
abbrev pub named : List JsString → List JsString
named cols = filter (λ c. not (is_empty c)) cols

-- `f.required && !mapping[f.key]`.
unfoldable pub is_unmapped : List (JsString × JsString) → ImportField → Bool
is_unmapped mapping f = f.required && is_empty (or_default (look_up f.key mapping) [])

abbrev pub shows_rows : ImportStep → Bool
shows_rows preview = true
shows_rows result = true
shows_rows _ = false

pub data Event : Type 0 where
  file_parsed : List JsString → List (List (JsString × JsString)) → Event
  file_failed : Event
  column_chosen : JsString → JsString → Event
  back next submit : Event
  answered : ImportResult → Event
  request_failed : Option JsString → Event

module _ (lower : JsString → JsString) (parse : JsString → JsNumber)
    (fields : List ImportField) where
  unfoldable pub required_unmapped : Import → List ImportField
  unfolding is_unmapped
  required_unmapped s = filter (is_unmapped s.mapping) fields

  unfoldable pub parsed_rows : Import → List ParsedRow
  parsed_rows s =
      if shows_rows s.import_step
      then map (λ csv_row. build_row parse csv_row fields s.mapping) s.csv_rows
      else []

  unfoldable pub valid_rows : Import → List ParsedRow
  unfolding parsed_rows
  valid_rows s = filter (λ r. is_empty r.errors) (parsed_rows s)

  unfoldable pub invalid_count : Import → ℕ
  unfolding valid_rows
  invalid_count s = length (parsed_rows s) - length (valid_rows s)

  -- `complete` of handleFile, past the columns without a name.
  unfoldable pub take_file : List JsString → List (List (JsString × JsString)) → Import → Import
  take_file cols csv_rows s =
      if is_empty cols || is_empty csv_rows
      then toast (text "The file has no header row or no data rows.") s
      else record s {
        headers = cols;
        csv_rows = csv_rows;
        mapping = auto_map lower fields cols;
        import_step = map_columns;
      }

  -- The button "Back", which two of the steps have.
  unfoldable pub go_back : ImportStep → Import → Import
  go_back map_columns s = record s { import_step = upload }
  go_back preview s = record s { import_step = map_columns }
  go_back _ s = s

  -- The button "Preview" of the second step.
  unfoldable pub go_next : ImportStep → Import → Import
  unfolding required_unmapped
  go_next map_columns s =
      if is_empty (required_unmapped s) then record s { import_step = preview } else s
  go_next _ s = s

  -- The button of the third step, and handleSubmit up to its await.
  unfoldable pub send : ImportStep → Import → Import
  unfolding valid_rows
  send preview s = if is_empty (valid_rows s) || s.submitting then s else record s {
    submitting = true;
    requests = s.requests ++ map (λ r. r.row) (valid_rows s) ∷ [];
  }
  send _ s = s

  unfoldable pub choose : JsString → JsString → ImportStep → Import → Import
  choose key value map_columns s = record s { mapping = set_column key value s.mapping }
  choose key value _ s = s

  unfoldable pub import_event : Import → Event → Import
  unfolding take_file go_back go_next send choose
  import_event s (file_parsed cols csv_rows) = take_file (named cols) csv_rows s
  import_event s file_failed = toast (text "Could not parse the CSV file.") s
  import_event s (column_chosen key value) = choose key value s.import_step s
  import_event s back = go_back s.import_step s
  import_event s next = go_next s.import_step s
  import_event s submit = send s.import_step s
  import_event s (answered r) = record s {
    outcome = some r;
    import_step = result;
    submitting = false;
  }
  import_event s (request_failed message) =
      toast (or_default message (text "Import failed")) (record s { submitting = false })

  unfoldable pub import_events : Import → List Event → Import
  unfolding import_event
  import_events s [] = s
  import_events s (e ∷ es) = import_events (import_event s e) es

-- The rows of the template and of the report, before Papa.unparse.
unfoldable pub template_rows :
    (ImportField → Option JsString) → List ImportField → List (List JsString)
template_rows example fields =
    map (λ f. f.key) fields ∷ map (λ f. or_default (example f) []) fields ∷ []

-- `{ row, key, status, error }`.
pub record ReportRow : Type 0 where
  pub row : ℕ
  pub key : JsString
  pub is_error : Bool
  pub error : JsString

unfoldable pub report_row : RowResult → ReportRow
report_row r = record {
  row = r.index + 1;
  key = r.key;
  is_error = r.is_error;
  error = or_default r.error [];
}

unfoldable pub report_rows : ImportResult → List ReportRow
unfolding report_row
report_rows r = map report_row r.results

-- The rows that the last step lists.
unfoldable pub failed_rows : ImportResult → List RowResult
failed_rows r = filter (λ row. row.is_error) r.results
