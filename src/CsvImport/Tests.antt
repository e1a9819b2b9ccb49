-- ===== src/CsvImport/Tests.antt =====
-- The theorems on the import at a concrete file.
use ldapwarden.Prelude.{
  trim_start, trim_end, trim, JsString, text, ◌===◌, look_up, All, ◌≡◌, refl, true, none, List, [],
  ◌∷◌,
}
use ldapwarden.Values.{JsNumber, nan}
use ldapwarden.CsvImport.{
  ImportField, text_field, ignored, auto_map, map_fields, first_match, by_lower, build_row, build,
  cell, filled_cell, typed_cell, text_cell, record_cell,
}
use ldapwarden.CsvImport.Steps.{
  Event, file_parsed, next, submit, request_failed, preview, Import, fresh, import_events,
}
use ldapwarden.CsvImport.Steps.Laws.{IsSent, requests-IsSent}
use ldapwarden.CsvImport.ImportFields.{user_fields, netgroup_fields}
use ldapwarden.CsvImport.Template.{AreApart}

abbrev uid_field : ImportField
uid_field = record {
  key = text "uid";
  label = text "Username";
  type = text_field;
  required = true;
  aliases = text "login" ∷ [];
  pattern = none;
  pattern_hint = none;
}

abbrev cells : List (JsString × JsString)
cells = (text "Login", text " jdoe ") ∷ []

abbrev columns : List (JsString × JsString)
columns = (text "uid", text "Login") ∷ []

abbrev read : JsString → JsNumber
read s = nan

no_errors : (build_row read cells (uid_field ∷ []) columns).errors ≡ []
unfolding build_row build cell filled_cell typed_cell text_cell record_cell look_up ◌===◌ trim
    trim_start trim_end
no_errors = refl

abbrev one_file : List Event
one_file =
    file_parsed (text "Login" ∷ []) (cells ∷ []) ∷ next ∷ submit ∷ request_failed none ∷ submit ∷ []

abbrev import_one : Import
import_one = import_events (λ s. s) read (uid_field ∷ []) fresh one_file

requests-IsSent_example : All (IsSent (λ s. s) read (uid_field ∷ [])) import_one.requests
requests-IsSent_example = requests-IsSent (λ s. s) read (uid_field ∷ []) fresh one_file tt

abbrev ignoring : Import
ignoring = record fresh {
  csv_rows = cells ∷ [];
  mapping = (text "uid", ignored) ∷ [];
  import_step = preview;
}

user_fields-AreApart : AreApart (λ s. s) user_fields
unfolding ◌===◌
user_fields-AreApart = search tt

-- A column "members" alone is taken for the triples as well.
members_twice :
    auto_map (λ s. s) netgroup_fields (text "cn" ∷ text "members" ∷ [])
    ≡ (text "cn", text "cn")
      ∷ (text "triples", text "members")
      ∷ (text "members", text "members")
      ∷ []
unfolding auto_map map_fields first_match by_lower look_up ◌===◌
members_twice = refl
