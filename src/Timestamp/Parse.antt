-- ===== src/Timestamp/Parse.antt =====
-- `parseLdapTimestamp` of web/src/lib/utils.ts and the functions that show a timestamp. What
-- depends on the reader's locale (`toLocaleString`, `Intl.DateTimeFormat`) is an argument.
use ldapwarden.Prelude.{
  ltb, leb, ◌==◌, if◌then◌else◌, ◌>>=◌, decimal_value, JsString, text, is_empty, ℕ, zero, suc, Bool,
  false, ◌&&◌, Option, none, some, [], ◌∷◌, ◌++◌,
}
use ldapwarden.Timestamp.Calendar.{date_utc, utc_hours, utc_minutes, utc_seconds, iso_date}

abbrev pub is_digit : ℕ → Bool
is_digit c = leb b'0' c && leb c b'9'

-- `\d{n}` at the start of a text, with what follows it.
unfoldable pub take_digits : ℕ → JsString → Option (JsString × JsString)
take_digits zero s = some ([], s)
take_digits (suc n) [] = none
take_digits (suc n) (c ∷ s) = elim (take_digits n s) [
  | none ↦ none
  | some (ds, rest) ↦ if is_digit c then some (c ∷ ds, rest) else none
]

-- An empty timestamp does not match either.
unfoldable pub parse_ldap_timestamp : JsString → Option ℕ
unfolding date_utc take_digits
parse_ldap_timestamp timestamp = do
  year ← take_digits 4 timestamp
  month ← take_digits 2 year.1
  day ← take_digits 2 month.1
  hour ← take_digits 2 day.1
  minute ← take_digits 2 hour.1
  second ← take_digits 2 minute.1
  some (
      date_utc (decimal_value year.0) (decimal_value month.0) (decimal_value day.0)
        (decimal_value hour.0) (decimal_value minute.0) (decimal_value second.0))

unfoldable pub is_ldap_timestamp_in_future : ℕ → JsString → Bool
is_ldap_timestamp_in_future now timestamp = elim (parse_ldap_timestamp timestamp) [
  | none ↦ false
  | some date ↦ ltb now date
]

-- `timestamp || 'N/A'`.
abbrev or_not_available : JsString → JsString
or_not_available timestamp = if is_empty timestamp then text "N/A" else timestamp

module _ (locale_string : ℕ → JsString) where
  unfoldable pub format_ldap_timestamp : JsString → JsString
  format_ldap_timestamp timestamp = elim (parse_ldap_timestamp timestamp) [
    | none ↦ or_not_available timestamp
    | some date ↦ locale_string date
  ]

  unfoldable pub expiry_instant_title : JsString → JsString
  expiry_instant_title timestamp = elim (parse_ldap_timestamp timestamp) [
    | none ↦ []
    | some date ↦ timestamp ++ (text " — " ++ (locale_string date ++ text " in your local time"))
  ]

unfoldable pub ldap_timestamp_to_date_string : JsString → JsString
ldap_timestamp_to_date_string timestamp = elim (parse_ldap_timestamp timestamp) [
  | none ↦ []
  | some date ↦ iso_date date
]

abbrev pub is_end_of_day : ℕ → Bool
is_end_of_day date = utc_hours date == 23 && utc_minutes date == 59 && utc_seconds date == 59

module _ (day_of time_of : ℕ → JsString) where
  unfoldable pub format_expiry_date : JsString → JsString
  format_expiry_date timestamp = elim (parse_ldap_timestamp timestamp) [
    | none ↦ or_not_available timestamp
    | some date ↦
        if is_end_of_day date
        then day_of date
        else day_of date ++ (text ", " ++ (time_of date ++ text " UTC"))
  ]
