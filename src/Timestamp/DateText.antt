-- ===== src/Timestamp/DateText.antt =====
-- What the timestamp functions make of a well-formed generalized time.
use ldapwarden.Prelude.{
  ◌==◌, if◌then◌else◌, decimal_value, IsDecimalDigit, JsString, text, length, All, ℕ, ◌≡◌, refl,
  ◌∙◌, true, ◌&&◌, some, [], ◌∷◌, ◌++◌, arith,
}
use ldapwarden.Timestamp.Calendar.{
  date_utc, four_digits, two_digits, utc_hours, utc_minutes, utc_seconds,
}
use ldapwarden.Timestamp.CalendarLaws.{IsDay, IsTime, iso_date-date_utc}
use ldapwarden.Timestamp.Parse.{
  is_digit, take_digits, parse_ldap_timestamp, ldap_timestamp_to_date_string, format_expiry_date,
}

take_digits-append :
    (ds rest : JsString)
    → All IsDecimalDigit ds
    → take_digits (length ds) (ds ++ rest) ≡ some (ds, rest)
unfolding take_digits
take_digits-append [] rest h = refl
take_digits-append (c ∷ ds) rest (p, h) =
    let ok : is_digit c ≡ true = ground arith in rw (take_digits-append ds rest h, ok)

-- The fields of a timestamp.
pub record Stamp : Type 0 where
  pub year : JsString
  pub month : JsString
  pub day : JsString
  pub hour : JsString
  pub minute : JsString
  pub second : JsString

-- A number of digits.
abbrev pub IsDigits : ℕ → JsString → Type 0
IsDigits n s = (length s ≡ n) × All IsDecimalDigit s

pub record IsStamp (s : Stamp) : Type 0 where
  pub year : IsDigits 4 s.year
  pub month : IsDigits 2 s.month
  pub day : IsDigits 2 s.day
  pub hour : IsDigits 2 s.hour
  pub minute : IsDigits 2 s.minute
  pub second : IsDigits 2 s.second

-- The stored text, with whatever follows the seconds.
abbrev pub stamp_text : Stamp → JsString → JsString
stamp_text s rest = s.year ++ (s.month ++ (s.day ++ (s.hour ++ (s.minute ++ (s.second ++ rest)))))

abbrev pub instant_of : Stamp → ℕ
instant_of s =
    date_utc (decimal_value s.year) (decimal_value s.month) (decimal_value s.day)
      (decimal_value s.hour) (decimal_value s.minute) (decimal_value s.second)

take_of :
    (n : ℕ) (ds rest : JsString) → IsDigits n ds → take_digits n (ds ++ rest) ≡ some (ds, rest)
take_of n ds rest (e, h) = rw (← e) (take_digits-append ds rest h)

pub parse-stamp_text :
    (s : Stamp) (rest : JsString)
    → IsStamp s
    → parse_ldap_timestamp (stamp_text s rest) ≡ some (instant_of s)
unfolding parse_ldap_timestamp
parse-stamp_text s rest h = rw (
  take_of 4 s.year _ h.year,
  take_of 2 s.month _ h.month,
  take_of 2 s.day _ h.day,
  take_of 2 s.hour _ h.hour,
  take_of 2 s.minute _ h.minute,
  take_of 2 s.second rest h.second,
)

four_chars :
    {a b c d p q r t : ℕ} → a ≡ p → b ≡ q → c ≡ r → d ≡ t → a ∷ b ∷ c ∷ d ∷ [] ≡ p ∷ q ∷ r ∷ t ∷ []
four_chars e f g h = rw (e, f, g, h) refl

joined :
    {y m d y1 m1 d1 : JsString}
    → y ≡ y1
    → m ≡ m1
    → d ≡ d1
    → y ++ (b'-' ∷ (m ++ (b'-' ∷ d))) ≡ y1 ++ (b'-' ∷ (m1 ++ (b'-' ∷ d1)))
joined e f g = rw (e, f, g) refl

four_digits-value : (s : JsString) → IsDigits 4 s → four_digits (decimal_value s) ≡ s
four_digits-value [] (e, h) = absurd (omega arith)
four_digits-value (a ∷ []) (e, h) = absurd (omega arith)
four_digits-value (a ∷ b ∷ []) (e, h) = absurd (omega arith)
four_digits-value (a ∷ b ∷ c ∷ []) (e, h) = absurd (omega arith)
four_digits-value (a ∷ b ∷ c ∷ d ∷ []) (e, (p, (q, (r, (t, _))))) =
    four_chars (ground arith) (ground arith) (ground arith) (ground arith)
four_digits-value (a ∷ b ∷ c ∷ d ∷ f ∷ s) (e, h) = absurd (omega arith)

two_digits-value : (s : JsString) → IsDigits 2 s → two_digits (decimal_value s) ≡ s
two_digits-value [] (e, h) = absurd (omega arith)
two_digits-value (a ∷ []) (e, h) = absurd (omega arith)
two_digits-value (a ∷ b ∷ []) (e, (p, (q, _))) = ground arith
two_digits-value (a ∷ b ∷ c ∷ s) (e, h) = absurd (omega arith)

-- The calendar day and the time of day that a timestamp names.
pub record IsInstant (s : Stamp) : Type 0 where
  pub stamp : IsStamp s
  pub day : IsDay (decimal_value s.year) (decimal_value s.month) (decimal_value s.day)
  pub time : IsTime (decimal_value s.hour) (decimal_value s.minute) (decimal_value s.second)

-- The date picker shows the calendar day that is written in the timestamp, whatever its time and
-- whatever the reader's time zone: years from 100 to 9999.
pub ldap_timestamp_to_date_string-stamp_text :
    (s : Stamp) (rest : JsString)
    → IsInstant s
    → ldap_timestamp_to_date_string (stamp_text s rest)
      ≡ s.year ++ (b'-' ∷ (s.month ++ (b'-' ∷ s.day)))
unfolding ldap_timestamp_to_date_string
ldap_timestamp_to_date_string-stamp_text s rest h =
    rw (parse-stamp_text s rest h.stamp, ldap_timestamp_to_date_string)
      (iso_date-date_utc _ _ _ _ _ _ h.day h.time
        ∙ joined (four_digits-value s.year h.stamp.year) (two_digits-value s.month h.stamp.month)
            (two_digits-value s.day h.stamp.day))

-- The hour, minute and second of an instant are those of its timestamp.
time_of-date_utc :
    (y mo d h m s : ℕ)
    → IsTime h m s
    → (utc_hours (date_utc y mo d h m s) ≡ h)
      × (utc_minutes (date_utc y mo d h m s) ≡ m)
      × (utc_seconds (date_utc y mo d h m s) ≡ s)
unfolding date_utc
time_of-date_utc y mo d h m s t = (
  omega (arith, t.hours, t.minutes, t.seconds),
  omega (arith, t.hours, t.minutes, t.seconds),
  omega (arith, t.hours, t.minutes, t.seconds),
)

-- An expiry is shown as its day alone exactly when it falls on the last second of a day in UTC;
-- any other one is shown with its time, so that no part of a stored instant is dropped.
pub format_expiry_date-stamp_text :
    (day_of time_of : ℕ → JsString) (s : Stamp) (rest : JsString)
    → IsInstant s
    → format_expiry_date day_of time_of (stamp_text s rest) ≡ (
        if decimal_value s.hour == 23
          && decimal_value s.minute == 59
          && decimal_value s.second == 59
        then day_of (instant_of s)
        else day_of (instant_of s) ++ (text ", " ++ (time_of (instant_of s) ++ text " UTC")))
unfolding format_expiry_date
format_expiry_date-stamp_text day_of time_of s rest h =
    let (hh, mm, ss) =
      time_of-date_utc (decimal_value s.year) (decimal_value s.month) (decimal_value s.day) _ _ _
        h.time in
    rw (parse-stamp_text s rest h.stamp, format_expiry_date, hh, mm, ss)
