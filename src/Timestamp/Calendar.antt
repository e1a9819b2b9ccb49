-- ===== src/Timestamp/Calendar.antt =====
-- JavaScript's `Date` in UTC, as far as web/src/lib/utils.ts uses it. An instant is the number of
-- milliseconds since the start of the year 0; the code makes none before the year 99.
use ldapwarden.Prelude.{
  ltb, ◌==◌, if◌then◌else◌, JsString, get_or, ℕ, zero, suc, ◌+◌, ◌-◌, ◌*◌, ◌/◌, ◌%◌, Bool, not,
  ◌&&◌, ◌||◌, [], ◌∷◌, ◌++◌,
}

-- Days before a year, in the proleptic Gregorian calendar.
unfoldable pub days_before_year : ℕ → ℕ
days_before_year y = 365 * y + ((y + 3) / 4 + (y + 399) / 400 - (y + 99) / 100)

abbrev pub is_leap : ℕ → Bool
is_leap y = y % 4 == 0 && (not (y % 100 == 0) || y % 400 == 0)

-- Days of the year before its month, counted from 0.
unfoldable pub days_before_month : Bool → ℕ → ℕ
days_before_month leap m =
    let february = if leap then 29 else 28 in
    if ltb m 2
    then 31 * m
    else 31
      + february
      + get_or (0 ∷ 31 ∷ 61 ∷ 92 ∷ 122 ∷ 153 ∷ 184 ∷ 214 ∷ 245 ∷ 275 ∷ 306 ∷ []) (m - 2) 0

-- `Date.UTC` reads a year below 100 as one of the twentieth century.
abbrev pub full_year : ℕ → ℕ
full_year y = if ltb y 100 then 1900 + y else y

-- The day of a year and of a month counted from 1, which may lie outside 1 to 12, as may the day.
unfoldable pub day_number : ℕ → ℕ → ℕ → ℕ
day_number y month day =
    let year = if month == 0 then y - 1 else y + (month - 1) / 12 in
    let m = if month == 0 then 11 else (month - 1) % 12 in
    days_before_year year + days_before_month (is_leap year) m + day - 1

-- `Date.UTC(year, month - 1, day, hour, minute, second)`.
unfoldable pub date_utc : ℕ → ℕ → ℕ → ℕ → ℕ → ℕ → ℕ
date_utc year month day hour minute second =
    1000 * (86400 * day_number (full_year year) month day + 3600 * hour + 60 * minute + second)

abbrev pub utc_hours : ℕ → ℕ
utc_hours t = t / 3600000 % 24

abbrev pub utc_minutes : ℕ → ℕ
utc_minutes t = t / 60000 % 60

abbrev pub utc_seconds : ℕ → ℕ
utc_seconds t = t / 1000 % 60

-- The year of a day, searched upwards from a year not after it.
unfoldable pub year_from : ℕ → ℕ → ℕ → ℕ
year_from zero y day = y
year_from (suc fuel) y day =
    let later = year_from fuel (suc y) day in
    if ltb day (days_before_year (suc y)) then y else later

-- The month of a day of the year, counted from 0.
unfoldable pub month_from : ℕ → Bool → ℕ → ℕ → ℕ
month_from zero leap m day = m
month_from (suc fuel) leap m day =
    let later = month_from fuel leap (suc m) day in
    if ltb day (days_before_month leap (suc m)) then m else later

abbrev pub digit_text : ℕ → ℕ
digit_text n = n % 10 + b'0'

abbrev pub two_digits : ℕ → JsString
two_digits n = digit_text (n / 10) ∷ digit_text n ∷ []

abbrev pub four_digits : ℕ → JsString
four_digits n = digit_text (n / 1000) ∷ digit_text (n / 100) ∷ two_digits n

-- The year of an ISO date has a sign and six digits from the year 10000.
abbrev pub year_text : ℕ → JsString
year_text y =
    if ltb y 10000
    then four_digits y
    else b'+' ∷ digit_text (y / 100000) ∷ digit_text (y / 10000) ∷ four_digits y

-- The ISO date of a day of a year, whose month is found.
abbrev pub iso_text : ℕ → ℕ → ℕ → JsString
iso_text year rest month =
    year_text year
    ++ (b'-'
        ∷ (two_digits (suc month)
            ++ (b'-' ∷ two_digits (suc (rest - days_before_month (is_leap year) month)))))

abbrev pub iso_day : ℕ → ℕ → JsString
iso_day year rest = iso_text year rest (month_from 11 (is_leap year) 0 rest)

abbrev pub iso_year : ℕ → ℕ → JsString
iso_year day year = iso_day year (day - days_before_year year)

-- `toISOString().split('T')[0]`. A year has at least 365 days, so the fuel is enough, by
-- `year_lem` of Timestamp/CalendarLaws.
unfoldable pub iso_date : ℕ → JsString
iso_date t = let day = t / 86400000 in iso_year day (year_from (suc (day / 365)) 0 day)
