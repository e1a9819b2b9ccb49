-- ===== src/Timestamp/CalendarLaws.antt =====
-- The year, the month and the day of a day number.
use native.Mathlib.Decide.{dec_le}
use ldapwarden.Prelude.{
  ltb, ◌==◌, if◌then◌else◌, Bool-cases, all_below_sound, ltb→lt, ℕ, zero, suc, ◌+◌, ◌-◌, ◌*◌, ◌/◌,
  ◌%◌, ◌≤◌, ◌<◌, ◌≡◌, refl, ap, ◌∙◌, inl, inr, Bool, true, false, ◌∷◌, ◌++◌, arith,
}
use ldapwarden.Timestamp.Calendar.{
  days_before_year, is_leap, days_before_month, full_year, day_number, date_utc, year_from,
  month_from, iso_date, iso_text, iso_day, iso_year, two_digits, four_digits,
}

abbrev year_days : ℕ → ℕ
year_days y = if is_leap y then 366 else 365

year_length : (y : ℕ) → days_before_year (suc y) ≡ days_before_year y + year_days y
unfolding days_before_year
year_length y = ground arith

days_before_year-ge : (y : ℕ) → 365 * y ≤ days_before_year y
unfolding days_before_year
days_before_year-ge y = omega arith

days_before_year_mono : (y z : ℕ) → y ≤ z → days_before_year y ≤ days_before_year z
unfolding days_before_year
days_before_year_mono y z h = omega arith

-- The search finds the year that holds the day, from any earlier year and with enough fuel.
year_from_lem :
    (fuel y z day : ℕ)
    → y ≤ z
    → z < fuel + y
    → days_before_year z ≤ day
    → day < days_before_year (suc z)
    → year_from fuel y day ≡ z
unfolding year_from
year_from_lem zero y z day le f lo hi = absurd (omega arith)
year_from_lem (suc fuel) y z day le f lo hi =
    elim (Bool-cases (ltb day (days_before_year (suc y)))) [
      | inl e ↦
          let before : day < days_before_year (suc y) = ground arith in
          rw e (here (dec_le z y) before)
      | inr e ↦
          let past : days_before_year (suc y) ≤ day = ground arith in
          rw e (year_from_lem fuel (suc y) z day (later (dec_le z y) past) (omega arith) lo hi)
    ]
  where
    here : Dec (z ≤ y) → day < days_before_year (suc y) → y ≡ z
    here (yes h) b = omega arith
    here (no h) b = absurd (omega (arith, days_before_year_mono (suc y) z (omega arith)))

    later : Dec (z ≤ y) → days_before_year (suc y) ≤ day → suc y ≤ z
    later (yes h) b =
        let same : y ≡ z = omega arith in
        absurd (omega (arith, ap (λ (k : ℕ). days_before_year (suc k)) same))
    later (no h) b = omega arith

days_before_month-suc :
    (leap : Bool) (m : ℕ) → m < 12 → days_before_month leap m < days_before_month leap (suc m)
unfolding days_before_month
days_before_month-suc true m h =
    let p =
      all_below_sound 12 (λ k. ltb (days_before_month true k) (days_before_month true (suc k))) m
        refl h in
    ltb→lt _ _ p
days_before_month-suc false m h =
    let p =
      all_below_sound 12 (λ k. ltb (days_before_month false k) (days_before_month false (suc k))) m
        refl h in
    ltb→lt _ _ p

days_before_month_mono :
    (leap : Bool) (k m : ℕ) → k + m ≤ 12 → days_before_month leap m ≤ days_before_month leap (k + m)
days_before_month_mono leap zero m h = let e : m ≡ 0 + m = omega arith in rw (← e) (omega arith)
days_before_month_mono leap (suc k) m h =
    let e : suc (k + m) ≡ suc k + m = omega arith in
    rw (← e) (
      omega (
        arith,
        days_before_month_mono leap k m (omega arith),
        days_before_month-suc leap (k + m) (omega arith),
      ))

month_from_lem :
    (fuel : ℕ) (leap : Bool) (m n day : ℕ)
    → m ≤ n
    → n < 12
    → n ≤ fuel + m
    → days_before_month leap n ≤ day
    → day < days_before_month leap (suc n)
    → month_from fuel leap m day ≡ n
unfolding month_from
month_from_lem zero leap m n day le f g lo hi = omega arith
month_from_lem (suc fuel) leap m n day le f g lo hi =
    elim (Bool-cases (ltb day (days_before_month leap (suc m)))) [
      | inl e ↦ rw e (here (dec_le n m) (ltb→lt _ _ e))
      | inr e ↦
          let past : days_before_month leap (suc m) ≤ day = ground arith in
          rw e
            (month_from_lem fuel leap (suc m) n day (later (dec_le n m) past) f (omega arith) lo hi)
    ]
  where
    mono : suc m ≤ n → days_before_month leap (suc m) ≤ days_before_month leap n
    mono h =
        let e : (n - suc m) + suc m ≡ n = omega arith in
        rw e at (days_before_month_mono leap (n - suc m) (suc m) (omega arith))

    here : Dec (n ≤ m) → day < days_before_month leap (suc m) → m ≡ n
    here (yes h) b = omega arith
    here (no h) b = absurd (omega (arith, mono (omega arith)))

    later : Dec (n ≤ m) → days_before_month leap (suc m) ≤ day → suc m ≤ n
    later (yes h) b =
        let same : m ≡ n = omega arith in
        absurd (omega (arith, ap (λ (k : ℕ). days_before_month leap (suc k)) same))
    later (no h) b = omega arith

-- A day of the calendar, in a year that `Date.UTC` takes as it is.
pub record IsDay (year month day : ℕ) : Type 0 where
  pub year_from_100 : 100 ≤ year
  pub year_to_9999 : year < 10000
  pub month_from_1 : 1 ≤ month
  pub month_to_12 : month ≤ 12
  pub day_from_1 : 1 ≤ day
  pub day_in_month :
      days_before_month (is_leap year) (month - 1) + day
      ≤ days_before_month (is_leap year) (suc (month - 1))

pub record IsTime (hour minute second : ℕ) : Type 0 where
  pub hours : hour < 24
  pub minutes : minute < 60
  pub seconds : second < 60

days_in_year : (leap : Bool) → days_before_month leap 12 ≡ (if leap then 366 else 365)
unfolding days_before_month
days_in_year true = refl
days_in_year false = refl

month_end :
    (leap : Bool) (m : ℕ) → m < 12 → days_before_month leap (suc m) ≤ (if leap then 366 else 365)
month_end leap m h =
    let e : (11 - m) + suc m ≡ 12 = omega arith in
    let all : days_before_month leap (suc m) ≤ days_before_month leap 12 =
      rw e at (days_before_month_mono leap (11 - m) (suc m) (omega arith)) in
    omega (arith, all, days_in_year leap)

module _ (year month day hour minute second : ℕ) (d : IsDay year month day)
    (t : IsTime hour minute second) where
  abbrev the_day : ℕ
  the_day = days_before_year year + (days_before_month (is_leap year) (month - 1) + (day - 1))

  day_number_lem : day_number (full_year year) month day ≡ the_day
  unfolding day_number
  day_number_lem =
      let m : (month - 1) % 12 ≡ month - 1 = omega (arith, d.month_from_1, d.month_to_12) in
      let y : year + (month - 1) / 12 ≡ year = omega (arith, d.month_from_1, d.month_to_12) in
      let full : full_year year ≡ year = ground (arith, d.year_from_100) in
      let dated : (month == 0) ≡ false = ground (arith, d.month_from_1) in
      rw (full, dated, y, m) (omega (arith, d.day_from_1))

  day_of_instant : date_utc year month day hour minute second / 86400000 ≡ the_day
  unfolding date_utc
  day_of_instant = omega (arith, day_number_lem, t.hours, t.minutes, t.seconds)

  within : days_before_month (is_leap year) (month - 1) + day ≤ (if is_leap year then 366 else 365)
  within = omega (
    arith,
    d.day_in_month,
    month_end (is_leap year) (month - 1) (omega (arith, d.month_from_1, d.month_to_12)),
  )

  year_lem : year_from (suc (the_day / 365)) 0 the_day ≡ year
  year_lem =
      year_from_lem _ 0 year the_day (omega arith) (omega (arith, days_before_year-ge year))
        (omega arith) (omega (arith, year_length year, within, d.day_from_1))

  abbrev day_of_year : ℕ
  day_of_year = days_before_month (is_leap year) (month - 1) + (day - 1)

  rest_lem : the_day - days_before_year year ≡ day_of_year
  rest_lem = omega arith

  month_lem : month_from 11 (is_leap year) 0 day_of_year ≡ month - 1
  month_lem =
      month_from_lem 11 (is_leap year) 0 (month - 1) day_of_year (omega arith)
        (omega (arith, d.month_from_1, d.month_to_12))
        (omega (arith, d.month_from_1, d.month_to_12)) (omega arith)
        (omega (arith, d.day_in_month, d.day_from_1))

  -- The ISO date of a calendar day is that day.
  pub iso_date-date_utc :
      iso_date (date_utc year month day hour minute second)
      ≡ four_digits year ++ (b'-' ∷ (two_digits month ++ (b'-' ∷ two_digits day)))
  unfolding iso_date
  iso_date-date_utc =
      let y : ltb year 10000 ≡ true = ground (arith, d.year_to_9999) in
      let m : suc (month - 1) ≡ month = omega (arith, d.month_from_1) in
      let e : suc (day_of_year - days_before_month (is_leap year) (month - 1)) ≡ day =
        omega (arith, d.day_from_1) in
      ap (λ n. iso_year n (year_from (suc (n / 365)) 0 n)) day_of_instant
      ∙ ap (iso_year the_day) year_lem
      ∙ ap (iso_day year) rest_lem
      ∙ ap (iso_text year day_of_year) month_lem
      ∙ rw (y, m, e)
