-- ===== src/Timestamp/Tests.antt =====
-- The theorems on timestamps at the last second of a leap day.
use ldapwarden.Prelude.{leb, IsDecimalDigit, text, ℕ, ◌≡◌, refl, true, ◌&&◌, some, arith}
use ldapwarden.Timestamp.Parse.{ldap_timestamp_to_date_string, parse_ldap_timestamp}
use ldapwarden.Timestamp.Calendar.{days_before_month}
use ldapwarden.Timestamp.DateText.{
  Stamp, IsStamp, IsInstant, instant_of, parse-stamp_text, ldap_timestamp_to_date_string-stamp_text,
}

abbrev leap_day : Stamp
leap_day = record {
  year = text "2024";
  month = text "02";
  day = text "29";
  hour = text "23";
  minute = text "59";
  second = text "59";
}

IsDecimalDigit-of : (c : ℕ) → leb b'0' c && leb c b'9' ≡ true → IsDecimalDigit c
IsDecimalDigit-of c h = ground arith

leap_day-IsStamp : IsStamp leap_day
leap_day-IsStamp = record {
  year = (
    refl,
    (
      IsDecimalDigit-of _ refl,
      (IsDecimalDigit-of _ refl, (IsDecimalDigit-of _ refl, (IsDecimalDigit-of _ refl, tt))),
    ),
  );
  month = (refl, (IsDecimalDigit-of _ refl, (IsDecimalDigit-of _ refl, tt)));
  day = (refl, (IsDecimalDigit-of _ refl, (IsDecimalDigit-of _ refl, tt)));
  hour = (refl, (IsDecimalDigit-of _ refl, (IsDecimalDigit-of _ refl, tt)));
  minute = (refl, (IsDecimalDigit-of _ refl, (IsDecimalDigit-of _ refl, tt)));
  second = (refl, (IsDecimalDigit-of _ refl, (IsDecimalDigit-of _ refl, tt)));
}

leap_day-IsInstant : IsInstant leap_day
unfolding days_before_month
leap_day-IsInstant = record {
  stamp = leap_day-IsStamp;
  day = record {
    year_from_100 = omega arith;
    year_to_9999 = omega arith;
    month_from_1 = omega arith;
    month_to_12 = omega arith;
    day_from_1 = omega arith;
    day_in_month = omega arith;
  };
  time = record { hours = omega arith; minutes = omega arith; seconds = omega arith };
}

parse-stamp_text_example :
    parse_ldap_timestamp (text "20240229235959Z") ≡ some (instant_of leap_day)
parse-stamp_text_example = parse-stamp_text leap_day (text "Z") leap_day-IsStamp

ldap_timestamp_to_date_string-stamp_text_example :
    ldap_timestamp_to_date_string (text "20240229235959Z") ≡ text "2024-02-29"
ldap_timestamp_to_date_string-stamp_text_example =
    ldap_timestamp_to_date_string-stamp_text leap_day (text "Z") leap_day-IsInstant
