-- ===== src/Prelude/Time.antt =====
-- `Date`: an instant is its number of milliseconds since 1970, from 0 on.
use Prim.Native.Nat.{ℕ, ◌+◌, ◌-◌, ◌*◌, ◌/◌, ◌%◌}
use Prim.Native.String.{String, ◌++◌}
use mathlib.Core.Path.{◌≡◌, refl}
use attest.Prelude.Tests.{ltb, if◌then◌else◌}
use attest.Prelude.Text.{decimal}

-- The last instant that a `Date` can hold.
abbrev pub max_time : ℕ
max_time = 8640000000000000

pub record CivilDate : Type 0 where
  pub year : ℕ
  pub month : ℕ
  pub day : ℕ

-- Years are counted from March, in eras of 400 years, so that the leap day is the last of its year.
abbrev date_in_era : ℕ → ℕ → CivilDate
date_in_era era day_of_era =
    let year = (day_of_era - day_of_era / 1460 + day_of_era / 36524 - day_of_era / 146096) / 365 in
    let day = day_of_era - (365 * year + year / 4 - year / 100) in
    let month = (5 * day + 2) / 153 in
    record {
      year = year + era * 400 + (if ltb month 10 then 0 else 1);
      month = if ltb month 10 then month + 3 else month - 9;
      day = day - (153 * month + 2) / 5 + 1;
    }

unfoldable pub civil_date : ℕ → CivilDate
civil_date days = date_in_era ((days + 719468) / 146097) ((days + 719468) % 146097)

abbrev two_digits : ℕ → String
two_digits n = if ltb n 10 then "0" ++ decimal n else decimal n

abbrev three_digits : ℕ → String
three_digits n = if ltb n 100 then "0" ++ two_digits n else decimal n

abbrev year_digits : ℕ → String
year_digits y =
    if ltb y 10000 then decimal y else if ltb y 100000 then "+0" ++ decimal y else "+" ++ decimal y

-- `date.toISOString()`
unfoldable pub iso_string : ℕ → String
unfolding civil_date
iso_string t =
    let date = civil_date (t / 86400000) in
    year_digits date.year
    ++ "-"
    ++ two_digits date.month
    ++ "-"
    ++ two_digits date.day
    ++ "T"
    ++ two_digits (t / 3600000 % 24)
    ++ ":"
    ++ two_digits (t / 60000 % 60)
    ++ ":"
    ++ two_digits (t / 1000 % 60)
    ++ "."
    ++ three_digits (t % 1000)
    ++ "Z"

new_year : iso_string 1767225600000 ≡ "2026-01-01T00:00:00.000Z"
unfolding iso_string decimal
new_year = refl

leap_day : iso_string 1709251199999 ≡ "2024-02-29T23:59:59.999Z"
unfolding iso_string decimal
leap_day = refl

last_instant : iso_string max_time ≡ "+275760-09-13T00:00:00.000Z"
unfolding iso_string decimal
last_instant = refl
