-- ===== src/Hdat/Calendar.antt =====
-- toTimeCAS, toDateCAS and toDateTimeCAS of hdat/common.hpp, and the part of timegm that they use.
use sas_libclient.Base.{
  ℕ, zero, suc, ◌+◌, ◌-◌, ◌*◌, ◌/◌, ◌%◌, ◌≢◌, Bool, true, false, ◌&&◌, ◌||◌, not, List, [], ◌∷◌,
  ◌==◌, leb, if◌then◌else◌, get_or, ℤ, pos, negsuc, ◌-ℤ◌, sub_ℕ, u32, to_int64, text, Outcome, ok,
  fault, s2_throw, error_inv_arg, arith,
}

-- MYSQL_TIME of the MySQL client library, as its header declares it.
pub record MysqlTime : Type 0 where
  pub year : ℕ
  pub month : ℕ
  pub day : ℕ
  pub hour : ℕ
  pub minute : ℕ
  pub second : ℕ
  pub second_part : ℕ
  pub neg : Bool

abbrev pub sec_to_micro_sec : ℕ
sec_to_micro_sec = 1000000

pub is_leap : ℕ → Bool
is_leap y = y % 4 == 0 && (not (y % 100 == 0) || y % 400 == 0)

-- Days before 1 January of year `y`, counted from year 0.
days_before_year : ℕ → ℕ
days_before_year y = 365 * y + (y + 3) / 4 - (y + 99) / 100 + (y + 399) / 400

-- Days before month `m` (January is 0) in a common year.
abbrev month_starts : List ℕ
month_starts = 0 ∷ 31 ∷ 59 ∷ 90 ∷ 120 ∷ 151 ∷ 181 ∷ 212 ∷ 243 ∷ 273 ∷ 304 ∷ 334 ∷ []

days_before_month : ℕ → ℕ → ℕ
unfolding is_leap
days_before_month y m = get_or month_starts m 0 + (if leb 2 m && is_leap y then 1 else 0)

-- The month before January is December of the year before, as timegm normalises it. Years are
-- shifted by 400, a whole cycle of the calendar, so that no count falls below 0.
civil_days : ℕ → ℕ → ℕ → ℕ
unfolding days_before_year days_before_month
civil_days year month day =
    let months = (year + 400) * 12 + month - 1 in
    days_before_year (months / 12) + days_before_month (months / 12) (months % 12) + day - 1

-- Seconds from 1970-01-01 00:00:00 UTC to the broken-down time; `year` and `month` are those of
-- MYSQL_TIME, `tm_year + 1900` and `tm_mon + 1`.
pub timegm : ℕ → ℕ → ℕ → ℕ → ℕ → ℕ → ℤ
unfolding civil_days
timegm year month day hour minute second =
    sub_ℕ (civil_days year month day * 86400 + hour * 3600 + minute * 60 + second)
      (civil_days 1970 1 1 * 86400)

-- zeroTimeCAS
unfoldable pub zero_time_cas : ℤ
unfolding timegm
zero_time_cas = timegm 1960 1 1 0 0 0

-- The product is of `unsigned int`, before the multiplication by an `int64_t`.
pub to_time_cas : MysqlTime → ℤ
unfolding ◌-ℤ◌
to_time_cas dt =
    let time_val =
      dt.second_part + sec_to_micro_sec * u32 (dt.second + dt.minute * 60 + dt.hour * 3600) in
    if dt.neg then pos 0 -ℤ pos time_val else pos time_val

-- `inputDate == time_t(-1)`
unfoldable pub is_error_time : ℤ → Bool
is_error_time (pos n) = false
is_error_time (negsuc zero) = true
is_error_time (negsuc (suc n)) = false

-- The conversion of a double to an integer drops the fraction.
quot : ℤ → ℕ → ℤ
quot (pos n) k = pos (n / k)
quot (negsuc n) k = sub_ℕ 0 (suc n / k)

pub to_date_cas : MysqlTime → Outcome ℤ
unfolding ◌-ℤ◌ zero_time_cas is_error_time quot
to_date_cas dt =
    let input_date = timegm dt.year dt.month dt.day 0 0 0 in
    if is_error_time input_date
    then s2_throw error_inv_arg (text "Invalid Date read from DB")
    else ok (quot (input_date -ℤ zero_time_cas) (3600 * 24))

-- `(ino64_t)difftime(...)`: a negative double has no value of that unsigned type (undefined). The
-- product and the sum are of 64 bits without a sign, and the result is an `int64_t`. A double is exact
-- up to 2^53 seconds, some 285 million years.
unfoldable pub scale_seconds : ℤ → ℕ → Outcome ℤ
scale_seconds (pos n) part = ok (to_int64 (n * sec_to_micro_sec + part))
scale_seconds (negsuc n) part = fault

unfoldable pub to_date_time_cas : MysqlTime → Outcome ℤ
unfolding ◌-ℤ◌ zero_time_cas is_error_time scale_seconds
to_date_time_cas dt =
    let input_date = timegm dt.year dt.month dt.day dt.hour dt.minute dt.second in
    if is_error_time input_date
    then s2_throw error_inv_arg (text "Invalid Date read from DB")
    else scale_seconds (input_date -ℤ zero_time_cas) dt.second_part

-- A date is converted or refused.
pub to_date_cas_defined : (dt : MysqlTime) → to_date_cas dt ≢ fault
unfolding to_date_cas
to_date_cas_defined dt = ground arith
