-- ===== src/Tsv/Times.antt =====
-- fromTimeCAS, fromDateCAS and fromDateTimeCAS (hdat/common.hpp).
use sas_libclient.Base.{
  ℕ, suc, ◌+◌, ◌-◌, ◌*◌, ◌/◌, ◌%◌, [], ◌∷◌, ◌++◌, ◌==◌, if◌then◌else◌, ℤ, pos, negsuc, ◌-ℤ◌, sub_ℕ,
  Text, to_text, u32, length, replicate,
}
use sas_libclient.Tsv.Quoted.{show_int, signed}

-- `/` and `%` of C++ round toward zero; the sign of the remainder is that of the dividend.
unfoldable pub quot : ℤ → ℕ → ℤ
quot (pos n) k = pos (n / k)
quot (negsuc n) k = sub_ℕ 0 (suc n / k)

unfoldable pub rem : ℤ → ℕ → ℤ
rem (pos n) k = pos (n % k)
rem (negsuc n) k = sub_ℕ 0 (suc n % k)

abbrev abs : ℤ → ℕ
abs (pos n) = n
abs (negsuc n) = suc n

-- std::setfill('0') << std::setw(6), and "%06d" of a number that is not negative.
unfoldable pub six_digits : ℕ → Text
six_digits n = let s = to_text n in replicate (6 - length s) b'0' ++ s

abbrev sec_to_micro_sec : ℕ
sec_to_micro_sec = 1000000

abbrev pub day_to_sec : ℕ
day_to_sec = 86400

-- CASshiftSec: the ten years from 1960 to 1970, three of them leap years.
abbrev pub cas_shift_sec : ℕ
cas_shift_sec = 3653 * 86400

unfoldable pub from_time_cas : ℤ → Text
unfolding show_int signed quot rem six_digits
from_time_cas cas_time =
    let total_seconds = abs cas_time / sec_to_micro_sec in
    let microseconds = abs cas_time % sec_to_micro_sec in
    let total_minutes = quot (signed 32 (u32 total_seconds)) 60 in
    let sign : Text = elim cas_time [ pos n ↦ [] | negsuc n ↦ b'-' ∷ [] ] in
    sign
    ++ (show_int (quot total_minutes 60)
        ++ (b':' ∷ show_int (rem total_minutes 60)
            ++ (b':' ∷ to_text (total_seconds % 60) ++ (b'.' ∷ six_digits microseconds))))

-- The formats of strftime over gmtime, from a time in seconds: dateFormat and dateTimeFormat.
pub record Formats : Type 0 where
  pub date : ℤ → Text
  pub date_time : ℤ → Text
  -- sprintf of a double with "%.17e", from its bits.
  pub double : ℕ → Text

unfoldable pub from_date_cas : Formats → ℤ → Text
from_date_cas formats (pos n) = formats.date (sub_ℕ (n * day_to_sec) cas_shift_sec)
from_date_cas formats (negsuc n) = formats.date (sub_ℕ 0 (suc n * day_to_sec + cas_shift_sec))

-- The seconds since 1970 and the microseconds, which are not negative.
unfoldable pub split_cas : ℤ → ℤ × ℕ
unfolding quot rem ◌-ℤ◌
split_cas dt = elim (rem dt sec_to_micro_sec) [
  | pos micro ↦ (quot dt sec_to_micro_sec -ℤ pos cas_shift_sec, micro)
  | negsuc m ↦ (quot dt sec_to_micro_sec -ℤ pos cas_shift_sec -ℤ pos 1, sec_to_micro_sec - suc m)
]

unfoldable pub from_date_time_cas : Formats → ℤ → Text
unfolding split_cas six_digits
from_date_time_cas formats dt =
    let seconds = (split_cas dt).0 in
    let micro_sec = (split_cas dt).1 in
    formats.date_time seconds ++ (if micro_sec == 0 then [] else b'.' ∷ six_digits micro_sec)
