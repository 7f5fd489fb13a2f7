-- ===== src/Tsv/RoundTrip.antt =====
-- A DATETIME on its way into a chunk and out of it (toDateTimeCAS and fromDateTimeCAS of
-- hdat/common.hpp).
use mathlib.Core.Path.{ap₂}
use sas_libclient.Base.{
  ℕ, ◌+◌, ◌-◌, ◌*◌, ◌/◌, ◌%◌, ◌<◌, ◌≡◌, refl, ◌∙◌, ap, Bool, true, false, if◌then◌else◌, ℤ, pos,
  negsuc, ◌-ℤ◌, leb_ℤ, ok, arith, leb→le, to_int64_small, ◌^◌,
}
use sas_libclient.Hdat.Calendar.{
  MysqlTime, timegm, zero_time_cas, is_error_time, scale_seconds, to_date_time_cas,
}
use sas_libclient.Tsv.Times.{split_cas, quot, rem}

abbrev seconds_of : MysqlTime → ℤ
seconds_of dt = timegm dt.year dt.month dt.day dt.hour dt.minute dt.second

zero_time_cas_lem : zero_time_cas ≡ negsuc 315619199
unfolding zero_time_cas
zero_time_cas_lem = refl

quotient : (n r : ℕ) → r < 1000000 → (n * 1000000 + r) / 1000000 ≡ n
quotient n r small = omega arith

remainder : (n r : ℕ) → r < 1000000 → (n * 1000000 + r) % 1000000 ≡ r
remainder n r small = omega arith

shifted_pos : (n : ℕ) → pos n -ℤ negsuc 315619199 ≡ pos (n + 315619200)
unfolding ◌-ℤ◌
shifted_pos n = ground arith

shifted_negsuc : (m : ℕ) → m < 315619200 → negsuc m -ℤ negsuc 315619199 ≡ pos (315619199 - m)
unfolding ◌-ℤ◌
shifted_negsuc m after = ground arith

back_pos : (n : ℕ) → pos (n + 315619200) -ℤ pos 315619200 ≡ pos n
unfolding ◌-ℤ◌
back_pos n = ground arith

back_negsuc : (m : ℕ) → m < 315619200 → pos (315619199 - m) -ℤ pos 315619200 ≡ negsuc m
unfolding ◌-ℤ◌
back_negsuc m after = ground arith

split_scaled :
    (k part : ℕ)
    → part < 1000000
    → split_cas (pos (k * 1000000 + part)) ≡ (pos k -ℤ pos 315619200, part)
unfolding split_cas quot rem
split_scaled k part small =
    ap₂ (λ a b. (pos a -ℤ pos 315619200, b)) (quotient k part small) (remainder k part small)

-- 9999-12-31 23:59:59
abbrev pub last_second : ℕ
last_second = 253402300799

scaled_small :
    (n part : ℕ)
    → leb_ℤ (pos n) (pos last_second) ≡ true
    → part < 1000000
    → (n + 315619200) * 1000000 + part < 2 ^ 63
scaled_small n part before small = let h = leb→le (n + 0) last_second before in omega (arith, h)

scaled :
    (t : ℤ) (part : ℕ)
    → leb_ℤ (negsuc 315619199) t ≡ true
    → leb_ℤ t (pos last_second) ≡ true
    → part < 1000000
    → (v : ℤ) × (scale_seconds (t -ℤ negsuc 315619199) part ≡ ok v) × (split_cas v ≡ (t, part))
unfolding scale_seconds
scaled (pos n) part after before small = (
  pos ((n + 315619200) * 1000000 + part),
  ap (λ s. scale_seconds s part) (shifted_pos n)
      ∙ ap ok
          (to_int64_small ((n + 315619200) * 1000000 + part) (scaled_small n part before small)),
  split_scaled (n + 315619200) part small ∙ ap (λ s. (s, part)) (back_pos n),
)
scaled (negsuc m) part after before small = (
  pos ((315619199 - m) * 1000000 + part),
  ap (λ s. scale_seconds s part) (shifted_negsuc m (grind arith))
      ∙ ap ok (to_int64_small ((315619199 - m) * 1000000 + part) (omega arith)),
  split_scaled (315619199 - m) part small ∙ ap (λ s. (s, part)) (back_negsuc m (grind arith)),
)

else_branch : {A : Type 0} (b : Bool) (x y : A) → b ≡ false → (if b then x else y) ≡ y
else_branch b x y is_false = ap (λ c. if c then x else y) is_false

-- A time from 1960 to the end of 9999, other than the second before 1970 that timegm reports an
-- error with, whose microseconds are below a million, is converted to a SAS datetime, and that
-- datetime splits again into the seconds since 1970 and the microseconds of the time.
pub split_cas-to_date_time_cas :
    (dt : MysqlTime)
    → leb_ℤ zero_time_cas (seconds_of dt) ≡ true
    → leb_ℤ (seconds_of dt) (pos last_second) ≡ true
    → is_error_time (seconds_of dt) ≡ false
    → dt.second_part < 1000000
    → (v : ℤ) × (to_date_time_cas dt ≡ ok v) × (split_cas v ≡ (seconds_of dt, dt.second_part))
unfolding to_date_time_cas
split_cas-to_date_time_cas dt after before valid small =
    let (v, made, back) =
      scaled (seconds_of dt) dt.second_part
        (ap (λ z. leb_ℤ z (seconds_of dt)) zero_time_cas_lem ∙ after) before small in
    (
      v,
      else_branch _ _ _ valid
          ∙ ap (λ z. scale_seconds (seconds_of dt -ℤ z) dt.second_part) zero_time_cas_lem
          ∙ made,
      back,
    )
