-- ===== src/Rtc/Tests.antt =====
-- Dates and times at some values, and the theorems about them there.
use qoraal.Base.{◌≡◌, refl, arith}
use qoraal.Rtc.{Time, localtime, get_jday, get_gdate, local_date, mktime}
use qoraal.Rtc.Calendar.{mktime-localtime}

-- The first of January 1970, and the last day of February 2024, both ways
epoch :
    (get_jday (record { day = 1; month = 1; year = 1970 }) ≡ 2440588)
    × (get_gdate 2440588 ≡ record { day = 1; month = 1; year = 1970 })
    × (get_jday (record { day = 29; month = 2; year = 2024 }) ≡ 2460370)
    × (get_gdate 2460370 ≡ record { day = 29; month = 2; year = 2024 })
unfolding get_jday get_gdate
epoch = (refl, refl, refl, refl)

-- Two seconds before midnight
abbrev late : Time
late = record { second = 58; minute = 59; hour = 23; day = 0 }

abbrev early : Time
early = record { second = 1; minute = 0; hour = 0; day = 0 }

mktime-localtime_example : mktime (local_date 1700000000) (localtime 1700000000) ≡ 1700000000
mktime-localtime_example = mktime-localtime 1700000000 (omega arith)
