-- ===== src/Rtc.antt =====
-- src/common/rtclib.c and include/qoraal/common/rtclib.h: dates and times of day. The structures are
-- read by their fields; an int32_t intermediate that can be negative is written as the two natural
-- numbers that it is the difference of. The clock (`rtc_get_time`, `rtc_time`) is left out.
pub mod Clock
pub mod Calendar
mod Tests
use qoraal.Base.{ℕ, ◌+◌, ◌-◌, ◌*◌, ◌/◌, ◌%◌, ◌^◌, Bool, true, false, ltb, if◌then◌else◌}
use qoraal.Tasks.{word}

-- `RTCLIB_DATE_T`
pub record Date : Type 0 where
  pub day : ℕ
  pub month : ℕ
  pub year : ℕ

-- `RTCLIB_TIME_T`
pub record Time : Type 0 where
  pub second : ℕ
  pub minute : ℕ
  pub hour : ℕ
  pub day : ℕ

-- `RTCLIB_SET_ALARM_MAX` and `RTCLIB_EPOCH_GDAY`
abbrev pub set_alarm_max : ℕ
set_alarm_max = 604800 / 2 - 1

abbrev pub epoch_gday : ℕ
epoch_gday = 2440588

-- The time that `rtc_localtime` stores.
unfoldable pub localtime : ℕ → Time
localtime timestamp =
    let seconds = timestamp % 86400 in
    let hour = seconds / 3600 in
    let minute = (seconds - hour * 3600) / 60 in
    record { second = seconds - hour * 3600 - minute * 60; minute = minute; hour = hour; day = 0 }

-- `rtc_time_add`, on uint8_t fields
unfoldable pub time_add : Time → ℕ → Time
time_add from seconds =
    let s = if ltb set_alarm_max seconds then set_alarm_max else seconds in
    let minutes = s / 60 in
    let hours = minutes / 60 in
    let days = hours / 24 in
    let second = (from.second + s % 60) % 256 in
    let minute = (from.minute + minutes % 60 + second / 60) % 256 in
    let hour = (from.hour + hours % 24 + minute / 60) % 256 in
    record {
      second = second % 60;
      minute = minute % 60;
      hour = hour % 24;
      day = (from.day + days + hour / 24) % 256;
    }

-- The seconds since midnight.
abbrev pub since_midnight : Time → ℕ
since_midnight t = t.hour * 3600 + t.minute * 60 + t.second

-- `rtc_seconds_diff`: the seconds since midnight of the second time less those of the first. If that
-- is negative, what the first time lacks to 24 hours, to 60 minutes and to 60 seconds is added up to
-- the seconds since midnight of the second.
unfoldable pub seconds_diff : Time → Time → ℕ
seconds_diff time1 time2 =
    if ltb (since_midnight time2) (since_midnight time1)
    then (24 * 3600 + 60 * 60 + 60 + since_midnight time2 + word - since_midnight time1) % word
    else since_midnight time2 - since_midnight time1

-- `rtc_get_jday`
unfoldable pub get_jday : Date → ℕ
get_jday d =
    let back = (14 - d.month) / 12 in
    let ahead = (d.month - 14) / 12 in
    d.day
    + 1461 * (d.year + 4800 + ahead - back) / 4
    + 367 * (d.month + back * 12 - 2 - ahead * 12) / 12
    - 3 * ((d.year + 4900 + ahead - back) / 100) / 4
    - 32075

-- `rtc_get_gdate`
unfoldable pub get_gdate : ℕ → Date
get_gdate jday =
    let l1 = jday + 68569 in
    let n = 4 * l1 / 146097 in
    let l2 = l1 - (146097 * n + 3) / 4 in
    let i = 4000 * (l2 + 1) / 1461001 in
    let l3 = l2 + 31 - 1461 * i / 4 in
    let j = 80 * l3 / 2447 in
    let l4 = j / 11 in
    record {
      day = (l3 - 2447 * j / 80) % 256;
      month = (j + 2 - 12 * l4) % 256;
      year = (100 * n + i + l4 + 2 ^ 16 - 4900) % 2 ^ 16;
    }

-- The date that `rtc_localtime` stores.
unfoldable pub local_date : ℕ → Date
unfolding get_gdate
local_date timestamp = get_gdate (timestamp / 86400 + epoch_gday)

-- `rtc_mktime`
unfoldable pub mktime : Date → Time → ℕ
unfolding get_jday
mktime date time =
    let days = if ltb epoch_gday (get_jday date) then get_jday date - epoch_gday else 0 in
    (days * 86400 + time.hour * 3600 + time.minute * 60 + time.second) % word
