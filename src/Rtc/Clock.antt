-- ===== src/Rtc/Clock.antt =====
-- The arithmetic of times of day in src/common/rtclib.c.
use qoraal.Base.{
  ℕ, ◌+◌, ◌*◌, ◌/◌, ◌%◌, ◌≡◌, ◌≤◌, ◌<◌, ◌⊎◌, inl, inr, ltb, if◌then◌else◌, Bool-cases, arith,
}
use qoraal.Rtc.{Time, localtime, time_add, seconds_diff, since_midnight, set_alarm_max}

-- A time of day.
abbrev pub IsTime : Time → Type 0
IsTime t = (t.second < 60) × (t.minute < 60) × (t.hour < 24)

-- `rtc_localtime` gives a time of day, that of the seconds since the last midnight.
pub localtime-IsTime :
    (timestamp : ℕ)
    → IsTime (localtime timestamp) × (since_midnight (localtime timestamp) ≡ timestamp % 86400)
unfolding localtime
localtime-IsTime timestamp = ((omega arith, omega arith, omega arith), omega arith)

-- The carries of an addition of `n` seconds to a time of day, in numbers.
carries :
    (a b c n : ℕ)
    → a < 60
    → b < 60
    → c < 24
    → let x = (a + n % 60) % 256 in
      let y = (b + n / 60 % 60 + x / 60) % 256 in
      let z = (c + n / 60 / 60 % 24 + y / 60) % 256 in
      c * 3600 + b * 60 + a + n
      ≡ (n / 60 / 60 / 24 + z / 24) * 86400 + (z % 24 * 3600 + y % 60 * 60 + x % 60)
carries a b c n p q r =
    let x : (a + n % 60) % 256 ≡ a + n % 60 = omega arith in
    let y : (b + n / 60 % 60 + (a + n % 60) / 60) % 256 ≡ b + n / 60 % 60 + (a + n % 60) / 60 =
      omega arith in
    rw (x, y) (omega (arith, p, q, r))

-- Up to half a week, `rtc_time_add` gives the time of day so many seconds later, with the days that
-- have passed counted in a byte; a longer time is cut down to half a week.
pub time_add-since_midnight :
    (from : Time) (seconds : ℕ)
    → IsTime from
    → let s = if ltb set_alarm_max seconds then set_alarm_max else seconds in
      IsTime (time_add from seconds)
      × (since_midnight (time_add from seconds) ≡ (since_midnight from + s) % 86400)
      × ((time_add from seconds).day ≡ (from.day + (since_midnight from + s) / 86400) % 256)
unfolding time_add
time_add-since_midnight from seconds (a, b, c) =
    let s = if ltb set_alarm_max seconds then set_alarm_max else seconds in
    (
      (omega arith, omega arith, omega arith),
      omega (arith, carries from.second from.minute from.hour s a b c),
      ground (arith, carries from.second from.minute from.hour s a b c),
    )

-- On one day `rtc_seconds_diff` is the time from the first to the second; over midnight it is 3660
-- seconds more than that.
pub seconds_diff-since_midnight :
    (time1 time2 : Time)
    → IsTime time1
    → IsTime time2
    → ((since_midnight time1 ≤ since_midnight time2)
        × (since_midnight time1 + seconds_diff time1 time2 ≡ since_midnight time2))
      ⊎ ((since_midnight time2 < since_midnight time1)
          × (since_midnight time1 + seconds_diff time1 time2 ≡ since_midnight time2 + 86400 + 3660))
unfolding seconds_diff
seconds_diff-since_midnight time1 time2 v w =
    elim (Bool-cases (ltb (since_midnight time2) (since_midnight time1))) [
      | inl e ↦ rw e (inr (ground arith, omega (arith, v.0, v.1, v.2)))
      | inr e ↦ rw e (inl (ground arith, ground arith))
    ]
