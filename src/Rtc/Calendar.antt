-- ===== src/Rtc/Calendar.antt =====
-- Day numbers and dates in src/common/rtclib.c.
use qoraal.Base.{
  ℕ, ◌+◌, ◌-◌, ◌*◌, ◌/◌, ◌≡◌, ◌≤◌, ◌<◌, refl, inl, inr, Bool-cases, ltb, if◌then◌else◌, arith,
}
use qoraal.Tasks.{word}
use qoraal.Rtc.{get_jday, get_gdate, epoch_gday, localtime, local_date, mktime}
use qoraal.Rtc.Clock.{localtime-IsTime}

-- The month and day of a day `l` of a year that begins in March, counted from 31.
month_part :
    (l : ℕ)
    → 31 ≤ l
    → l < 397
    → let j = 80 * l / 2447 in
      let m = j + 2 - 12 * (j / 11) in
      (l - 2447 * j / 80 + 367 * (m + (14 - m) / 12 * 12 - 2) / 12 ≡ l)
      × ((14 - m) / 12 ≡ j / 11)
      × (l - 2447 * j / 80 < 256)
      × (m < 13)
      × (0 < m)
month_part l a b = (omega arith, omega arith, omega arith, omega arith, omega arith)

-- The days before a century of the Gregorian calendar, which begins in March of the year 0.
century_part :
    (l n : ℕ) → n ≡ 4 * l / 146097 → (l - (146097 * n + 3) / 4 < 36525) × ((146097 * n + 3) / 4 ≤ l)
century_part l n e = (omega arith, omega arith)

-- The same for a year of the century.
year_part :
    (l i : ℕ)
    → l < 36525
    → i ≡ 4000 * (l + 1) / 1461001
    → (i < 100) × (31 ≤ l + 31 - 1461 * i / 4) × (1461 * i / 4 ≤ l) × (l + 31 - 1461 * i / 4 < 397)
year_part l i h e = (omega arith, omega arith, omega arith, omega arith)

-- `rtc_get_jday` takes the date that `rtc_get_gdate` finds for a day number back to that number, for
-- the numbers from 1721120, in the year 0, to 25000000.
pub get_jday-get_gdate :
    (jday : ℕ) → 1721120 ≤ jday → jday < 25000000 → get_jday (get_gdate jday) ≡ jday
unfolding get_jday get_gdate
get_jday-get_gdate jday a b =
    let l1 = jday + 68569 in
    let n = 4 * l1 / 146097 in
    let l2 = l1 - (146097 * n + 3) / 4 in
    let i = 4000 * (l2 + 1) / 1461001 in
    let l3 = l2 + 31 - 1461 * i / 4 in
    let j = 80 * l3 / 2447 in
    let l4 = j / 11 in
    let (c, c') = century_part l1 n refl in
    let (y, y1, y2, y3) = year_part l2 i c refl in
    let (m, m1, m2, m3, m4) = month_part l3 y1 y3 in
    omega (arith, c, c', y, y1, y2, y3, m, m1, m2, m3, m4)

days_since : (q e : ℕ) → (if ltb e (q + e) then q + e - e else 0) ≡ q
days_since q e = elim (Bool-cases (ltb e (q + e))) [
  | inl b ↦ rw b (omega arith)
  | inr b ↦ rw b (ground arith)
]

-- `rtc_mktime` takes the date and the time that `rtc_localtime` stores back to the timestamp, for
-- every timestamp of 32 bits.
pub mktime-localtime :
    (timestamp : ℕ)
    → timestamp < word
    → mktime (local_date timestamp) (localtime timestamp) ≡ timestamp
unfolding mktime local_date
mktime-localtime timestamp h =
    let d = get_jday-get_gdate (timestamp / 86400 + epoch_gday) (omega arith) (omega (arith, h)) in
    let (v, t) = localtime-IsTime timestamp in
    rw (d, days_since (timestamp / 86400) epoch_gday) (omega (arith, t, h))
