-- ===== src/Util/Calendar.antt =====
-- util/timer.go: the next 5 o'clock of a day and of a week, and days between two times. `zone` is how
-- many seconds the location is east of Greenwich: a location of one offset, as Asia/Shanghai has
-- had since 1991. Instants are from the second local day of 1970 on. Times are in milliseconds since
-- 1970, as far as package time represents them in nanoseconds; `now` is the clock.
pub mod Days
pub mod Weeks
pub mod Months
mod Tests
use rocommon.Prelude.{
  ℕ, zero, suc, ◌+◌, ◌-◌, ◌*◌, ◌/◌, ◌%◌, Bool, true, false, ltb, leb, ◌==◌, ◌&&◌, if◌then◌else◌,
}
use rocommon.Text.{ℤ, pos, negsuc}

-- An instant in seconds: the local day since 1970-01-01, its hour, and its day of the week, which
-- was a Thursday on the first.
abbrev pub day : ℕ → ℕ → ℕ
day zone t = (t + zone) / 86400

abbrev pub hour : ℕ → ℕ → ℕ
hour zone t = (t + zone) % 86400 / 3600

abbrev pub weekday : ℕ → ℕ → ℕ
weekday zone t = (day zone t + 4) % 7

-- `Format(DATE_FORMAT1)` and the parsing of it: the instant at which a local day begins.
abbrev pub day_start : ℕ → ℕ → ℕ
day_start zone d = d * 86400 - zone

-- `GetLatest5Hour`.
unfoldable pub get_latest_5_hour : ℕ → ℕ → ℕ
get_latest_5_hour zone now =
    let t = now / 1000 in
    if ltb (hour zone t) 5
    then (day_start zone (day zone t) + 5 * 3600) * 1000
    else (let next = day_start zone (day zone t) + 24 * 3600 in
        (day_start zone (day zone next) + 5 * 3600) * 1000)

-- `GetLatestWeek5Hour`: at 0 the clock is taken.
pub days_to_monday : ℕ → ℕ → ℕ
days_to_monday zone t =
    let cur = if weekday zone t == 0 then 7 else weekday zone t in
    if cur == 1 then (if leb 5 (hour zone t) then 7 else 0) else 7 - cur + 1

pub get_latest_week_5_hour : ℕ → ℕ → ℕ → ℕ
unfolding days_to_monday
get_latest_week_5_hour zone now ms =
    let t = (if ltb 0 ms then ms else now) / 1000 in
    (day_start zone (day zone (t + days_to_monday zone t * 86400)) + 5 * 3600) * 1000

-- `IsInSameWeek`.
pub is_in_same_week : ℕ → ℕ → ℕ → ℕ → Bool
unfolding get_latest_week_5_hour
is_in_same_week zone now t1 t2 =
    if ltb t2 t1
    then false
    else (let end = get_latest_week_5_hour zone now t1 in leb t1 end && ltb end t2)

-- The seconds from one instant to another.
abbrev seconds_between : ℕ → ℕ → ℤ
seconds_between a b = if leb a b then pos (b - a) else negsuc (a - b - 1)

-- Whole days of seconds: `Hours() / 24` is exact between day starts.
whole_days : ℤ → ℤ
whole_days (pos n) = pos (n / 86400)
whole_days (negsuc n) = negsuc ((n + 1) / 86400 - 1)

plus : ℤ → ℕ → ℤ
plus (pos a) n = pos (a + n)
plus (negsuc a) n = if ltb a n then pos (n - a - 1) else negsuc (a - n)

-- `GetDurationDay`, of the instants that its texts stand for.
pub get_duration_day : ℕ → ℕ → ℕ → ℤ
get_duration_day zone s1 s2 =
    seconds_between (day_start zone (day zone s1)) (day_start zone (day zone s2))

-- `GetDurationDay1`.
pub get_duration_day1 : ℕ → ℕ → ℕ → ℤ
unfolding whole_days get_duration_day
get_duration_day1 zone t1 t2 = whole_days (get_duration_day zone (t1 / 1000) (t2 / 1000))

-- `GetDurationDay2`.
pub get_duration_day2 : ℕ → ℕ → ℕ → ℤ
unfolding plus get_duration_day1
get_duration_day2 zone t1 t2 =
    let before = if ltb (hour zone (t1 / 1000)) 5 then 1 else 0 in
    let after = if leb 5 (hour zone (t2 / 1000)) then 1 else 0 in
    plus (plus (get_duration_day1 zone t1 t2) before) after
