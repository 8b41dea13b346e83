-- ===== src/Util/Calendar/Days.antt =====
-- Days of util/timer.go that begin at 5 o'clock.
use rocommon.Prelude.{ℕ, ◌+◌, ◌-◌, ◌*◌, ◌/◌, ◌%◌, ◌≤◌, ◌<◌, ◌≡◌, arith}
use rocommon.Text.{pos}
use rocommon.Util.Calendar.{
  day, get_latest_5_hour, get_duration_day, get_duration_day1, get_duration_day2, whole_days, plus,
}

-- GetLatest5Hour is a 5 o'clock after now, at most a day ahead: the first one, from the second local day
-- of 1970 on and in a zone of at most a day.
pub get_latest_5_hour_bounds :
    (zone now : ℕ)
    → zone ≤ 86400
    → 86400 ≤ now / 1000 + zone
    → (now < get_latest_5_hour zone now)
      × (get_latest_5_hour zone now ≤ now + 86400000)
      × ((get_latest_5_hour zone now / 1000 + zone) % 86400 ≡ 5 * 3600)
unfolding get_latest_5_hour
get_latest_5_hour_bounds zone now hz h = ground arith

-- The day that an instant counts for when days begin at 5 o'clock.
abbrev pub game_day : ℕ → ℕ → ℕ
game_day zone t = (t + zone - 5 * 3600) / 86400

-- GetDurationDay1 counts the midnights from one time to a later one.
pub get_duration_day1_lem :
    (zone t1 t2 : ℕ)
    → zone ≤ 86400
    → 86400 ≤ t1 / 1000 + zone
    → t1 ≤ t2
    → get_duration_day1 zone t1 t2 ≡ pos (day zone (t2 / 1000) - day zone (t1 / 1000))
unfolding get_duration_day1 whole_days
get_duration_day1_lem zone t1 t2 hz h le = ground arith

-- GetDurationDay2 counts the days that two times touch, where days begin at 5 o'clock: the difference of
-- their days and one.
pub get_duration_day2_lem :
    (zone t1 t2 : ℕ)
    → zone ≤ 86400
    → 86400 ≤ t1 / 1000 + zone
    → t1 ≤ t2
    → get_duration_day2 zone t1 t2 ≡ pos (game_day zone (t2 / 1000) - game_day zone (t1 / 1000) + 1)
unfolding get_duration_day2 plus
get_duration_day2_lem zone t1 t2 hz h le = ground (arith, get_duration_day1_lem zone t1 t2 hz h le)

-- GetDurationDay gives seconds: 86400 for each midnight from one text to a later one.
pub get_duration_day_lem :
    (zone s1 s2 : ℕ)
    → zone ≤ 86400
    → 86400 ≤ s1 + zone
    → s1 ≤ s2
    → get_duration_day zone s1 s2 ≡ pos (86400 * (day zone s2 - day zone s1))
unfolding get_duration_day
get_duration_day_lem zone s1 s2 hz h le = ground arith
