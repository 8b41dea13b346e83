-- ===== src/Util/Calendar/Weeks.antt =====
-- Weeks of util/timer.go, which begin on Monday at 5 o'clock.
use rocommon.Prelude.{ℕ, ◌+◌, ◌-◌, ◌*◌, ◌/◌, ◌≤◌, ◌<◌, ◌≡◌, ◌≢◌, true, false, arith}
use rocommon.Util.Calendar.{day, days_to_monday, get_latest_week_5_hour, is_in_same_week}

-- The week of an instant, and the instant at which a week begins: 1970-01-05 was a Monday.
abbrev pub week : ℕ → ℕ → ℕ
week zone t = (t + zone + 3 * 86400 - 5 * 3600) / 604800

abbrev pub week_start : ℕ → ℕ → ℕ
week_start zone w = w * 604800 + 5 * 3600 - 3 * 86400 - zone

-- The day of the next Monday, counted from the days of the weeks.
days_to_monday_lem : (zone t : ℕ) → day zone t + days_to_monday zone t ≡ 7 * week zone t + 4
unfolding days_to_monday
days_to_monday_lem zone t = ground arith

-- GetLatestWeek5Hour gives the instant at which the week after that of its argument begins, in a
-- zone of at most a day.
pub get_latest_week_5_hour_lem :
    (zone now ms : ℕ)
    → zone ≤ 86400
    → 0 < ms
    → get_latest_week_5_hour zone now ms ≡ week_start zone (week zone (ms / 1000) + 1) * 1000
unfolding get_latest_week_5_hour
get_latest_week_5_hour_lem zone now ms hz h = ground (arith, days_to_monday_lem zone (ms / 1000))

-- IsInSameWeek answers the opposite, in a zone of at most a day: false for two times of one week, and true for a later time of
-- another week, but for the very first instant of the next one.
pub is_in_same_week_inverted :
    (zone now t1 t2 : ℕ)
    → zone ≤ 86400
    → 0 < t1
    → t1 ≤ t2
    → (week zone (t1 / 1000) ≡ week zone (t2 / 1000) → is_in_same_week zone now t1 t2 ≡ false)
      × (week zone (t1 / 1000) < week zone (t2 / 1000)
          → t2 ≢ week_start zone (week zone (t1 / 1000) + 1) * 1000
          → is_in_same_week zone now t1 t2 ≡ true)
unfolding is_in_same_week
is_in_same_week_inverted zone now t1 t2 hz h le = (
  λ e. ground (arith, get_latest_week_5_hour_lem zone now t1 hz h),
  λ l n. ground (arith, get_latest_week_5_hour_lem zone now t1 hz h),
)
