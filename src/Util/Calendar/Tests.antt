-- ===== src/Util/Calendar/Tests.antt =====
-- Dates of util/timer.go in Shanghai.
use rocommon.Prelude.{ℕ, ◌≡◌, refl, arith, false}
use rocommon.Text.{pos}
use rocommon.Util.Calendar.{
  get_latest_5_hour, get_latest_week_5_hour, is_in_same_week, get_duration_day, get_duration_day2,
  get_duration_day1, whole_days, plus, days_to_monday,
}
use rocommon.Util.Calendar.Months.{
  get_latest_month_5_hour, month_5_hour, month_of, month_from, IsNextMonth,
  get_latest_month_5_hour_first,
}

abbrev shanghai : ℕ
shanghai = 28800

-- 2024-01-01 12:00:00, a Monday, and 2024-01-03 04:00:00.
abbrev monday : ℕ
monday = 1704081600000

abbrev wednesday : ℕ
wednesday = 1704225600000

latest_run :
    (get_latest_5_hour shanghai monday ≡ 1704142800000)
    × (get_latest_week_5_hour shanghai 0 monday ≡ 1704661200000)
    × (get_duration_day2 shanghai monday wednesday ≡ pos 2)
    × (is_in_same_week shanghai 0 monday wednesday ≡ false)
unfolding get_latest_5_hour get_latest_week_5_hour get_duration_day2 get_duration_day1
    get_duration_day whole_days plus is_in_same_week days_to_monday
latest_run = (refl, refl, refl, refl)

-- At 8 hours east, on 9 February 1970.
get_latest_month_5_hour_first_example :
    (j : ℕ) × (get_latest_month_5_hour 28800 3456000000 ≡ month_5_hour 28800 j)
    × IsNextMonth 28800 3456000000 j
get_latest_month_5_hour_first_example =
    get_latest_month_5_hour_first 28800 3456000000 (omega arith) (omega arith)

first_of_march : get_latest_month_5_hour 28800 3456000000 ≡ month_5_hour 28800 2
unfolding get_latest_month_5_hour month_of month_from
first_of_march = refl
