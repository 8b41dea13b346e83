-- ===== src/Util/Timer/Tests.antt =====
-- The theorems on util/timer.go at a timer of 10 ms.
use rocommon.Prelude.{◌≡◌, ◌%◌, ◌^◌, refl, true, false, [], ◌∷◌, arith, length}
use rocommon.Util.Timer.{
  new_once_timer, once_is_expired, suspend_timer, cancel_timer, new_duration_timer,
  duration_is_expired, duration_reset,
}
use rocommon.Util.Timer.Once.{once_is_expired_quiet}
use rocommon.Util.Timer.Duration.{
  fires, after, due, fires-new_duration_timer, duration_reset_fires_once,
}

once_is_expired_quiet_example :
    (once_is_expired (cancel_timer (new_once_timer 100 10)) 900
      ≡ (cancel_timer (new_once_timer 100 10), false))
    × (once_is_expired (suspend_timer (new_once_timer 100 10) 105) 900
        ≡ (suspend_timer (new_once_timer 100 10) 105, false))
once_is_expired_quiet_example = once_is_expired_quiet (new_once_timer 100 10) 105 900

fires-new_duration_timer_example :
    (fires (new_duration_timer 100 10) (105 ∷ 111 ∷ 120 ∷ 125 ∷ [])
      ≡ due 100 10 (105 ∷ 111 ∷ 120 ∷ 125 ∷ []))
    × ((after (new_duration_timer 100 10) (105 ∷ 111 ∷ 120 ∷ 125 ∷ [])).expired_times % 2 ^ 32
        ≡ length (fires (new_duration_timer 100 10) (105 ∷ 111 ∷ 120 ∷ 125 ∷ [])) % 2 ^ 32)
fires-new_duration_timer_example =
    fires-new_duration_timer 100 10 (105 ∷ 111 ∷ 120 ∷ 125 ∷ []) (omega arith) (omega arith)

fires_run : fires (new_duration_timer 100 10) (105 ∷ 111 ∷ 120 ∷ 125 ∷ []) ≡ 111 ∷ 125 ∷ []
unfolding fires new_duration_timer duration_is_expired
fires_run = refl

duration_reset_fires_once_example :
    let (b, fired) =
      duration_is_expired (duration_reset (new_duration_timer 1 10) 100 10 true) 101 in
    (fired ≡ true) × ((duration_is_expired b 102).1 ≡ false)
unfolding new_duration_timer
duration_reset_fires_once_example =
    duration_reset_fires_once (new_duration_timer 1 10) 100 10 101 102 refl refl (omega arith)
      (omega arith) (omega arith)
