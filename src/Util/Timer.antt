-- ===== src/Util/Timer.antt =====
-- util/timer.go: `baseTimer`, `OnceTimer` and `DurationTimer`. Times are uint64 milliseconds, which
-- wrap; what `GetCurrentTime` reads is an argument; `expiredTimes` is an int32 as its bit pattern.
pub mod Once
pub mod Duration
mod Tests
use rocommon.Prelude.{
  ℕ, ◌+◌, ◌-◌, ◌%◌, ◌^◌, Bool, true, false, ltb, leb, not, ◌==◌, ◌||◌, if◌then◌else◌,
}

abbrev pub u64 : ℕ → ℕ
u64 n = n % 2 ^ 64

-- uint64 subtraction.
abbrev pub sub64 : ℕ → ℕ → ℕ
sub64 a b = (a + 2 ^ 64 - b) % 2 ^ 64

pub record BaseTimer : Type 0 where
  pub ts : ℕ
  pub duration : ℕ
  pub cancel : Bool
  pub suspend : Bool
  pub reset_time : ℕ

pub cancel_timer : BaseTimer → BaseTimer
cancel_timer a = record a { cancel = true; ts = 0; duration = 0; suspend = false; reset_time = 0 }

pub canceled : BaseTimer → Bool
canceled a = a.cancel

pub suspend_timer : BaseTimer → ℕ → BaseTimer
suspend_timer a now =
    let delta_t = sub64 a.duration (sub64 now a.ts) in
    if leb a.duration delta_t
    then record a { suspend = true; reset_time = 0 }
    else record a { suspend = true; reset_time = sub64 a.duration a.ts }

pub resume : BaseTimer → ℕ → BaseTimer
resume a now = record a { suspend = false; ts = now }

pub is_start : BaseTimer → Bool
is_start a = not (a.ts == 0)

-- `NewOnceTimer`
pub new_once_timer : ℕ → ℕ → BaseTimer
new_once_timer ms duration = record {
  ts = ms;
  duration = duration;
  cancel = false;
  suspend = false;
  reset_time = 0;
}

-- `OnceTimer.IsExpired`, with the timer after it.
pub once_is_expired : BaseTimer → ℕ → BaseTimer × Bool
once_is_expired a ms =
    if a.cancel || a.suspend
    then (a, false)
    else if ltb 0 a.reset_time
    then (if ltb (u64 (a.ts + a.reset_time)) ms
        then (record a { reset_time = 0 }, true)
        else (a, false))
    else (a, ltb (u64 (a.ts + a.duration)) ms)

-- `OnceTimer.Reset`
pub once_reset : BaseTimer → ℕ → ℕ → BaseTimer
once_reset a ms duration = record a { ts = ms; duration = duration; cancel = false }

pub record DurationTimer : Type 0 where
  pub base : BaseTimer
  pub open base use *
  pub fire_now : Bool
  pub expired_times : ℕ

pub new_duration_timer : ℕ → ℕ → DurationTimer
new_duration_timer ms duration = record {
  base = record { ts = ms; duration = duration; cancel = false; suspend = false; reset_time = 0 };
  fire_now = false;
  expired_times = 0;
}

pub duration_reset : DurationTimer → ℕ → ℕ → Bool → DurationTimer
duration_reset a ms duration fire_now = record a {
  base = record (a.base) { ts = ms; duration = duration; cancel = false };
  fire_now = fire_now;
}

-- The end of `DurationTimer.IsExpired`: a pending `fireNow` fires and is used up.
take_fire_now : DurationTimer → Bool → DurationTimer × Bool
take_fire_now a ret = if a.fire_now then (record a { fire_now = false }, true) else (a, ret)

pub duration_is_expired : DurationTimer → ℕ → DurationTimer × Bool
unfolding duration_reset take_fire_now
duration_is_expired a ms =
    if a.cancel || a.suspend
    then (a, false)
    else if ltb 0 a.reset_time
    then (if ltb (u64 (a.ts + a.reset_time)) ms
        then (
          duration_reset (record a { base = record (a.base) { reset_time = 0 } }) ms a.duration
              true,
          true,
        )
        else (a, false))
    else if ltb (u64 (a.ts + a.duration)) ms
    then take_fire_now
        (record a {
          base = record (a.base) { ts = ms };
          expired_times = (a.expired_times + 1) % 2 ^ 32;
        })
        true
    else take_fire_now a false
