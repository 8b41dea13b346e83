-- ===== src/Util/Timer/Duration.antt =====
-- `DurationTimer` of util/timer.go over a series of polls.
use rocommon.Prelude.{
  ℕ, ◌+◌, ◌%◌, ◌^◌, ◌<◌, ◌≤◌, ◌≡◌, refl, true, false, ltb, if◌then◌else◌, arith, List, [], ◌∷◌,
  length, All,
}
use rocommon.Util.Timer.{DurationTimer, new_duration_timer, duration_is_expired, duration_reset}

-- The polls that were answered with "expired", and the timer after all polls.
unfoldable pub fires : DurationTimer → List ℕ → List ℕ
fires a [] = []
fires a (ms ∷ times) =
    let (b, fired) = duration_is_expired a ms in
    let rest = fires b times in if fired then ms ∷ rest else rest

pub after : DurationTimer → List ℕ → DurationTimer
after a [] = a
after a (ms ∷ times) = after (duration_is_expired a ms).0 times

-- The polls at which a period is over, counted from the last such poll.
pub due : ℕ → ℕ → List ℕ → List ℕ
due last d [] = []
due last d (t ∷ times) = if ltb (last + d) t then t ∷ due t d times else due last d times

-- A timer that runs, with nothing pending.
abbrev running : ℕ → ℕ → ℕ → DurationTimer
running ts d n = record {
  base = record { ts = ts; duration = d; cancel = false; suspend = false; reset_time = 0 };
  fire_now = false;
  expired_times = n;
}

running_step :
    (ts d n ms : ℕ)
    → ts + d < 2 ^ 64
    → duration_is_expired (running ts d n) ms ≡ (
        if ltb (ts + d) ms
        then (running ms d ((n + 1) % 2 ^ 32), true)
        else (running ts d n, false))
unfolding duration_is_expired
running_step ts d n ms h = ground arith

abbrev pub FitsU64 : ℕ → ℕ → Type 0
FitsU64 d t = t + d < 2 ^ 64

running-fires :
    (ts d n : ℕ) (times : List ℕ)
    → FitsU64 d ts
    → All (FitsU64 d) times
    → (fires (running ts d n) times ≡ due ts d times)
      × ((after (running ts d n) times).expired_times % 2 ^ 32
          ≡ (n + length (fires (running ts d n) times)) % 2 ^ 32)
unfolding fires after due
running-fires ts d n [] h all = (refl, omega arith)
running-fires ts d n (t ∷ times) h (ht, all) = ground (
  arith,
  running_step ts d n t h,
  running-fires t d ((n + 1) % 2 ^ 32) times ht all,
  running-fires ts d n times h all,
)

-- A new duration timer that is only polled fires exactly at the polls at which a whole duration has
-- passed since the last such poll (at first, since it was made), and counts these polls modulo
-- 2 ^ 32, while no time plus the duration wraps.
pub fires-new_duration_timer :
    (ms d : ℕ) (times : List ℕ)
    → FitsU64 d ms
    → All (FitsU64 d) times
    → (fires (new_duration_timer ms d) times ≡ due ms d times)
      × ((after (new_duration_timer ms d) times).expired_times % 2 ^ 32
          ≡ length (fires (new_duration_timer ms d) times) % 2 ^ 32)
unfolding new_duration_timer
fires-new_duration_timer ms d times h all =
    let (a, b) = running-fires ms d 0 times h all in (a, omega (arith, b))

-- `Reset` to fire at once: the next poll is answered with "expired" at any time, and only it, for
-- the polls before the duration is over.
pub duration_reset_fires_once :
    (a : DurationTimer) (ms d t u : ℕ)
    → a.suspend ≡ false
    → a.reset_time ≡ 0
    → FitsU64 d ms
    → t ≤ ms + d
    → u ≤ ms + d
    → let (b, fired) = duration_is_expired (duration_reset a ms d true) t in
      (fired ≡ true) × ((duration_is_expired b u).1 ≡ false)
unfolding duration_is_expired duration_reset
duration_reset_fires_once a ms d t u h0 h1 h2 h3 h4 = ground arith
