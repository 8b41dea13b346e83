-- ===== src/Util/Timer/Once.antt =====
-- `baseTimer` and `OnceTimer` of util/timer.go.
use rocommon.Prelude.{
  refl, ℕ, ◌+◌, ◌-◌, ◌^◌, ◌<◌, ◌≤◌, ◌≡◌, Bool, true, false, ltb, arith, List, [], ◌∷◌,
}
use rocommon.Util.Timer.{
  BaseTimer, cancel_timer, suspend_timer, resume, new_once_timer, once_is_expired,
}

-- The answers of a list of polls.
pub once_polls : BaseTimer → List ℕ → List Bool
once_polls a [] = []
once_polls a (ms ∷ times) = let (b, fired) = once_is_expired a ms in fired ∷ once_polls b times

abbrev answers : (ℕ → Bool) → List ℕ → List Bool
answers f [] = []
answers f (ms ∷ times) = f ms ∷ answers f times

new_once :
    (ms d t : ℕ)
    → ms + d < 2 ^ 64
    → once_is_expired (new_once_timer ms d) t ≡ (new_once_timer ms d, ltb (ms + d) t)
unfolding once_is_expired new_once_timer
new_once ms d t h = ground arith

-- A once timer that nobody touches answers a poll with "expired" exactly after its duration, and
-- goes on to do so at every later poll: it does not stop after the first.
pub once_polls-new :
    (ms d : ℕ) (times : List ℕ)
    → ms + d < 2 ^ 64
    → once_polls (new_once_timer ms d) times ≡ answers (ltb (ms + d)) times
unfolding once_polls
once_polls-new ms d [] h = refl
once_polls-new ms d (t ∷ times) h = ground (arith, new_once ms d t h, once_polls-new ms d times h)

-- A timer that is cancelled, or suspended, is never expired, until it is reset or resumed.
pub once_is_expired_quiet :
    (a : BaseTimer) (now ms : ℕ)
    → (once_is_expired (cancel_timer a) ms ≡ (cancel_timer a, false))
      × (once_is_expired (suspend_timer a now) ms ≡ (suspend_timer a now, false))
unfolding once_is_expired cancel_timer suspend_timer
once_is_expired_quiet a now ms = (ground arith, ground arith)

-- A timer suspended before its time is up and resumed is expired at the first poll that is later
-- than its duration plus the time since it was set, counted from 0: the time that was left is not
-- kept.
pub suspend-resume_fires :
    (ms d now later poll : ℕ)
    → d < ms
    → ms < now
    → now < ms + d
    → now ≤ later
    → later + d < 2 ^ 64
    → later - ms + d < poll
    → (once_is_expired (resume (suspend_timer (new_once_timer ms d) now) later) poll).1 ≡ true
unfolding once_is_expired suspend_timer resume new_once_timer
suspend-resume_fires ms d now later poll h0 h1 h2 h3 h4 h5 = ground arith
