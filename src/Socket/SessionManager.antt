-- ===== src/Socket/SessionManager.antt =====
-- socket/sessionmanager.go: session ids and the table of sessions. A session is a number; the
-- seconds of the clock are an argument of each call; the counter is an int64 as its bit pattern.
pub mod Ids
pub mod Table
mod Tests
use rocommon.Prelude.{
  ℕ, suc, ◌+◌, ◌-◌, ◌*◌, ◌%◌, ◌^◌, List, [], ◌∷◌, Option, none, some, ltb, ◌==◌, if◌then◌else◌, not,
  ◌≡◌,
}
use rocommon.Prelude.Outcome.{Outcome, ok, panic}

pub record Manager : Type 0 where
  pub count : ℕ
  pub session_map : List (ℕ × ℕ)
  pub gen_key : ℕ
  pub time_key : ℕ
  pub last_time_stamp : ℕ
  pub sequence : ℕ

-- `NewNetSessionManager`: the time stamp starts as milliseconds.
pub new_manager : ℕ → Manager
new_manager now_ms = record {
  count = 0;
  session_map = [];
  gen_key = 0;
  time_key = 0;
  last_time_stamp = now_ms;
  sequence = 0;
}

pub set_uuid_create_key : Manager → ℕ → ℕ → Manager
set_uuid_create_key a gen_key now_nano = record a {
  gen_key = gen_key;
  time_key = now_nano % 2 ^ 32;
}

-- The three parts of an id lie in disjoint bits, so that their `|=` is a sum.
pub session_id : ℕ → ℕ → ℕ → ℕ
session_id stamp sequence gen_key =
    stamp * 2 ^ 24 % 2 ^ 64 + sequence % 2 ^ 16 * 2 ^ 8 + gen_key % 2 ^ 8

-- The part of `genSessionId` after its first test. The sequence stays below 2 ^ 64 in practice: it
-- counts calls within a second.
next_id : Manager → ℕ → Manager × ℕ
next_id a now =
    if ltb 0xff a.gen_key
    then (a, 0)
    else if a.last_time_stamp == now
    then (let b = record a { sequence = a.sequence + 1 } in
        if ltb 0xffff b.sequence
        then (b, 0)
        else (b, session_id b.last_time_stamp b.sequence b.gen_key))
    else (let b = record a { last_time_stamp = now; sequence = 1 } in
        (b, session_id b.last_time_stamp b.sequence b.gen_key))

pub gen_session_id : Manager → ℕ → Manager × ℕ
unfolding next_id
gen_session_id a now =
    next_id (if a.last_time_stamp == 0 then record a { last_time_stamp = now } else a) now

-- `sessionMap.Load`
pub load : ℕ → List (ℕ × ℕ) → Option ℕ
load id [] = none
load id ((j, s) ∷ m) = if j == id then some s else load id m

-- `sessionMap.Delete`
pub delete : ℕ → List (ℕ × ℕ) → List (ℕ × ℕ)
delete id [] = []
delete id ((j, s) ∷ m) = if j == id then delete id m else (j, s) ∷ delete id m

-- `Add` gives the session its id, which is the second part of the result.
pub add : Manager → ℕ → ℕ → Outcome (Manager × ℕ)
add a s now =
    let (b, uuid) = gen_session_id a now in
    elim (load uuid b.session_map) [
      | some _ ↦ panic
      | none ↦ ok (record b { session_map = (uuid, s) ∷ b.session_map }, uuid)
    ]

-- `Remove` of the session with an id; that it also clears the session's user is not in this state.
pub remove : Manager → ℕ → Manager
remove a id = record a {
  session_map = delete id a.session_map;
  count = (a.count + (2 ^ 64 - 1)) % 2 ^ 64;
}

pub get_session : Manager → ℕ → Option ℕ
get_session a id = load id a.session_map

-- `SessionNum`: the int64 counter, as its pattern.
pub session_num : Manager → ℕ
session_num a = a.count
