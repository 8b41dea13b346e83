-- ===== src/Socket/SessionManager/Tests.antt =====
-- Runs of socket/sessionmanager.go, and its theorems at a manager of key 3.
use rocommon.Prelude.{◌-◌, ℕ, ◌+◌, ◌*◌, ◌^◌, ◌≡◌, refl, [], ◌∷◌, arith}
use rocommon.Prelude.Outcome.{ok}
use rocommon.Socket.SessionManager.{
  Manager, new_manager, set_uuid_create_key, gen_session_id, session_id, load, delete, add, remove,
}
use rocommon.Socket.SessionManager.Ids.{gen_all, AllGiven, numbered, Ascending, gen_all-new_manager}
use rocommon.Socket.SessionManager.Table.{adds, removes, run}

abbrev start : Manager
start = record {
  count = 0;
  session_map = [];
  gen_key = 3;
  time_key = 0;
  last_time_stamp = 100;
  sequence = 1;
}

abbrev first_id : ℕ
first_id = 100 * 2 ^ 24 + 2 * 2 ^ 8 + 3

abbrev one : Manager
one = record start { session_map = (first_id, 7) ∷ []; sequence = 2 }

add_run : add start 7 100 ≡ ok (one, first_id)
unfolding add gen_session_id session_id load
add_run = refl

gen_all-new_manager_example :
    let ids = gen_all (set_uuid_create_key (new_manager 100_000) 3 0) (100 ∷ 100 ∷ 101 ∷ []) in
    Ascending ids × AllGiven (1 ∷ numbered 100 1 (100 ∷ 101 ∷ [])) ids
gen_all-new_manager_example =
    gen_all-new_manager 100_000 3 0 100 (100 ∷ 101 ∷ []) (omega arith) (omega arith) (omega arith)

abbrev big : Manager
big = record start { gen_key = 300 }

big_run : add big 7 101 ≡ ok (record big { session_map = (0, 7) ∷ [] }, 0)
unfolding add gen_session_id load
big_run = refl

abbrev history_end : Manager
history_end = record one { session_map = []; count = 2 ^ 64 - 1 }

history_run : run start (adds 7 100 ∷ removes first_id ∷ []) ≡ ok history_end
unfolding run add gen_session_id session_id load remove delete
history_run = refl
