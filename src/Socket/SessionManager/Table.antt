-- ===== src/Socket/SessionManager/Table.antt =====
-- The table of sessions of socket/sessionmanager.go.
use mathlib.Core.Path.{subst}
use rocommon.Prelude.{
  sym, ℕ, ◌+◌, ◌%◌, ◌^◌, ◌<◌, ◌≤◌, ◌≡◌, ◌≢◌, refl, List, [], ◌∷◌, arith, All, ◌==◌, none, some,
  if◌then◌else◌,
}
use rocommon.Prelude.Outcome.{first_step, Outcome, ok, panic, ◌>>=◌}
use rocommon.Socket.SessionManager.{
  Manager, gen_session_id, load, delete, add, remove, get_session, session_num,
}
use rocommon.Socket.SessionManager.Ids.{bound, gen_session_id-bound, gen_session_id_big_key}

-- Every stored id was given out: none is above the bound.
unfoldable pub IsBounded : Manager → Type 0
IsBounded a = All (λ (e : ℕ × ℕ). e.0 ≤ bound a) a.session_map

load-above :
    (n id : ℕ) (m : List (ℕ × ℕ)) → All (λ (e : ℕ × ℕ). e.0 ≤ n) m → n < id → load id m ≡ none
unfolding load
load-above n id [] h lt = refl
load-above n id ((j, s) ∷ m) (le, h) lt = ground (arith, load-above n id m h lt)

All-le_mono :
    (m n : ℕ) (es : List (ℕ × ℕ))
    → m ≤ n
    → All (λ (e : ℕ × ℕ). e.0 ≤ m) es
    → All (λ (e : ℕ × ℕ). e.0 ≤ n) es
All-le_mono m n [] h all = tt
All-le_mono m n ((j, s) ∷ es) h (le, all) = (omega arith, All-le_mono m n es h all)

load-delete :
    (id j : ℕ) (m : List (ℕ × ℕ)) → load j (delete id m) ≡ (if j == id then none else load j m)
unfolding load delete
load-delete id j [] = ground arith
load-delete id j ((k, s) ∷ m) = ground (arith, load-delete id j m)

delete-le :
    (id n : ℕ) (m : List (ℕ × ℕ))
    → All (λ (e : ℕ × ℕ). e.0 ≤ n) m
    → All (λ (e : ℕ × ℕ). e.0 ≤ n) (delete id m)
unfolding delete
delete-le id n [] h = tt
delete-le id n ((k, s) ∷ m) (le, h) = ground (arith, delete-le id n m h)

gen_session_id-session_map :
    (a : Manager) (now : ℕ)
    → ((gen_session_id a now).0.session_map ≡ a.session_map)
      × ((gen_session_id a now).0.gen_key ≡ a.gen_key)
      × ((gen_session_id a now).0.count ≡ a.count)
unfolding gen_session_id
gen_session_id-session_map a now = ground arith

store-IsBounded :
    (b : Manager) (id s n : ℕ)
    → All (λ (e : ℕ × ℕ). e.0 ≤ n) b.session_map
    → n ≤ bound b
    → id ≤ bound b
    → IsBounded (record b { session_map = (id, s) ∷ b.session_map })
unfolding IsBounded bound
store-IsBounded b id s n all h le = (le, All-le_mono n (bound b) b.session_map h all)

-- While the clock has not gone back and the id is not 0, `Add` does not panic: the new session is
-- found under its id, every other id finds what it found, and the ids stay below the bound.
pub add_total :
    (a : Manager) (s now : ℕ)
    → IsBounded a
    → a.last_time_stamp ≤ now
    → now < 2 ^ 40
    → (gen_session_id a now).1 ≢ 0
    → (b : Manager) × (id : ℕ) × (add a s now ≡ ok (b, id))
      × (get_session b id ≡ some s)
      × ((j : ℕ) → j ≢ id → get_session b j ≡ get_session a j)
      × IsBounded b
      × (b.last_time_stamp ≤ now)
unfolding add get_session load IsBounded
add_total a s now v h lt nz =
    let (b, id) = gen_session_id a now in
    let (fresh, up, stamp) = gen_session_id-bound a now h lt in
    let (same, _, _) = gen_session_id-session_map a now in
    let free : load id a.session_map ≡ none =
      load-above (bound a) id a.session_map v (ground arith) in
    (
      record b { session_map = (id, s) ∷ b.session_map },
      id,
      ground arith,
      ground arith,
      λ j ne. ground arith,
      store-IsBounded b id s (bound a)
          (subst (λ m. All (λ (e : ℕ × ℕ). e.0 ≤ bound a) m) (sym same) v) up (ground arith),
      stamp,
    )

-- `Remove` of an id: nothing is found under it, all other ids find what they found, and the ids stay
-- below the bound.
pub get_session-remove :
    (a : Manager) (id j : ℕ)
    → IsBounded a
    → (get_session (remove a id) j ≡ (if j == id then none else get_session a j))
      × IsBounded (remove a id)
unfolding get_session remove IsBounded bound
get_session-remove a id j v =
    (load-delete id j a.session_map, delete-le id (bound a) a.session_map v)

-- With a key above 255 the first session gets the id 0, and the next `Add` panics.
pub add_big_key :
    (a b : Manager) (s id : ℕ) (now : ℕ)
    → 0xff < a.gen_key
    → add a s now ≡ ok (b, id)
    → (id ≡ 0) × ((t later : ℕ) → add b t later ≡ panic)
unfolding add load
add_big_key a b s id now h e =
    let zero_id = gen_session_id_big_key a now h in
    let (_, key, _) = gen_session_id-session_map a now in
    let stored : (id ≡ 0) × (load 0 b.session_map ≡ some s) × (b.gen_key ≡ a.gen_key) =
      ground arith in
    (
      stored.0,
      λ t later. ground (
        arith,
        gen_session_id_big_key b later (ground arith),
        gen_session_id-session_map b later,
      ),
    )

-- What happens to a manager: a session comes, or the session of an id goes.
pub data Event : Type 0 where
  adds : ℕ → ℕ → Event
  removes : ℕ → Event

unfoldable pub run : Manager → List Event → Outcome Manager
run a [] = ok a
run a (adds s now ∷ es) = add a s now >>= λ r. run r.0 es
run a (removes id ∷ es) = run (remove a id) es

pub removals : List Event → ℕ
removals [] = 0
removals (adds s now ∷ es) = removals es
removals (removes id ∷ es) = removals es + 1

add-count : (a b : Manager) (s now id : ℕ) → add a s now ≡ ok (b, id) → b.count ≡ a.count
unfolding add
add-count a b s now id e = ground (arith, gen_session_id-session_map a now)

run-count :
    (a b : Manager) (es : List Event)
    → run a es ≡ ok b
    → (b.count + removals es) % 2 ^ 64 ≡ a.count % 2 ^ 64
unfolding run removals remove
run-count a b [] e = ground arith
run-count a b (adds s now ∷ es) e =
    let (r, e1, e2) = first_step (add a s now) (λ r. run r.0 es) e in
    omega (arith, run-count r.0 b es e2, add-count a r.0 s now r.1 e1)
run-count a b (removes id ∷ es) e = omega (arith, run-count (remove a id) b es e)

-- `SessionNum` of a manager that started at 0 is minus the number of removals, as an int64: no
-- session that comes is counted.
pub session_num-removals :
    (a b : Manager) (es : List Event)
    → session_num a ≡ 0
    → run a es ≡ ok b
    → (session_num b + removals es) % 2 ^ 64 ≡ 0
unfolding session_num
session_num-removals a b es h e = omega (arith, run-count a b es e)
