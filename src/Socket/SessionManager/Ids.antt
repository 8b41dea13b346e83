-- ===== src/Socket/SessionManager/Ids.antt =====
-- Session ids of socket/sessionmanager.go are distinct while the clock does not go back.
use mathlib.Core.Path.{subst}
use rocommon.Prelude.{
  ltb, ==_iff, if_holds, refl, ◌==◌, if◌then◌else◌, ℕ, ◌+◌, ◌*◌, ◌%◌, ◌^◌, ◌<◌, ◌≤◌, ◌≡◌, ◌≢◌, ◌⊎◌,
  inl, inr, List, [], ◌∷◌, arith, All, min,
}
use rocommon.Socket.SessionManager.{
  set_uuid_create_key, new_manager, Manager, session_id, gen_session_id,
}

-- No id above this one has been given out within the second of the last call.
unfoldable pub bound : Manager → ℕ
bound a = a.last_time_stamp * 2 ^ 24 + min a.sequence 0xffff * 2 ^ 8 + a.gen_key % 2 ^ 8

-- One call, under a clock that has not gone back since the last call and is below 2 ^ 40 seconds:
-- the id is 0, or above all ids before and no higher than the new bound; the bound does not fall,
-- the key stays, and the stamp is the clock's.
pub gen_session_id-bound :
    (a : Manager) (now : ℕ)
    → a.last_time_stamp ≤ now
    → now < 2 ^ 40
    → let (b, id) = gen_session_id a now in
      ((id ≡ 0) ⊎ ((bound a < id) × (id ≤ bound b)))
      × (bound a ≤ bound b)
      × (b.last_time_stamp ≤ now)
unfolding gen_session_id session_id bound
gen_session_id-bound a now h lt = ground arith

-- The ids that a list of calls gives, one call at each of the times.
pub gen_all : Manager → List ℕ → List ℕ
gen_all a [] = []
gen_all a (now ∷ times) = let (b, id) = gen_session_id a now in id ∷ gen_all b times

-- The clock starts no earlier than `from`, does not go back, and stays below 2 ^ 40.
abbrev pub IsClock : ℕ → List ℕ → Type 0
IsClock from [] = Unit {0}
IsClock from (now ∷ times) = (from ≤ now) × (now < 2 ^ 40) × IsClock now times

abbrev pub ZeroOrAbove : ℕ → ℕ → Type 0
ZeroOrAbove b id = (id ≡ 0) ⊎ (b < id)

-- Every id but 0 is below all later ones.
abbrev pub Ascending : List ℕ → Type 0
Ascending [] = Unit {0}
Ascending (id ∷ ids) = ((id ≡ 0) ⊎ All (ZeroOrAbove id) ids) × Ascending ids

All-above_mono :
    (b c : ℕ) (ids : List ℕ) → b ≤ c → All (ZeroOrAbove c) ids → All (ZeroOrAbove b) ids
All-above_mono b c [] h all = tt
All-above_mono b c (id ∷ ids) h (x, all) = (ground arith, All-above_mono b c ids h all)

IsClock-mono : (m n : ℕ) (times : List ℕ) → m ≤ n → IsClock n times → IsClock m times
IsClock-mono m n [] h c = tt
IsClock-mono m n (now ∷ times) h (from, lt, c) = (omega arith, lt, c)

gen_all-above :
    (a : Manager) (times : List ℕ)
    → IsClock a.last_time_stamp times
    → All (ZeroOrAbove (bound a)) (gen_all a times)
unfolding gen_all
gen_all-above a [] c = tt
gen_all-above a (now ∷ times) (h, lt, c) =
    let (b, id) = gen_session_id a now in
    let (fresh, up, stamp) = gen_session_id-bound a now h lt in
    (
      ground arith,
      All-above_mono (bound a) (bound b) (gen_all b times) up
          (gen_all-above b times (IsClock-mono b.last_time_stamp now times stamp c)),
    )

-- From a state whose stamp is not ahead of the clock, and while the clock does not go back, the ids
-- that are not 0 rise strictly: no two calls give the same one.
pub gen_all-Ascending :
    (a : Manager) (times : List ℕ) → IsClock a.last_time_stamp times → Ascending (gen_all a times)
unfolding gen_all
gen_all-Ascending a [] c = tt
gen_all-Ascending a (now ∷ times) (h, lt, c) =
    let (b, id) = gen_session_id a now in
    let (fresh, up, stamp) = gen_session_id-bound a now h lt in
    let c' = IsClock-mono b.last_time_stamp now times stamp c in
    (
      elim fresh [
        | inl zero_id ↦ inl zero_id
        | inr (_, le) ↦
            inr (All-above_mono id (bound b) (gen_all b times) le (gen_all-above b times c'))
      ],
      gen_all-Ascending b times c',
    )

first_call :
    (a : Manager) (now : ℕ)
    → a.last_time_stamp ≢ now
    → a.gen_key ≤ 0xff
    → now < 2 ^ 40
    → let (b, id) = gen_session_id a now in (id ≤ bound b) × (b.last_time_stamp ≤ now)
unfolding gen_session_id session_id bound
first_call a now h hk lt = ground arith

-- Which call of its second each call is, where the last one was call `k` of the second `stamp`.
abbrev pub numbered : ℕ → ℕ → List ℕ → List ℕ
numbered stamp k [] = []
numbered stamp k (now ∷ times) =
    let same = numbered now (k + 1) times in
    let new = numbered now 1 times in if stamp == now then (k + 1) ∷ same else 1 ∷ new

-- The id of a call is 0 exactly when 65535 calls of its second came before it.
abbrev pub IsGiven : ℕ → ℕ → Type 0
IsGiven n id = (id == 0) ≡ ltb 0xffff n

abbrev pub AllGiven : List ℕ → List ℕ → Type 0
AllGiven [] [] = Unit {0}
AllGiven [] (id ∷ ids) = ⊥
AllGiven (n ∷ ns) [] = ⊥
AllGiven (n ∷ ns) (id ∷ ids) = IsGiven n id × AllGiven ns ids

-- A state after call `k` of the second `stamp`.
abbrev InSecond : ℕ → ℕ → Manager → Type 0
InSecond stamp k a =
    (a.last_time_stamp ≡ stamp) × (a.sequence ≡ k) × (a.gen_key ≤ 0xff) × (0 < stamp)

call_same :
    (a : Manager) (k now : ℕ)
    → InSecond now k a
    → let (b, id) = gen_session_id a now in IsGiven (k + 1) id × InSecond now (k + 1) b
unfolding gen_session_id session_id
call_same a k now (e, s, g, p) = ground arith

call_new :
    (a : Manager) (now : ℕ)
    → (a.last_time_stamp ≢ now) ⊎ (a.last_time_stamp ≡ 0)
    → a.gen_key ≤ 0xff
    → 0 < now
    → (a.last_time_stamp ≡ 0 → a.sequence ≡ 0)
    → let (b, id) = gen_session_id a now in IsGiven 1 id × InSecond now 1 b
unfolding gen_session_id session_id
call_new a now e g p z = ground arith

gen_all-AllGiven :
    (a : Manager) (stamp k : ℕ) (times : List ℕ)
    → InSecond stamp k a
    → IsClock 1 times
    → AllGiven (numbered stamp k times) (gen_all a times)
unfolding gen_all
gen_all-AllGiven a stamp k [] i c = tt
gen_all-AllGiven a stamp k (now ∷ times) i (from, lt, c) =
    let b = (gen_session_id a now).0 in
    let id = (gen_session_id a now).1 in
    let c' = IsClock-mono 1 now times from c in
    if_holds (λ ns. AllGiven ns (id ∷ gen_all b times)) (stamp == now)
      (λ h.
        let (given, j) =
          call_same a k now (subst (λ t. InSecond t k a) ((==_iff stamp now).0 h) i) in
        (given, gen_all-AllGiven b now (k + 1) times j c'))
      (λ h.
        let (given, j) =
          call_new a now (inl (λ e. ground (arith, e, i.0, h))) (i.2) from
            (λ e. absurd (omega (arith, e, i))) in
        (given, gen_all-AllGiven b now 1 times j c'))

-- A new manager with a key of 8 bits, whose stamp is in milliseconds, while the clock is at least 1, does
-- not go back and does not start at that stamp: of each second the first 65535 calls get ids that are
-- not 0, pairwise distinct and ascending over all seconds, and every further call of the second gets 0.
pub gen_all-new_manager :
    (now_ms gen_key nano now : ℕ) (times : List ℕ)
    → now_ms ≢ now
    → gen_key ≤ 0xff
    → IsClock 1 (now ∷ times)
    → let ids = gen_all (set_uuid_create_key (new_manager now_ms) gen_key nano) (now ∷ times) in
      Ascending ids × AllGiven (1 ∷ numbered now 1 times) ids
unfolding gen_all new_manager set_uuid_create_key
gen_all-new_manager now_ms gen_key nano now times h hk (from, lt, c) =
    let a = set_uuid_create_key (new_manager now_ms) gen_key nano in
    let (b, id) = gen_session_id a now in
    let (le, stamp) = first_call a now h hk lt in
    let c' = IsClock-mono b.last_time_stamp now times stamp c in
    let (given, i) = call_new a now (inl h) hk from (λ e. refl) in
    (
      (
        inr (All-above_mono id (bound b) (gen_all b times) le (gen_all-above b times c')),
        gen_all-Ascending b times c',
      ),
      (given, gen_all-AllGiven b now 1 times i (IsClock-mono 1 now times from c)),
    )

-- If the clock goes back to a second after another one, the id of its first call, which is not 0,
-- is given again.
pub gen_session_id_clock_back :
    (a : Manager) (t u : ℕ)
    → a.last_time_stamp ≢ 0
    → a.last_time_stamp ≢ t
    → 0 < t
    → 0 < u
    → t ≢ u
    → a.gen_key ≤ 0xff
    → let (b, id) = gen_session_id a t in
      let (c, _) = gen_session_id b u in ((gen_session_id c t).1 ≡ id) × (0 < id)
unfolding gen_session_id session_id
gen_session_id_clock_back a t u h0 ht pt pu hu hk = ground arith

-- A key above 255 gives every session the id 0.
pub gen_session_id_big_key :
    (a : Manager) (now : ℕ) → 0xff < a.gen_key → (gen_session_id a now).1 ≡ 0
unfolding gen_session_id
gen_session_id_big_key a now h = ground arith
