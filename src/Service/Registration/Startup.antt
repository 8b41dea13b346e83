-- ===== src/Service/Registration/Startup.antt =====
-- The time of the first start of a zone, of service/etcdreg.go.
use mathlib.Core.Path.{subst}
use rocommon.Prelude.{
  ℕ, ◌<◌, ◌^◌, List, [], ◌∷◌, Bool, true, false, Option, none, some, ◌≡◌, refl, ap, length, ◌∙◌,
  arith,
}
use rocommon.Prelude.Outcome.{Outcome, ok, panic, ◌>>=◌}
use rocommon.Text.{String, digits_from, read_digits}
use rocommon.Text.Digits.{read_digits-digits_from, length-digits_from}
use rocommon.Service.Registration.{
  absent, absent, del, etcd_unregister, check_absent, Etcd, parse_uint, put_or_panic, register,
  startup_time, init_service_startup_time,
}

parse_uint_of :
    (s : String) (n : ℕ) → 0 < length s → read_digits 0 s ≡ some n → n < 2 ^ 64 → parse_uint s ≡ n
unfolding parse_uint
parse_uint_of [] n l r h = absurd (ground (arith, l))
parse_uint_of (c ∷ cs) n l r h = ground (arith, r, h)

parse_uint-digits_from : (n : ℕ) → n < 2 ^ 64 → parse_uint (digits_from n n) ≡ n
parse_uint-digits_from n h =
    parse_uint_of (digits_from n n) n (length-digits_from n n)
      (read_digits-digits_from n n (omega arith)) h

module _ {S : Type 0} (etcd : Etcd S) where
  -- What a Get promises, while no one else writes the key: it finds what was put last, and a second Get
  -- finds the same.
  pub record IsReadable : Type 0 where
    pub get_put :
        (key val : String) (lease : Option ℕ) (s : S)
        → (etcd.put key val lease s).0 ≡ true
        → (etcd.get key (etcd.put key val lease s).1).0 ≡ some (val ∷ [])
    pub get_get : (key : String) (s : S) → (etcd.get key (etcd.get key s).1).0 ≡ (etcd.get key s).0

  module _ (h : IsReadable) (key : String) (now later : ℕ) where
    -- The later start.
    Again : Outcome (ℕ × S) → Type 0
    Again panic = Unit {0}
    Again (ok (t, s)) = init_service_startup_time etcd key later s ≡ ok (t, (etcd.get key s).1)

    Again-register :
        (r : Bool) (s : S)
        → now < 2 ^ 64
        → (r ≡ true → (etcd.get key s).0 ≡ some (digits_from now now ∷ []))
        → Again (put_or_panic etcd (r, s) >>= λ t. ok (now, t))
    unfolding Again put_or_panic init_service_startup_time startup_time
    Again-register true s hn e =
        ap (λ r. startup_time etcd key later (r, (etcd.get key s).1)) (e refl)
        ∙ ap (λ t. ok (t, (etcd.get key s).1)) (parse_uint-digits_from now hn)
    Again-register false s hn e = tt

    Again-startup :
        (r : Option (List String)) (s : S)
        → now < 2 ^ 64
        → ((etcd.get key s).0 ≡ r)
        → Again (startup_time etcd key now (r, s))
    unfolding Again startup_time init_service_startup_time register
    Again-startup none s hn e = tt
    Again-startup (some []) s hn e =
        let p = etcd.put key (digits_from now now) none s in
        Again-register p.0 p.1 hn (h.get_put key (digits_from now now) none s)
    Again-startup (some (v ∷ vs)) s hn e =
        ap (λ r. startup_time etcd key later (r, (etcd.get key s).1)) e

    -- Whatever time the first start of a zone took or found, every later one finds the same, whenever
    -- it happens.
    pub init_service_startup_time-again :
        (t : ℕ) (s s1 : S)
        → now < 2 ^ 64
        → init_service_startup_time etcd key now s ≡ ok (t, s1)
        → init_service_startup_time etcd key later s1 ≡ ok (t, (etcd.get key s1).1)
    unfolding Again init_service_startup_time
    init_service_startup_time-again t s s1 hn e =
        subst Again e (Again-startup (etcd.get key s).0 (etcd.get key s).1 hn (h.get_get key s))

-- After ETCDUnregister the test of ETCDRegister passes for the key, where a delete of etcd removes it.
etcd_unregister-check_absent :
    {S T : Type 0} (etcd : Etcd S) (cross : Option (Etcd T)) (key : String) (s : S) (t : T)
    → ((u : S) → (etcd.get key (etcd.delete key u).1).0 ≡ some [])
    → (u : S) × (check_absent etcd key (etcd_unregister etcd cross key (s, t)).0 ≡ ok u)
unfolding check_absent etcd_unregister del
etcd_unregister-check_absent etcd cross key s t deleted =
    let answer = etcd.get key (etcd.delete key s).1 in
    (answer.1, ap (λ a. absent etcd (a, answer.1)) (deleted s))
