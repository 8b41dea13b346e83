-- ===== src/Service/Registration/Race.antt =====
-- Two registrations of one id in the etcd of service/etcdreg.go, one after the other and interleaved.

use rocommon.Prelude.{ℕ, List, [], ◌∷◌, true, Option, none, some, ◌≡◌, ◌≢◌, ap, ◌∙◌, arith}
use rocommon.Prelude.Outcome.{ok, panic, ◌>>=◌}
use rocommon.Text.{String}
use rocommon.Service.Registration.{
  Etcd, kept_alive, put_done, granted, register_with_time_out, absent, check_absent, etcd_register,
}
use rocommon.Service.Registration.Leases.{IsStore}

-- What a Get answers of a key.
abbrev pub values_of : Option (String × Option ℕ) → List String
values_of none = []
values_of (some (v, _)) = v ∷ []

module _ {S : Type 0} (etcd : Etcd S) (stored : S → String → Option (String × Option ℕ)) where
  -- An etcd that answers every call: a Get gives what the key holds, and neither it nor a new lease changes
  -- a key.
  pub record IsUp : Type 0 where
    pub gets : (key : String) (s : S) → (etcd.get key s).0 ≡ some (values_of (stored s key))
    pub get_keeps : (key : String) (s : S) → stored (etcd.get key s).1 key ≡ stored s key
    pub grants : (s : S) → (l : ℕ) × ((etcd.grant s).0 ≡ some l)
    pub put_succeeds :
        (key val : String) (lease : Option ℕ) (s : S) → (etcd.put key val lease s).0 ≡ true
    pub keeps_alive : (l : ℕ) (s : S) → (etcd.keep_alive l s).0 ≡ true

  module _ (h : IsStore etcd stored) (up : IsUp) (key : String) where
    -- RegisterWithTimeOut returns a lease, under which the key then holds the value.
    Registers : String → S → S → Type 0
    Registers val s t =
        (l : ℕ) × (register_with_time_out etcd key val s ≡ ok (l, t))
        × (l ≢ 0)
        × (stored t key ≡ some (val, some l))

    registers : (val : String) (s : S) → (t : S) × Registers val s t
    unfolding Registers register_with_time_out granted put_done kept_alive
    registers val s =
        let (l, e) = up.grants s in
        let s1 = (etcd.grant s).1 in
        let s2 = (etcd.put key val (some l) s1).1 in
        let put_ok = up.put_succeeds key val (some l) s1 in
        let alive = up.keeps_alive l s2 in
        (
          (etcd.keep_alive l s2).1,
          (
            l,
            ground (arith, e, put_ok, alive),
            h.lease_nonzero s l e,
            h.kept l s2 key ∙ h.puts key val (some l) s1 put_ok,
          ),
        )

    free_key : (s : S) → stored s key ≡ none → check_absent etcd key s ≡ ok (etcd.get key s).1
    unfolding check_absent absent
    free_key s e =
        ap (λ r. absent etcd (r, (etcd.get key s).1))
          (up.gets key s ∙ ap (λ v. some (values_of v)) e)

    used_key :
        (s : S) (v : String) (l : Option ℕ)
        → stored s key ≡ some (v, l)
        → check_absent etcd key s ≡ panic
    unfolding check_absent absent
    used_key s v l e =
        ap (λ r. absent etcd (r, (etcd.get key s).1))
          (up.gets key s ∙ ap (λ x. some (values_of x)) e)

    -- Of two nodes of one id, where no other changes the key: if the second registers after the first has, the
    -- first registers and the second panics; but if the Gets of both come before either Put, then both
    -- register, each with a lease, and the key holds the value of the second under its lease.
    pub etcd_register-twice :
        (first second : String) (s : S)
        → stored s key ≡ none
        → ((l : ℕ) × (t : S) × (etcd_register etcd key first s ≡ ok (l, t))
            × (etcd_register etcd key second t ≡ panic))
          × ((s1 : S) × (s2 : S) × (s3 : S) × (s4 : S) × (l : ℕ) × (m : ℕ) × (check_absent etcd key
                  s
                ≡ ok s1)
              × (check_absent etcd key s1 ≡ ok s2)
              × (register_with_time_out etcd key first s2 ≡ ok (l, s3))
              × (register_with_time_out etcd key second s3 ≡ ok (m, s4))
              × (l ≢ 0)
              × (m ≢ 0)
              × (stored s4 key ≡ some (second, some m)))
    unfolding etcd_register Registers
    etcd_register-twice first second s free =
        let s1 = (etcd.get key s).1 in
        let free1 = up.get_keeps key s ∙ free in
        let s2 = (etcd.get key s1).1 in
        let (t, (k, r, nz, st)) = registers first s1 in
        let (s3, (l, r3, nz3, st3)) = registers first s2 in
        let (s4, (m, r4, nz4, st4)) = registers second s3 in
        (
          (
            k,
            t,
            ap (λ o. o >>= register_with_time_out etcd key first) (free_key s free) ∙ r,
            ap (λ o. o >>= register_with_time_out etcd key second) (used_key t first (some k) st),
          ),
          (s1, s2, s3, s4, l, m, free_key s free, free_key s1 free1, r3, r4, nz3, nz4, st4),
        )
