-- ===== src/Service/Registration/Tests.antt =====
-- The registration of service/etcdreg.go in an etcd that is a list of keys, values and leases.
use rocommon.Prelude.{
  ℕ, suc, [], ◌∷◌, true, Option, none, some, if◌then◌else◌, ◌≡◌, ◌≢◌, ◌⊎◌, refl, arith,
}
use rocommon.Prelude.Outcome.{ok, panic}
use rocommon.Text.{String, codes, split, ◌=s◌, pos, digits_from, cons_head}
use rocommon.Text.Equal.{=s_refl}
use rocommon.Service.Registration.{
  etcd_register, Etcd, local_host, kept_alive, put_done, granted, register_with_time_out, as_pos,
  update_state_to_etcd, check_absent, init_service_startup_time, startup_time, put_or_panic,
  register,
}
use rocommon.Service.Registration.Leases.{IsStore, update_state_to_etcd-stored}
use rocommon.Service.Registration.Race.{values_of, IsUp, etcd_register-twice}
use rocommon.Service.Registration.Startup.{IsReadable, init_service_startup_time-again}

record Store : Type 0 where
  leases : ℕ
  held : String → Option (String × Option ℕ)

abbrev etcd : Etcd Store
etcd = record {
  get = λ k s. (some (values_of (s.held k)), s);
  grant = λ s. (some (suc s.leases), record s { leases = suc s.leases });
  put = λ k v l s. (true, record s { held = λ j. if k =s j then some (v, l) else s.held j });
  keep_alive = λ l s. (true, s);
  delete = λ k s. (true, record s { held = λ j. if k =s j then none else s.held j });
}

abbrev held_by : Store → String → Option (String × Option ℕ)
held_by s = s.held

etcd-IsStore : IsStore etcd held_by
etcd-IsStore = record {
  puts = λ key val lease s e. ground (arith, =s_refl key);
  lease_nonzero = λ s l e. ground (arith, e);
  kept = λ l s key. refl;
}

etcd-IsReadable : IsReadable etcd
etcd-IsReadable = record {
  get_put = λ key val lease s e. ground (arith, =s_refl key);
  get_get = λ key s. refl;
}

abbrev nothing_held : Store
nothing_held = record { leases = 0; held = λ k. none }

abbrev first_held : Store
first_held = record {
  leases = 1;
  held = λ j. if (1 ∷ []) =s j then some (9 ∷ [], some 1) else none;
}

first_state :
    update_state_to_etcd etcd (1 ∷ []) (9 ∷ []) (pos 0) nothing_held ≡ ok (pos 1, first_held)
unfolding update_state_to_etcd register_with_time_out granted put_done kept_alive as_pos
first_state = refl

update_state_to_etcd-stored_example :
    (pos 1 ≡ pos 0)
    ⊎ ((l : ℕ) × (pos 1 ≡ pos l) × (l ≢ 0) × (first_held.held (1 ∷ []) ≡ some (9 ∷ [], some l)))
update_state_to_etcd-stored_example =
    update_state_to_etcd-stored etcd held_by etcd-IsStore (1 ∷ []) (9 ∷ []) 0 nothing_held
      first_held (pos 1) first_state

etcd-IsUp : IsUp etcd held_by
etcd-IsUp = record {
  gets = λ key s. refl;
  get_keeps = λ key s. refl;
  grants = λ s. (suc s.leases, refl);
  put_succeeds = λ key val lease s. refl;
  keeps_alive = λ l s. refl;
}

etcd_register-twice_example :
    ((l : ℕ) × (t : Store) × (etcd_register etcd (1 ∷ []) (8 ∷ []) nothing_held ≡ ok (l, t))
      × (etcd_register etcd (1 ∷ []) (9 ∷ []) t ≡ panic))
    × ((s1 : Store) × (s2 : Store) × (s3 : Store) × (s4 : Store) × (l : ℕ) × (m : ℕ) × (check_absent
            etcd
            (1 ∷ [])
            nothing_held
          ≡ ok s1)
        × (check_absent etcd (1 ∷ []) s1 ≡ ok s2)
        × (register_with_time_out etcd (1 ∷ []) (8 ∷ []) s2 ≡ ok (l, s3))
        × (register_with_time_out etcd (1 ∷ []) (9 ∷ []) s3 ≡ ok (m, s4))
        × (l ≢ 0)
        × (m ≢ 0)
        × (s4.held (1 ∷ []) ≡ some (9 ∷ [], some m)))
etcd_register-twice_example =
    etcd_register-twice etcd held_by etcd-IsStore etcd-IsUp (1 ∷ []) (8 ∷ []) (9 ∷ []) nothing_held
      refl

abbrev started : Store
started = record nothing_held {
  held = λ j. if (1 ∷ []) =s j then some (digits_from 17 17, none) else none;
}

first_start : init_service_startup_time etcd (1 ∷ []) 17 nothing_held ≡ ok (17, started)
unfolding init_service_startup_time startup_time register put_or_panic
first_start = refl

init_service_startup_time-again_example :
    init_service_startup_time etcd (1 ∷ []) 99 started ≡ ok (17, started)
init_service_startup_time-again_example =
    init_service_startup_time-again etcd etcd-IsReadable (1 ∷ []) 17 99 17 nothing_held started
      (omega arith) first_start

-- A host of any address is registered under the machine's own; one without a port panics.
any_host : local_host (codes "0.0.0.0:80") (some (codes "10.1.2.3")) ≡ ok (codes "10.1.2.3:80")
unfolding local_host split cons_head ◌=s◌
any_host = refl

no_port : local_host (codes "0.0.0.0") (some (codes "10.1.2.3")) ≡ panic
unfolding local_host split cons_head ◌=s◌
no_port = refl
