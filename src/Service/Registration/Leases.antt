-- ===== src/Service/Registration/Leases.antt =====
-- What the registration of service/etcdreg.go leaves in etcd.

use rocommon.Prelude.{
  ℕ, zero, suc, Bool, true, false, Option, none, some, ◌≡◌, ◌≢◌, refl, ◌∙◌, ◌⊎◌, inl, inr, arith,
}
use rocommon.Prelude.Outcome.{Outcome, ok, panic, ◌>>=◌}
use rocommon.Text.{String, ℤ, pos}
use rocommon.Service.Registration.{
  Etcd, kept_alive, put_done, granted, register_with_time_out, put_again, as_pos,
  update_state_to_etcd,
}

module _ {S : Type 0} (etcd : Etcd S) (stored : S → String → Option (String × Option ℕ)) where
  -- What etcd promises of its calls, while no lease runs out: a put stores the value under the lease, a
  -- lease has a number other than 0, and the other calls change no key.
  pub record IsStore : Type 0 where
    pub puts :
        (key val : String) (lease : Option ℕ) (s : S)
        → (etcd.put key val lease s).0 ≡ true
        → stored (etcd.put key val lease s).1 key ≡ some (val, lease)
    pub lease_nonzero : (s : S) (l : ℕ) → (etcd.grant s).0 ≡ some l → l ≢ 0
    pub kept : (l : ℕ) (s : S) (key : String) → stored (etcd.keep_alive l s).1 key ≡ stored s key

  module _ (h : IsStore) (key val : String) where
    -- Of a result that is no panic, the lease is 0, or the value stands under it.
    Leased : Outcome (ℕ × S) → Type 0
    Leased panic = Unit {0}
    Leased (ok (l, s)) = (l ≡ 0) ⊎ ((l ≢ 0) × (stored s key ≡ some (val, some l)))

    Leased-kept :
        (l : ℕ) (r : Bool) (s t : S)
        → stored t key ≡ stored s key
        → l ≢ 0
        → stored s key ≡ some (val, some l)
        → Leased (kept_alive etcd l (r, t))
    unfolding Leased kept_alive
    Leased-kept l true s t same ne e = inr (ne, same ∙ e)
    Leased-kept l false s t same ne e = tt

    Leased-put :
        (l : ℕ) (r : Bool) (s : S)
        → l ≢ 0
        → (r ≡ true → stored s key ≡ some (val, some l))
        → Leased (put_done etcd l (r, s))
    unfolding Leased put_done
    Leased-put l false s ne e = inl refl
    Leased-put l true s ne e =
        Leased-kept l (etcd.keep_alive l s).0 s (etcd.keep_alive l s).1 (h.kept l s key) ne (e refl)

    Leased-granted :
        (r : Option ℕ) (s : S)
        → ((l : ℕ) → r ≡ some l → l ≢ 0)
        → Leased (granted etcd key val (r, s))
    unfolding Leased granted
    Leased-granted none s ne = tt
    Leased-granted (some l) s ne =
        Leased-put l (etcd.put key val (some l) s).0 (etcd.put key val (some l) s).1 (ne l refl)
          (h.puts key val (some l) s)

    Leased-register : (s : S) → Leased (register_with_time_out etcd key val s)
    unfolding register_with_time_out
    Leased-register s = Leased-granted (etcd.grant s).0 (etcd.grant s).1 (h.lease_nonzero s)

    Leased-again :
        (l : ℕ) (r : Bool) (s : S)
        → l ≢ 0
        → (r ≡ true → stored s key ≡ some (val, some l))
        → Leased (put_again etcd key val l (r, s))
    unfolding Leased put_again
    Leased-again l true s ne e = inr (ne, e refl)
    Leased-again l false s ne e = Leased-register s

    -- The same of the number that UpdateStateToETCD returns.
    Leased-as_pos :
        (x : Outcome (ℕ × S)) (t : S) (r : ℤ)
        → Leased x
        → (x >>= as_pos etcd) ≡ ok (r, t)
        → (r ≡ pos 0) ⊎ ((l : ℕ) × (r ≡ pos l) × (l ≢ 0) × (stored t key ≡ some (val, some l)))
    unfolding Leased as_pos
    Leased-as_pos panic t r x e = absurd (ground (arith, e))
    Leased-as_pos (ok (l, s)) t r (inl z) e = inl (ground (arith, z, e))
    Leased-as_pos (ok (l, s)) t r (inr (ne, st)) e =
        inr (l, ground (arith, e), ne, ground (arith, st, e))

    -- When UpdateStateToETCD with a lease, or with none yet, returns a number other than 0, the value that it
    -- was given stands in etcd under the lease of that number, also when the old lease had run out.
    pub update_state_to_etcd-stored :
        (n : ℕ) (s t : S) (r : ℤ)
        → update_state_to_etcd etcd key val (pos n) s ≡ ok (r, t)
        → (r ≡ pos 0) ⊎ ((l : ℕ) × (r ≡ pos l) × (l ≢ 0) × (stored t key ≡ some (val, some l)))
    unfolding update_state_to_etcd
    update_state_to_etcd-stored zero s t r e =
        Leased-as_pos (register_with_time_out etcd key val s) t r (Leased-register s) e
    update_state_to_etcd-stored (suc n) s t r e =
        let p = etcd.put key val (some (suc n)) s in
        Leased-as_pos (put_again etcd key val (suc n) p) t r
          (Leased-again (suc n) p.0 p.1 (omega arith) (h.puts key val (some (suc n)) s)) e
