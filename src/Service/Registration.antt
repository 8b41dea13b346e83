-- ===== src/Service/Registration.antt =====
-- The registration of a node in etcd, of service/etcdreg.go. The client of etcd is a parameter: a state,
-- and what each call gives, `none` for an error. The descriptions are given as the JSON that they
-- print. A call of `PanicF` is a panic.
pub mod Leases
pub mod Race
pub mod Startup
mod Tests
use rocommon.Prelude.{
  ℕ, zero, suc, ◌-◌, ◌^◌, List, [], ◌∷◌, ◌++◌, Bool, true, false, Option, none, some, ltb, ◌==◌,
  if◌then◌else◌, length, ◌≡◌,
}
use rocommon.Prelude.Outcome.{Outcome, ok, panic, ◌>>=◌}
use rocommon.Text.{String, codes, split, read_digits, digits_from, ◌=s◌, ℤ, pos, negsuc}

pub record Etcd (S : Type 0) : Type 0 where
  pub get : String → S → Option (List String) × S
  pub grant : S → Option ℕ × S
  pub put : String → String → Option ℕ → S → Bool × S
  pub keep_alive : ℕ → S → Bool × S
  pub delete : String → S → Bool × S

-- The host of a description: the port of "0.0.0.0:port" at the first address of the machine that is no
-- loopback, if there is one. A host without a port panics there.
unfoldable pub local_host : String → Option String → Outcome String
unfolding split ◌=s◌
local_host host none = ok host
local_host host (some []) = ok host
local_host host (some (c ∷ cs)) = elim (split 58 host) [
  | [] ↦ panic
  | name ∷ rest ↦
      if name =s codes "0.0.0.0"
      then elim rest [ [] ↦ panic | port ∷ _ ↦ ok ((c ∷ cs) ++ (codes ":" ++ port)) ]
      else ok host
]

-- `strconv.ParseUint(s, 10, 64)`, whose error is dropped: 0 for no number, and the largest one for a
-- number that is too large.
unfoldable pub parse_uint : String → ℕ
unfolding read_digits
parse_uint [] = 0
parse_uint (c ∷ cs) = elim (read_digits 0 (c ∷ cs)) [
  | none ↦ 0
  | some n ↦ if ltb n (2 ^ 64) then n else 2 ^ 64 - 1
]

module _ {S : Type 0} (etcd : Etcd S) where
  -- The steps of `RegisterWithTimeOut` after the lease, and after the put.
  unfoldable pub kept_alive : ℕ → Bool × S → Outcome (ℕ × S)
  kept_alive lease (true, s) = ok (lease, s)
  kept_alive lease (false, s) = panic

  unfoldable pub put_done : ℕ → Bool × S → Outcome (ℕ × S)
  unfolding kept_alive
  put_done lease (false, s) = ok (0, s)
  put_done lease (true, s) = kept_alive lease (etcd.keep_alive lease s)

  unfoldable pub granted : String → String → Option ℕ × S → Outcome (ℕ × S)
  unfolding put_done
  granted key value (none, s) = panic
  granted key value (some lease, s) = put_done lease (etcd.put key value (some lease) s)

  -- `RegisterWithTimeOut`: the lease, or 0 when the put failed.
  unfoldable pub register_with_time_out : String → String → S → Outcome (ℕ × S)
  unfolding granted
  register_with_time_out key value s = granted key value (etcd.grant s)

  -- `Register`, without a lease.
  unfoldable pub put_or_panic : Bool × S → Outcome S
  put_or_panic (true, s) = ok s
  put_or_panic (false, s) = panic

  unfoldable pub register : String → String → S → Outcome S
  unfolding put_or_panic
  register key value s = put_or_panic (etcd.put key value none s)

  -- The put of `UpdateStateToETCD` under a lease that it was given.
  unfoldable pub put_again : String → String → ℕ → Bool × S → Outcome (ℕ × S)
  unfolding register_with_time_out
  put_again key val lease (true, s) = ok (lease, s)
  put_again key val lease (false, s) = register_with_time_out key val s

  unfoldable pub as_pos : ℕ × S → Outcome (ℤ × S)
  as_pos (lease, s) = ok (pos lease, s)

  -- `UpdateStateToETCD`: 0 is no lease yet, and a negative number asks for none.
  unfoldable pub update_state_to_etcd : String → String → ℤ → S → Outcome (ℤ × S)
  unfolding register_with_time_out put_again as_pos
  update_state_to_etcd key val (pos zero) s = register_with_time_out key val s >>= as_pos
  update_state_to_etcd key val (pos (suc n)) s =
      put_again key val (suc n) (etcd.put key val (some (suc n)) s) >>= as_pos
  update_state_to_etcd key val (negsuc n) s = ok (negsuc n, (etcd.put key val none s).1)

  -- The test of `ETCDRegister` that the key is not there yet.
  unfoldable pub absent : Option (List String) × S → Outcome S
  absent (none, s) = panic
  absent (some [], s) = ok s
  absent (some (v ∷ vs), s) = panic

  unfoldable pub check_absent : String → S → Outcome S
  unfolding absent
  check_absent key s = absent (etcd.get key s)

  -- What `ETCDRegister` does in one etcd, the watch of the own key left out.
  unfoldable pub etcd_register : String → String → S → Outcome (ℕ × S)
  unfolding check_absent register_with_time_out
  etcd_register key value s = check_absent key s >>= register_with_time_out key value

  -- `InitServiceStartupTime`: the time that is stored under the key of the zone, or now.
  unfoldable pub startup_time : String → ℕ → Option (List String) × S → Outcome (ℕ × S)
  unfolding register
  startup_time key now (none, s) = panic
  startup_time key now (some (v ∷ vs), s) = ok (parse_uint v, s)
  startup_time key now (some [], s) = register key (digits_from now now) s >>= λ t. ok (now, t)

  unfoldable pub init_service_startup_time : String → ℕ → S → Outcome (ℕ × S)
  unfolding startup_time
  init_service_startup_time key now s = startup_time key now (etcd.get key s)

  -- `WatchSelf` on one event, which tells that the key was deleted or not.
  unfoldable pub watch_self : String → String → Bool → S → Outcome S
  unfolding register_with_time_out
  watch_self key value false s = ok s
  watch_self key value true s = register_with_time_out key value s >>= λ (lease, t). ok t

  -- `Del`
  unfoldable pub del : String → S → Bool × S
  del key s = etcd.delete key s

module _ {S T : Type 0} (etcd : Etcd S) (cross : Option (Etcd T)) where
  -- The same in the cross etcd, where there is one.
  register_cross : Option (Etcd T) → String → String → T → Outcome T
  register_cross none key value t = ok t
  register_cross (some c) key value t = etcd_register c key value t >>= λ (lease, u). ok u

  -- `ETCDRegister`, of the host and of the JSON that a description prints with its host: the start time that
  -- is known then, and what both etcds hold.
  unfoldable pub etcd_register_node :
      String → Option String → (String → String) → String → String → ℕ → S × T → Outcome (ℕ × S × T)
  unfolding register_cross local_host etcd_register init_service_startup_time
  etcd_register_node host local_addr to_json etcd_key startup_key now (s, t) = do
    h ← local_host host local_addr
    (lease, s1) ← etcd_register etcd etcd_key (to_json h) s
    t1 ← register_cross cross etcd_key (to_json h) t
    (startup, s2) ← init_service_startup_time etcd startup_key now s1
    ok (startup, s2, t1)

  -- `ETCDUnregister`: the results of Del are dropped.
  unfoldable pub etcd_unregister : String → S × T → S × T
  unfolding del
  etcd_unregister key (s, t) =
      ((del etcd key s).1, elim cross [ none ↦ t | some c ↦ (del c key t).1 ])
