-- ===== src/Socket/Dispatch/Tests.antt =====
-- The hooks and processors of socket/procrpc.go at small tables.
use rocommon.Prelude.{ℕ, ◌+◌, [], ◌∷◌, Option, none, some, ◌≡◌, refl}
use rocommon.Prelude.Outcome.{ok, panic, ◌>>=◌}
use rocommon.Text.{codes, ◌=s◌}
use rocommon.Socket.Dispatch.{
  multi_event_hook, hooked, proc_event, sent, send_msg, register_process_rpc, registered,
  find_processor, set_processor_rpc, chosen,
}

abbrev count_up : Option ℕ → Option ℕ
count_up none = none
count_up (some n) = some (n + 1)

abbrev drop_all : Option ℕ → Option ℕ
drop_all e = none

hooks_test :
    proc_event (some (multi_event_hook (count_up ∷ count_up ∷ []))) (some (λ n. n)) (some 1)
    ≡ some 3
unfolding proc_event hooked multi_event_hook
hooks_test = refl

-- A hook that drops an outgoing event makes SendMsg panic.
dropped_test :
    send_msg (some (multi_event_hook (count_up ∷ drop_all ∷ []))) (some (λ n. n)) (some 1) ≡ panic
unfolding send_msg sent hooked multi_event_hook
dropped_test = refl

twice_test :
    (register_process_rpc {A = ℕ} [] (codes "tcp.pb") 1 >>= λ ps.
    register_process_rpc ps (codes "tcp.pb") 2)
    ≡ panic
unfolding register_process_rpc registered find_processor ◌=s◌
twice_test = refl

chosen_test :
    (register_process_rpc {A = ℕ} [] (codes "tcp.pb") 1 >>= λ ps.
    set_processor_rpc ps (codes "tcp.pb"))
    ≡ ok 1
unfolding register_process_rpc registered find_processor set_processor_rpc chosen ◌=s◌
chosen_test = refl
