-- ===== src/Socket/Options/Tests.antt =====
-- Options of socket/socketoption.go at concrete calls.
use rocommon.Prelude.{arith, ℕ, suc, Bool, false, [], ◌∷◌}
use rocommon.Text.{ℤ, pos, negsuc}
use rocommon.Socket.Options.{
  NetTcpSocketOption, init_option, set_max_msg_len, limited, set_socket_buff, copy_opt, initial,
  buffered, copied, IsLimit, Configured-IsLimit,
}

abbrev some_option : NetTcpSocketOption
some_option =
    copy_opt (set_socket_buff (pos 99999) (negsuc 4) false (set_max_msg_len (pos 7) init_option))
      init_option

Configured-IsLimit_example :
    IsLimit some_option.max_msg_len
    × ((n : ℕ) (write : ℤ) (no_delay : Bool)
        → IsLimit (set_socket_buff (pos (suc n)) write no_delay some_option).max_msg_len)
Configured-IsLimit_example =
    Configured-IsLimit (pos 7 ∷ []) some_option
      (copied init_option (buffered (pos 99999) (negsuc 4) false (limited (pos 7) initial)))
      ((omega arith, omega arith), tt)
