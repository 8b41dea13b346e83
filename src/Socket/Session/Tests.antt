-- ===== src/Socket/Session/Tests.antt =====
-- Runs of a session: one message sent, a panic of RunRecv, a gate's session whose queue is full.
use rocommon.Prelude.{
  ℕ, ◌≡◌, List, [], ◌∷◌, ◌++◌, true, false, Option, none, some, length, ◌≤◌, map, refl, inl,
  replicate,
}
use rocommon.Socket.Session.{
  Session, start, close, can_put, is_open, below_max_len, put, recv_failed, put_nil, open_tested,
  length_tested, message_put, read_failed, nil_put, recv_panicked, stay, later, Reach, Sender,
  Receiver,
}
use rocommon.Socket.Session.Queue.{Reach-InOrder}
use rocommon.Socket.Session.Ends.{has_nil, told, Reach-Ending}
use rocommon.Socket.Session.Shutdown.{CanBeRemoved, Reach-removed}

-- A session with one message in its queue.
abbrev queued : Session
queued = record {
  closed = false;
  send_queue = some 5 ∷ [];
  capacity = 2001;
  queue_closed = false;
  conn_open = true;
  receiver = Receiver.reading;
  sender = Sender.ranging;
  removed = false;
  entering = [];
  pending = [];
  panics = 0;
  entered = some 5 ∷ [];
  taken = [];
  handed = [];
}

queued-Reach : Reach false queued
unfolding Reach start put can_put is_open below_max_len
queued-Reach =
    later (later (later stay (open_tested (some 5) refl)) (length_tested [] [] (some 5) refl refl))
      (message_put [] [] (some 5) refl refl)

-- The same session after a failed read and the put of nil.
abbrev told_session : Session
told_session = record queued {
  closed = true;
  send_queue = some 5 ∷ none ∷ [];
  entered = some 5 ∷ none ∷ [];
  receiver = Receiver.notifying;
}

told_session-Reach : Reach false told_session
unfolding Reach queued-Reach recv_failed put_nil put can_put
told_session-Reach = later (later queued-Reach (read_failed refl)) (nil_put refl refl)

close_twice_run : close (close queued) ≡ close queued
unfolding close
close_twice_run = refl

Reach-InOrder_example :
    (e : List (Option ℕ)) × (some 5 ∷ none ∷ [] ≡ map some [] ++ e ++ some 5 ∷ none ∷ [])
    × (length e ≤ 1)
    × (Sender.ranging ≡ Sender.ranging → e ≡ [])
    × (2 ≤ 2001)
Reach-InOrder_example = Reach-InOrder false told_session told_session-Reach

Reach-Ending_example :
    (told told_session.receiver ≡ true
      → told_session.sender ≡ Sender.ranging
      → has_nil told_session.send_queue ≡ true)
    × (told told_session.receiver ≡ true → told_session.closed ≡ true)
    × (told_session.removed ≡ true
        → (told_session.closed ≡ true)
          × (told_session.receiver ≡ Receiver.ended)
          × (told_session.sender ≡ Sender.ended)
          × (told_session.queue_closed ≡ true))
Reach-Ending_example = Reach-Ending false told_session told_session-Reach

abbrev recovered_session : Session
recovered_session = record queued { receiver = Receiver.recovered }

recovered_session-Reach : Reach false recovered_session
unfolding Reach
recovered_session-Reach = later queued-Reach (recv_panicked (inl refl))

Reach-removed_example : CanBeRemoved told_session
Reach-removed_example = Reach-removed false told_session told_session-Reach refl (λ e. cc)

-- A gate's session whose RunSend stopped on an error, with a full queue.
abbrev stuck_session : Session
stuck_session = record queued {
  closed = true;
  capacity = 201;
  send_queue = replicate 201 (some 5);
  receiver = Receiver.leaving;
  sender = Sender.ended;
}
